-- ===== src/Auth/Jwks/Selection.antt =====
-- Which key of a set verifies a token.
use mathlib.Core.Bool.{false≢true}
use oa_libs.Base.{
  ◌≡◌, ◌≢◌, ◌⊎◌, inl, inr, refl, sym, ap, ◌∙◌, Bool-cases, none, some, List, [], ◌∷◌, ◌++◌, All, ok,
  err, map_err, ok_or,
}
use oa_libs.Deps.{Crypto}
use oa_libs.Std.Text.{Text, codes, text_eq}
use oa_libs.Std.Text.Laws.{text_eq_iff, text_eq_ne}
use oa_libs.Std.Utf8.{Bytes}
use oa_libs.Auth.Jwt.{invalid, JsonWebToken}
use oa_libs.Auth.Jwks.{
  Jwk, find_kid, select_key, jwk_from_rsa_public_components, decoding_key_from_jwk,
  decoding_key_from_jwks,
}

-- The first key of the list with the identifier.
abbrev pub IsFirst : Text → List Jwk → Jwk → Type 0
IsFirst kid keys k =
    (before : List Jwk) × (after : List Jwk) × (keys ≡ before ++ k ∷ after)
    × (k.kid ≡ kid)
    × All (λ j. j.kid ≢ kid) before

find_kid_cases :
    (kid : Text) (keys : List Jwk)
    → ((k : Jwk) × (find_kid kid keys ≡ some k) × IsFirst kid keys k)
      ⊎ ((find_kid kid keys ≡ none) × All (λ j. j.kid ≢ kid) keys)
unfolding find_kid
find_kid_cases kid [] = inr (refl, tt)
find_kid_cases kid (j ∷ keys) = elim (Bool-cases (text_eq j.kid kid)) [
  | inl same ↦ inl (j, rw same refl, ([], keys, refl, (text_eq_iff j.kid kid).0 same, tt))
  | inr differ ↦
      let apart : j.kid ≢ kid = λ e. false≢true (sym differ ∙ (text_eq_iff j.kid kid).1 e) in
      elim (find_kid_cases kid keys) [
        | inl (k, found, (before, after, form, named, others)) ↦
            inl (
              k,
              rw differ found,
              (j ∷ before, after, ap (λ l. j ∷ l) form, named, (apart, others)),
            )
        | inr (missed, others) ↦ inr (rw differ missed, (apart, others))
      ]
]

-- With an identifier, the first key of the set that has it is chosen, and it is an error that names the
-- identifier if there is none; without one, the first key, and it is an error if the set is empty.
select_key_exact :
    (kid : Text) (keys : List Jwk)
    → (((k : Jwk) × (select_key keys (some kid) ≡ ok k) × IsFirst kid keys k)
        ⊎ ((select_key keys (some kid) ≡ err (invalid (codes "kid not found: " ++ kid)))
            × All (λ j. j.kid ≢ kid) keys))
      × (((k : Jwk) × (rest : List Jwk) × (select_key keys none ≡ ok k) × (keys ≡ k ∷ rest))
          ⊎ ((select_key keys none ≡ err (invalid (codes "empty jwks"))) × (keys ≡ [])))
unfolding select_key
select_key_exact kid keys = (
  elim (find_kid_cases kid keys) [
    | inl (k, found, first) ↦
        inl (k, ap (ok_or (invalid (codes "kid not found: " ++ kid))) found, first)
    | inr (missed, others) ↦
        inr (ap (ok_or (invalid (codes "kid not found: " ++ kid))) missed, others)
  ],
  head keys,
)
  where
    head :
        (keys : List Jwk)
        → ((k : Jwk) × (rest : List Jwk) × (select_key keys none ≡ ok k) × (keys ≡ k ∷ rest))
          ⊎ ((select_key keys none ≡ err (invalid (codes "empty jwks"))) × (keys ≡ []))
    head [] = inr (refl, refl)
    head (k ∷ rest) = inl (k, rest, refl, refl)

find_kid-published :
    (kid : Text) (older newer : List Jwk) (k : Jwk)
    → k.kid ≡ kid
    → All (λ j. j.kid ≢ kid) older
    → find_kid kid (older ++ k ∷ newer) ≡ some k
unfolding find_kid
find_kid-published kid [] newer k named others = rw ((text_eq_iff k.kid kid).1 named) refl
find_kid-published kid (j ∷ older) newer k named others =
    rw (text_eq_ne j.kid kid others.0) (find_kid-published kid older newer k named others.1)

-- A key that is published with an identifier of its own verifies the tokens under that identifier,
-- whatever keys stand beside it: the verification key is made of just its modulus and exponent.
pub decoding_key-published :
    {Value : Type 0} (C : Crypto) (W : JsonWebToken Value) (kid : Text) (modulus exponent : Bytes)
    (older newer : List Jwk)
    → All (λ j. j.kid ≢ kid) older
    → decoding_key_from_jwks W
        (record { keys = older ++ jwk_from_rsa_public_components C kid modulus exponent ∷ newer })
        (some kid)
      ≡ map_err
          (λ e. invalid (codes "invalid rsa components: " ++ e))
          (W.decoding_key_from_rsa_components (C.encode modulus) (C.encode exponent))
unfolding decoding_key_from_jwks select_key decoding_key_from_jwk jwk_from_rsa_public_components
    text_eq
decoding_key-published C W kid modulus exponent older newer others =
    let k = jwk_from_rsa_public_components C kid modulus exponent in
    let found = find_kid-published kid older newer k refl others in rw found refl
