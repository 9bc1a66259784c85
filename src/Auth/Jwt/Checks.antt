-- ===== src/Auth/Jwt/Checks.antt =====
-- What an accepted access token is known to be, and what its errors say.
use oa_libs.Base.{
  ◌≡◌, ◌⊎◌, inl, inr, refl, sym, true, [], ◌∷◌, Any, Result, ok, err, map_err, arith, Option, some,
  none,
}
use oa_libs.Std.Text.{Text, codes}
use oa_libs.Auth.Claims.{Claims}
use oa_libs.Auth.Claims.Wire.Members.{claims_from_value-members}
use oa_libs.Auth.Claims.Wire.{claims_from_value}
use oa_libs.Deps.{Json}
use oa_libs.Deps.Serde.{Serde, required}
use oa_libs.Std.Int.{ℤ}
use oa_libs.Auth.Jwt.{
  Header, expired, invalid, Algorithm, rs256, Validation, ErrorKind, expired_signature, other_kind,
  JsonWebToken, map_kind, validation_for, decode_access_token,
}

module _ {J : Json} (S : Serde J) (W : JsonWebToken J.Value) where
  -- The documented behaviour of jsonwebtoken. A token that is decoded under a validation is signed, and
  -- its payload passes the checks of the issuer and, where they are on, of the time. `InTime` says of an
  -- `exp` that it has not passed at the time of the call, up to the leeway of the library. A token
  -- is decoded by the key that belongs to the one that signed it if its payload passes these checks and
  -- names no audience.
  pub record TokenLaws : Type 1 where
    pub Signed : Text → W.DecodingKey → Algorithm → Type 0
    pub InTime : ℤ → Type 0
    pub Belongs : W.EncodingKey → W.DecodingKey → Type 0
    pub decode-signed :
        {A : Type 0} (read : J.Value → Option A) (token : Text) (key : W.DecodingKey)
        (v : Validation) (a : A)
        → W.decode read token key v ≡ ok a
        → Signed token key v.algorithm
    pub decode-payload :
        {A : Type 0} (read : J.Value → Option A) (token : Text) (key : W.DecodingKey)
        (v : Validation) (a : A)
        → W.decode read token key v ≡ ok a
        → (payload : J.Value) × (read payload ≡ some a)
          × ((issuer : Text)
              → required S J.as_str (codes "iss") payload ≡ some issuer
              → Any (λ i. i ≡ issuer) v.issuer)
          × ((exp : ℤ)
              → v.validate_exp ≡ true
              → required S S.as_int (codes "exp") payload ≡ some exp
              → InTime exp)
    pub decode-encode :
        {A : Type 0} (read : J.Value → Option A) (header : Header) (payload : J.Value)
        (ek : W.EncodingKey) (dk : W.DecodingKey) (token : Text) (v : Validation) (a : A)
        (issuer : Text) (exp : ℤ)
        → W.encode header payload ek ≡ ok token
        → Belongs ek dk
        → v.algorithm ≡ header.alg
        → required S J.as_str (codes "iss") payload ≡ some issuer
        → Any (λ i. i ≡ issuer) v.issuer
        → required S S.as_int (codes "exp") payload ≡ some exp
        → InTime exp
        → J.get payload (codes "aud") ≡ none
        → read payload ≡ some a
        → W.decode read token dk v ≡ ok a
    pub decode_header-encode :
        (header : Header) (payload : J.Value) (ek : W.EncodingKey) (token : Text)
        → W.encode header payload ek ≡ ok token
        → W.decode_header token ≡ ok header

module _ {J : Json} (S : Serde J) (W : JsonWebToken J.Value) where
  map_kind_cases :
      (r : Result (Claims J.Value) ErrorKind)
      → ((c : Claims J.Value) × (r ≡ ok c) × (map_err map_kind r ≡ ok c))
        ⊎ ((r ≡ err expired_signature) × (map_err map_kind r ≡ err expired))
        ⊎ ((r ≡ err other_kind)
            × (map_err map_kind r ≡ err (invalid (codes "token verification failed"))))
  unfolding map_kind
  map_kind_cases (ok c) = inl (c, refl, refl)
  map_kind_cases (err expired_signature) = inr (inl (refl, refl))
  map_kind_cases (err other_kind) = inr (inr (refl, refl))

  -- The three outcomes of a verification: the claims that jsonwebtoken read, `Expired` exactly where it
  -- refused the token as expired, and one fixed error for every other fault, so that a caller does not
  -- learn which check failed.
  pub decode_access_token_cases :
      (token : Text) (key : W.DecodingKey) (issuer : Text)
      → ((c : Claims J.Value) × (W.decode (claims_from_value S) token key (validation_for issuer)
            ≡ ok c)
          × (decode_access_token S W token key issuer ≡ ok c))
        ⊎ ((W.decode (claims_from_value S) token key (validation_for issuer)
              ≡ err expired_signature)
            × (decode_access_token S W token key issuer ≡ err expired))
        ⊎ ((W.decode (claims_from_value S) token key (validation_for issuer) ≡ err other_kind)
            × (decode_access_token S W token key issuer
                ≡ err (invalid (codes "token verification failed"))))
  unfolding decode_access_token
  decode_access_token_cases token key issuer =
      map_kind_cases (W.decode (claims_from_value S) token key (validation_for issuer))

  read_by_decode :
      (r : Result (Claims J.Value) ErrorKind) (c : Claims J.Value)
      → map_err map_kind r ≡ ok c
      → r ≡ ok c
  read_by_decode (ok d) c h = ground arith
  read_by_decode (err kind) c h = absurd (cc)

  -- An access token is accepted only if it is signed with RS256 under the given key, was issued by the
  -- given issuer and no other, and has not expired.
  pub decode_access_token_checks :
      (L : TokenLaws S W) (token : Text) (key : W.DecodingKey) (issuer : Text) (c : Claims J.Value)
      → decode_access_token S W token key issuer ≡ ok c
      → L.Signed token key rs256 × (c.iss ≡ issuer) × L.InTime c.exp
  unfolding decode_access_token
  decode_access_token_checks L token key issuer c h =
      let v : Validation = record {
        algorithm = rs256;
        issuer = issuer ∷ [];
        validate_exp = true;
      } in
      let read = read_by_decode (W.decode (claims_from_value S) token key v) c h in
      let (payload, same, issued, lasts) =
        L.decode-payload (claims_from_value S) token key v c read in
      let (issuer_is, exp_is) = claims_from_value-members S payload c same in
      (
        L.decode-signed (claims_from_value S) token key v c read,
        sym (only (issued c.iss issuer_is)),
        lasts c.exp refl exp_is,
      )
    where
      only : Any (λ i. i ≡ c.iss) (issuer ∷ []) → issuer ≡ c.iss
      only (inl same) = same
      only (inr none_left) = absurd none_left
