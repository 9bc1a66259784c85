-- ===== src/Auth/Access/Guarding.antt =====
-- What the bot guard lets through, and why it cannot be talked into letting more through.
use mathlib.Core.Option.{some-injective}
use mathlib.Core.Bool.{false≢true}
use oa_libs.Base.{
  ◌≡◌, ◌⊎◌, inl, inr, refl, sym, ◌∙◌, subst, true, false, Option, none, some, Option-cases, ok,
  Bool-cases, arith,
}
use oa_libs.Deps.{Json}
use oa_libs.Std.Text.{Text, codes}
use oa_libs.Common.Error.{Response, into_response}
use oa_libs.Auth.Claims.{Claims, is_bot, allow_module}
use oa_libs.Auth.Claims.Permissions.{Grants, allow_module_iff}
use oa_libs.Auth.Access.{
  Request, raw_bearer_token, TokenVerifier, auth_user, is_write_method, Decoders, refused, passed,
  decode_claims_unverified, guard_claims, module_refusal, guard_bot_request,
}
use oa_libs.Auth.Access.Extraction.{raw_bearer_token_iff, auth_user_iff}

-- The token, read without a check of its signature, is of a bot that lacks the permission.
module _ (J : Json) (D : Decoders J.Value) where
  abbrev pub Denied : Request → Text → Type 0
  Denied req mod_name =
      (c : Claims J.Value) × (guard_claims J D req ≡ some c)
      × (is_bot c ≡ true)
      × (¬ Grants J c.bot_permissions mod_name (is_write_method req.method))

  none_read : {o : Option (Claims J.Value)} → o ≡ none → (c : Claims J.Value) → ¬ (o ≡ some c)
  none_read e c h = cc

  not-Denied :
      (req : Request) (mod_name : Text) (c : Claims J.Value)
      → guard_claims J D req ≡ some c
      → allow_module J c mod_name (is_write_method req.method) ≡ true
      → ¬ Denied req mod_name
  not-Denied req mod_name c read allowed (d, read', bot, lacking) =
      let write = is_write_method req.method in
      let same = some-injective c d (sym read ∙ read') in
      let allowed' = subst (λ k. allow_module J k mod_name write ≡ true) same allowed in
      elim ((allow_module_iff J d mod_name write).0 allowed') [
        | inl human ↦ cc
        | inr granted ↦ lacking granted
      ]

  Denied-of_refusal :
      (req : Request) (mod_name : Text) (c : Claims J.Value)
      → guard_claims J D req ≡ some c
      → allow_module J c mod_name (is_write_method req.method) ≡ false
      → Denied req mod_name
  Denied-of_refusal req mod_name c read refusal =
      let allow = (allow_module_iff J c mod_name (is_write_method req.method)).1 in
      (
        c,
        read,
        bot_of (λ human. allow (inl human)),
        λ granted. false≢true (sym refusal ∙ allow (inr granted)),
      )
    where
      bot_of :
          (is_bot c ≡ false → allow_module J c mod_name (is_write_method req.method) ≡ true)
          → is_bot c ≡ true
      bot_of allow = ground arith

  module _ {Reply : Type 0} (req : Request) (next : Request → Reply) (mod_name : Text) where
    -- The guard answers in one of two ways only. It refuses, with 403 and the code of its own, exactly
    -- the requests whose token names a bot without the permission; any other request, one with no
    -- token or with an unreadable one included, goes on unchanged.
    pub guard_bot_request_exact :
        (Denied req mod_name
          × (r : Response) × (guard_bot_request J D req next mod_name ≡ refused r)
          × (r.status ≡ 403)
          × (r.body.code ≡ codes "AUTH_FORBIDDEN_MODULE"))
        ⊎ ((¬ Denied req mod_name) × (guard_bot_request J D req next mod_name ≡ passed (next req)))
    unfolding guard_bot_request module_refusal into_response
    guard_bot_request_exact = elim (Option-cases (guard_claims J D req)) [
      | inl unread ↦
          inr ((λ denied. none_read unread denied.0 denied.1), rw (unread, guard_bot_request))
      | inr (c, read) ↦ elim (Bool-cases (allow_module J c mod_name (is_write_method req.method))) [
        | inl allowed ↦ inr (not-Denied req mod_name c read allowed, ground arith)
        | inr refusal ↦ inl (
          Denied-of_refusal req mod_name c read refusal,
          (into_response (module_refusal mod_name (is_write_method req.method))).0,
          ground arith,
          refl,
          refl,
        )
      ]
    ]

  not_both : {Reply : Type 0} {r : Response} {a : Reply} → ¬ (passed a ≡ refused r)
  not_both e = cc

  Grants-of_not-Denied :
      (req : Request) (mod_name : Text) (c : Claims J.Value)
      → guard_claims J D req ≡ some c
      → is_bot c ≡ true
      → ¬ Denied req mod_name
      → Grants J c.bot_permissions mod_name (is_write_method req.method)
  Grants-of_not-Denied req mod_name c read bot accepted =
      let write = is_write_method req.method in
      elim (Bool-cases (allow_module J c mod_name write)) [
        | inl allowed ↦ elim ((allow_module_iff J c mod_name write).0 allowed) [
          | inl human ↦ absurd (false≢true (sym human ∙ bot))
          | inr granted ↦ granted
        ]
        | inr refusal ↦ absurd (accepted (Denied-of_refusal req mod_name c read refusal))
      ]

  guard_reads :
      (req : Request) (t : Text) (c : Claims J.Value)
      → raw_bearer_token req ≡ some t
      → decode_claims_unverified J D t ≡ some c
      → guard_claims J D req ≡ some c
  unfolding guard_claims
  guard_reads req t c token decoded = rw (token, guard_claims) decoded

  -- A request that passes the guard and whose token the service then verifies acts for a bot only
  -- within that bot's permissions for the module and the kind of access, if a verified token has the
  -- claims that its payload spells. Forging the payload does not help: the guard and the verifier
  -- read the same token.
  pub passed_bot_is_permitted :
      {Reply : Type 0} (verify : TokenVerifier J.Value)
      (consistent : (t : Text) (c : Claims J.Value)
        → verify t ≡ ok c
        → decode_claims_unverified J D t ≡ some c)
      (req : Request) (next : Request → Reply) (mod_name : Text) (reply : Reply)
      (c : Claims J.Value)
      → guard_bot_request J D req next mod_name ≡ passed reply
      → auth_user verify req ≡ ok c
      → is_bot c ≡ true
      → Grants J c.bot_permissions mod_name (is_write_method req.method)
  passed_bot_is_permitted verify consistent req next mod_name reply c through known bot =
      let (t, carried, nonempty, verified) = (auth_user_iff verify req c).0 known in
      let read =
        guard_reads req t c ((raw_bearer_token_iff req t).1 carried) (consistent t c verified) in
      elim (guard_bot_request_exact req next mod_name) [
        | inl (denied, r, refusal, is403, names) ↦ absurd (not_both (sym through ∙ refusal))
        | inr (accepted, same) ↦ Grants-of_not-Denied req mod_name c read bot accepted
      ]
