-- ===== src/Auth/Access/Examples.antt =====
-- The theorems on extraction and on the bot guard at concrete requests.
use oa_libs.Base.{to_option, ℕ, ◌≡◌, ◌≢◌, ◌⊎◌, refl, none, some, [], if◌then◌else◌, ok, err, arith}
use oa_libs.Std.Text.{split, Text, codes, text_eq}
use oa_libs.Auth.Claims.{allow_module, Claims, is_bot}
use oa_libs.Auth.Access.{
  payload_of, guard_claims, raw_bearer_token, Request, TokenVerifier, Decoders, refused, passed,
  missing_token, bearer_token, auth_user, optional_auth_user, is_write_method,
  decode_claims_unverified, guard_bot_request, require_role, require_admin, require_scope,
  require_resource_scope,
}
use oa_libs.Deps.Samples.{Tree, trees}
use oa_libs.Std.Text.Laws.{text_eq_iff}
use oa_libs.Common.Error.{AppError, Response, status, error_code}
use oa_libs.Auth.Claims.Permissions.{Grants}
use oa_libs.Auth.Claims.Examples.{bot}
use oa_libs.Auth.Access.Extraction.{Carries, auth_user_exact}
use oa_libs.Auth.Access.Guarding.{Denied, guard_bot_request_exact, passed_bot_is_permitted}

abbrev token : Text
token = codes "h.p.s"

-- Accepts one token, as the bot.
abbrev verify : TokenVerifier Tree
verify t = if text_eq t token then ok bot else err missing_token

-- Every payload reads as the claims of the bot.
abbrev decoders : Decoders Tree
decoders = record { url_decode = λ s. some s; claims_from_slice = λ b. some bot }

abbrev post : Request
post = record { method = codes "POST"; authorization = some (some (codes "Bearer h.p.s")) }

abbrev anonymous : Request
anonymous = record { method = codes "GET"; authorization = none }

abbrev next : Request → ℕ
next req = 7

auth_user_exact_example :
    (((bearer_token post ≡ none)
        × ((t : Text) → ¬ (Carries post t × (t ≢ [])))
        × (e : AppError) × (auth_user verify post ≡ err e)
        × (status e ≡ 401)
        × (error_code e ≡ codes "AUTH_MISSING_TOKEN"))
      ⊎ ((t : Text) × Carries post t × (t ≢ []) × (auth_user verify post ≡ verify t)))
    × (optional_auth_user verify post ≡ to_option (auth_user verify post))
auth_user_exact_example = auth_user_exact verify post

guard_bot_request_exact_example :
    (Denied trees decoders post (codes "wiki")
      × (r : Response) × (guard_bot_request trees decoders post next (codes "wiki") ≡ refused r)
      × (r.status ≡ 403)
      × (r.body.code ≡ codes "AUTH_FORBIDDEN_MODULE"))
    ⊎ ((¬ Denied trees decoders post (codes "wiki"))
        × (guard_bot_request trees decoders post next (codes "wiki") ≡ passed (next post)))
guard_bot_request_exact_example = guard_bot_request_exact trees decoders post next (codes "wiki")

payload_read : decode_claims_unverified trees decoders token ≡ some bot
unfolding decode_claims_unverified payload_of split
payload_read = refl

consistent :
    (t : Text) (c : Claims Tree)
    → verify t ≡ ok c
    → decode_claims_unverified trees decoders t ≡ some c
consistent t c h = ground (arith, text_eq_iff t token, payload_read)

goes_through : guard_bot_request trees decoders post next (codes "event") ≡ passed 7
unfolding guard_bot_request guard_claims decode_claims_unverified raw_bearer_token allow_module
    is_write_method oa_libs.Auth.Access.and_strip oa_libs.Auth.Access.header_text
    oa_libs.Std.Text.strip_prefix payload_of split text_eq oa_libs.Deps.Samples.tree_get
    oa_libs.Deps.Samples.tree_bool
goes_through = refl

known : auth_user verify post ≡ ok bot
unfolding auth_user bearer_token raw_bearer_token oa_libs.Auth.Access.given
    oa_libs.Auth.Access.and_strip oa_libs.Auth.Access.header_text oa_libs.Std.Text.strip_prefix
    text_eq
known = refl

passed_bot_is_permitted_example :
    Grants trees bot.bot_permissions (codes "event") (is_write_method post.method)
unfolding is_bot text_eq
passed_bot_is_permitted_example =
    passed_bot_is_permitted trees decoders verify consistent post next (codes "event") 7 bot
      goes_through known refl
