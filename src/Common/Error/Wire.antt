-- ===== src/Common/Error/Wire.antt =====
-- The problem body as JSON: the derived serde code of `ProblemDetails` and `FieldError` in
-- crates/common/src/error.rs, by the attributes of their fields.
use oa_libs.Base.{[], ◌∷◌, ◌++◌, map}
use oa_libs.Deps.{Json}
use oa_libs.Deps.Serde.{Serde, optional}
use oa_libs.Std.Int.{pos}
use oa_libs.Std.Text.{codes}
use oa_libs.Common.Error.{FieldError, ProblemDetails}

module _ {J : Json} (S : Serde J) where
  open J use {Value}
  open S use {from_str, from_int, from_list, from_members}

  -- The derived `Serialize` of `FieldError`.
  unfoldable pub field_to_value : FieldError → Value
  field_to_value f =
      from_members ((codes "field", from_str f.field) ∷ (codes "message", from_str f.message) ∷ [])

  -- The derived `Serialize` of `ProblemDetails`.
  unfoldable pub problem_to_value : ProblemDetails → Value
  unfolding field_to_value
  problem_to_value p = from_members (
      (codes "type", from_str p.type_uri)
      ∷ (codes "title", from_str p.title)
      ∷ (codes "status", from_int (pos p.status))
      ∷ (codes "detail", from_str p.detail)
      ∷ (optional (codes "instance") from_str p.instance_path
          ++ (codes "code", from_str p.code)
            ∷ optional (codes "errors") (λ fs. from_list (map field_to_value fs)) p.errors))
