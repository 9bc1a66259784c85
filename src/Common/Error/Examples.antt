-- ===== src/Common/Error/Examples.antt =====
-- The theorems on errors at concrete errors.
use oa_libs.Std.Text.{Text, codes}
use oa_libs.Base.{◌↔◌, List, ◌≡◌, ◌⊎◌, refl, [], ◌∷◌}
use oa_libs.Common.Error.{AppError, FieldError, not_found, internal, unprocessable, into_response}
use oa_libs.Common.Error.Problem.{IsInternal, into_response_exact}

abbrev missing : AppError
missing = not_found (codes "EVENT_NOT_FOUND") (codes "no such event")

abbrev errors : List FieldError
errors = record { field = codes "name"; message = codes "too long" } ∷ []

abbrev invalid : AppError
invalid = unprocessable (codes "INVALID") (codes "check the form") errors

missing_shown : (into_response missing).0.body.code ≡ codes "EVENT_NOT_FOUND"
unfolding into_response
missing_shown = refl

into_response_exact_example :
    (((into_response missing).0 ≡ (into_response invalid).0)
      ↔ ((missing ≡ invalid) ⊎ (IsInternal missing × IsInternal invalid)))
    × (((err : Text) × (missing ≡ internal err) × ((into_response missing).1 ≡ err ∷ []))
        ⊎ ((¬ IsInternal missing) × ((into_response missing).1 ≡ [])))
into_response_exact_example = into_response_exact missing invalid
