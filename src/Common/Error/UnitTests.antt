-- ===== src/Common/Error/UnitTests.antt =====
-- The unit tests of crates/common/src/error.rs, on the model.
use oa_libs.Base.{ℕ, ◌≡◌, refl, false, Option, none, some, List, [], ◌∷◌, ◌++◌, length}
use oa_libs.Deps.Samples.{trees, tree_serde}
use oa_libs.Std.Int.{pos}
use oa_libs.Std.Text.{Text, codes, contains}
use oa_libs.Common.Error.{
  AppError, FieldError, bad_request, unauthorized, forbidden, not_found, conflict,
  too_many_requests, unprocessable, internal, status, error_code, problem,
}
use oa_libs.Common.Error.Wire.{problem_to_value}

-- assert_problem.
abbrev AssertProblem : AppError → ℕ → Text → Type 0
AssertProblem e wanted code =
    (status e ≡ wanted)
    × (error_code e ≡ code)
    × ((problem e).status ≡ wanted)
    × ((problem e).code ≡ code)
    × ((problem e).type_uri ≡ codes "https://club-oa.local/errors/" ++ code)

abbrev form_errors : List FieldError
form_errors =
    record { field = codes "email"; message = codes "格式错误" }
    ∷ record { field = codes "password"; message = codes "过短" }
    ∷ []

abbrev first_field : List FieldError → Option Text
first_field [] = none
first_field (f ∷ fs) = some f.field

-- maps_each_variant_to_status_and_code.
MapsEachVariantToStatusAndCode : Type 0
MapsEachVariantToStatusAndCode =
    (AssertProblem (bad_request (codes "A_BAD") (codes "x")) 400 (codes "A_BAD"))
    × (AssertProblem (unauthorized (codes "A_UNAUTH") (codes "x")) 401 (codes "A_UNAUTH"))
    × (AssertProblem (forbidden (codes "A_FORBIDDEN") (codes "x")) 403 (codes "A_FORBIDDEN"))
    × (AssertProblem (not_found (codes "A_NOT_FOUND") (codes "x")) 404 (codes "A_NOT_FOUND"))
    × (AssertProblem (conflict (codes "A_CONFLICT") (codes "x")) 409 (codes "A_CONFLICT"))
    × (AssertProblem (too_many_requests (codes "A_LIMIT") (codes "x")) 429 (codes "A_LIMIT"))
    × (AssertProblem (unprocessable (codes "A_VALIDATION") (codes "x") []) 422
        (codes "A_VALIDATION"))
    × (AssertProblem (internal (codes "db down")) 500 (codes "INTERNAL"))

MapsEachVariantToStatusAndCode_holds : MapsEachVariantToStatusAndCode
unfolding MapsEachVariantToStatusAndCode status error_code problem
MapsEachVariantToStatusAndCode_holds = (
  (refl, refl, refl, refl, refl),
  (refl, refl, refl, refl, refl),
  (refl, refl, refl, refl, refl),
  (refl, refl, refl, refl, refl),
  (refl, refl, refl, refl, refl),
  (refl, refl, refl, refl, refl),
  (refl, refl, refl, refl, refl),
  (refl, refl, refl, refl, refl),
)

-- internal_error_hides_details.
InternalErrorHidesDetails : Type 0
InternalErrorHidesDetails =
    ((problem (internal (codes "connection refused to 10.0.0.1"))).detail ≡ codes "服务器内部错误")
    × (contains (codes "10.0.0.1")
          (problem (internal (codes "connection refused to 10.0.0.1"))).detail
        ≡ false)

InternalErrorHidesDetails_holds : InternalErrorHidesDetails
unfolding InternalErrorHidesDetails problem contains oa_libs.Std.Text.strip_prefix
InternalErrorHidesDetails_holds = (refl, refl)

-- unprocessable_carries_field_errors.
UnprocessableCarriesFieldErrors : Type 0
UnprocessableCarriesFieldErrors =
    ((problem
        (unprocessable (codes "AUTH_VALIDATION") (codes "validation failed") form_errors)).errors
      ≡ some form_errors)
    × (length form_errors ≡ 2)
    × (first_field form_errors ≡ some (codes "email"))

UnprocessableCarriesFieldErrors_holds : UnprocessableCarriesFieldErrors
unfolding UnprocessableCarriesFieldErrors problem
UnprocessableCarriesFieldErrors_holds = (refl, refl, refl)

-- serializes_to_problem_details_json.
SerializesToProblemDetailsJson : Type 0
SerializesToProblemDetailsJson =
    (trees.get
        (problem_to_value tree_serde
          (problem (not_found (codes "AUTH_USER_NOT_FOUND") (codes "用户不存在"))))
        (codes "type")
      ≡ some (tree_serde.from_str (codes "https://club-oa.local/errors/AUTH_USER_NOT_FOUND")))
    × (trees.get
          (problem_to_value tree_serde
            (problem (not_found (codes "AUTH_USER_NOT_FOUND") (codes "用户不存在"))))
          (codes "status")
        ≡ some (tree_serde.from_int (pos 404)))
    × (trees.get
          (problem_to_value tree_serde
            (problem (not_found (codes "AUTH_USER_NOT_FOUND") (codes "用户不存在"))))
          (codes "code")
        ≡ some (tree_serde.from_str (codes "AUTH_USER_NOT_FOUND")))
    × (trees.get
          (problem_to_value tree_serde
            (problem (not_found (codes "AUTH_USER_NOT_FOUND") (codes "用户不存在"))))
          (codes "detail")
        ≡ some (tree_serde.from_str (codes "用户不存在")))
    × (trees.get
          (problem_to_value tree_serde
            (problem (not_found (codes "AUTH_USER_NOT_FOUND") (codes "用户不存在"))))
          (codes "errors")
        ≡ none)

SerializesToProblemDetailsJson_holds : SerializesToProblemDetailsJson
unfolding SerializesToProblemDetailsJson oa_libs.Deps.Samples.tree_get problem_to_value
    oa_libs.Deps.Samples.of_members problem
SerializesToProblemDetailsJson_holds = (refl, refl, refl, refl, refl)
