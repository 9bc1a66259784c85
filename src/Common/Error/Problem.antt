-- ===== src/Common/Error/Problem.antt =====
-- What a client learns from an error response, and what only the log learns.
use oa_libs.Base.{◌∙◌, inl, sym, ◌≡◌, ◌↔◌, ◌⊎◌, inr, refl, ap, some, List, [], ◌∷◌, arith}
use oa_libs.Std.Text.{Text}
use oa_libs.Common.Error.{
  Response, AppError, FieldError, unprocessable, internal, ProblemDetails, problem, into_response,
}

-- The error was made by `AppError::internal`.
abbrev pub IsInternal : AppError → Type 0
IsInternal e = (err : Text) × (e ≡ internal err)

problem-injective :
    (e f : AppError) → problem e ≡ problem f → (e ≡ f) ⊎ (IsInternal e × IsInternal f)
unfolding problem
problem-injective (internal a) (internal b) h = inr ((a, refl), (b, refl))
problem-injective e f h = ground (
  arith,
  ap (λ (p : ProblemDetails). p.status) h,
  ap (λ (p : ProblemDetails). p.code) h,
  ap (λ (p : ProblemDetails). p.detail) h,
  ap (λ (p : ProblemDetails). p.errors) h,
)

body-problem : (e : AppError) → (into_response e).0.body ≡ problem e
unfolding into_response
body-problem e = refl

-- Two internal errors get the same response.
same_internal :
    (e f : AppError) → IsInternal e → IsInternal f → (into_response e).0 ≡ (into_response f).0
unfolding into_response
same_internal e f (a, is_a) (b, is_b) = rw (is_a, is_b) refl

-- The log is told an internal error in its own words, and nothing of any other error.
logged_cases :
    (e : AppError)
    → ((err : Text) × (e ≡ internal err) × ((into_response e).1 ≡ err ∷ []))
      ⊎ ((¬ IsInternal e) × ((into_response e).1 ≡ []))
unfolding into_response
logged_cases (internal err) = inl (err, refl, refl)
logged_cases _ = inr ((λ found. let (err, same) = found in cc), refl)

-- The response tells a client everything except the details of an internal error: two errors get the
-- same response exactly if they are equal or both internal. The log gets just what is left out: the
-- details of an internal error, and nothing of any other.
pub into_response_exact :
    (e f : AppError)
    → (((into_response e).0 ≡ (into_response f).0) ↔ ((e ≡ f) ⊎ (IsInternal e × IsInternal f)))
      × (((err : Text) × (e ≡ internal err) × ((into_response e).1 ≡ err ∷ []))
          ⊎ ((¬ IsInternal e) × ((into_response e).1 ≡ [])))
into_response_exact e f = (
  (
    λ h.
        problem-injective e f
          (sym (body-problem e) ∙ ap (λ (r : Response). r.body) h ∙ body-problem f),
    λ c. elim c [
      | inl same ↦ ap (λ x. (into_response x).0) same
      | inr both ↦ same_internal e f both.0 both.1
    ],
  ),
  logged_cases e,
)

-- Field errors are in the body exactly if the error is a failed validation with those errors.
pub problem-errors_iff :
    (e : AppError) (fs : List FieldError)
    → ((problem e).errors ≡ some fs)
      ↔ ((code : Text) × (detail : Text) × (e ≡ unprocessable code detail fs))
unfolding problem
problem-errors_iff (unprocessable code detail errors) fs =
    (λ h. (code, detail, ground arith), λ found. let (c, d, same) = found in ground arith)
problem-errors_iff e fs = (λ h. absurd (cc), λ found. let (c, d, same) = found in absurd (cc))
