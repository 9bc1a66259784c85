-- ===== src/Common/Pagination/Bounds.antt =====
-- The ranges of the normalised parameters, and the absence of overflow.
use oa_libs.Base.{
  ℕ, ◌*◌, ◌-◌, ◌^◌, ◌≤◌, ◌<◌, ◌≡◌, ◌⊎◌, Option, none, some, Option-cases, inl, inr, subst, arith,
}
use oa_libs.Common.Pagination.{
  default_limit, max_limit, unwrap_or, clamp, CursorParams, cursor_limit, PageParams, page_number,
  page_size, offset,
}

-- The value, where it is given, is one of `u32`.
abbrev pub IsU32 : Option ℕ → Type 0
IsU32 none = Unit
IsU32 (some n) = n < 2 ^ 32

-- What a requested size becomes: a missing one the default, one in range itself, any other the
-- nearer end of the range.
abbrev pub Normalised : Option ℕ → ℕ → Type 0
Normalised none r = r ≡ default_limit
Normalised (some n) r =
    ((n < 1) × (r ≡ 1))
    ⊎ ((1 ≤ n) × (n ≤ max_limit) × (r ≡ n))
    ⊎ ((max_limit < n) × (r ≡ max_limit))

clamp-Normalised : (o : Option ℕ) → Normalised o (clamp 1 max_limit (unwrap_or default_limit o))
clamp-Normalised none = omega arith
clamp-Normalised (some n) = grind arith

-- Both the cursor limit and the page size are the requested size, normalised: the default where
-- none is given, the size itself from 1 to the maximum, and otherwise the nearer end of that range.
pub limits-Normalised :
    (p : CursorParams) (q : PageParams)
    → Normalised p.limit (cursor_limit p) × Normalised q.page_size (page_size q)
unfolding cursor_limit page_size
limits-Normalised p q = (clamp-Normalised p.limit, clamp-Normalised q.page_size)

page_number_bounds :
    (p : PageParams) → IsU32 p.page → (1 ≤ page_number p) × (page_number p < 2 ^ 32)
unfolding page_number
page_number_bounds p h = elim (Option-cases p.page) [
  | inl e ↦ rw e (omega arith)
  | inr (n, e) ↦ rw e (let k : n < 2 ^ 32 = subst IsU32 e h in omega arith)
]

page_size_bounds : (p : PageParams) → (1 ≤ page_size p) × (page_size p ≤ max_limit)
unfolding page_size
page_size_bounds p = omega arith

offset_lt : (p : PageParams) → page_number p < 2 ^ 32 → page_size p ≤ max_limit → offset p < 2 ^ 63
unfolding offset
offset_lt p h k =
    let bound : (page_number p - 1) * page_size p ≤ 2 ^ 32 * 100 = grind arith in omega arith

-- With a page number of `u32`, the normalised page number is at least 1 and a `u32`, so the
-- subtraction does not underflow, the page size is from 1 to the maximum, and the offset is an `i64`.
pub offset_bounds :
    (p : PageParams)
    → IsU32 p.page
    → (1 ≤ page_number p)
      × (page_number p < 2 ^ 32)
      × (1 ≤ page_size p)
      × (page_size p ≤ max_limit)
      × (offset p < 2 ^ 63)
offset_bounds p h =
    let (one, word) = page_number_bounds p h in
    let (small, large) = page_size_bounds p in (one, word, small, large, offset_lt p word large)
