-- ===== src/Common/Pagination/Tiling.antt =====
-- The pages that offsets cut out of a result set cover it without gap or overlap.
use Prim.Native.Nat.add
use native.Mathlib.Nat.{zero-add, zero-mul}
use oa_libs.Base.{
  ℕ, zero, suc, ◌+◌, ◌-◌, ◌*◌, ◌≡◌, refl, ap, some, Option, List, [], ◌∷◌, ◌++◌, take, drop, arith,
}
use oa_libs.Common.Pagination.{PageParams, page_number, page_size, offset}

-- The rows of `LIMIT page_size OFFSET offset`.
abbrev pub slice {ℓ} : {A : Type ℓ} → PageParams → List A → List A
slice p rows = take (page_size p) (drop (offset p) rows)

-- The parameters `?page=n&pageSize=…`.
abbrev pub page_at : Option ℕ → ℕ → PageParams
page_at size n = record { page = some n; page_size = size }

-- The rows of the pages 1 to n, one page behind the other.
pub first_pages {ℓ} : {A : Type ℓ} → Option ℕ → ℕ → List A → List A
first_pages size zero rows = []
first_pages size (suc n) rows = first_pages size n rows ++ slice (page_at size (suc n)) rows

take_nil {ℓ} : {A : Type ℓ} (n : ℕ) → take {A = A} n [] ≡ []
take_nil zero = refl
take_nil (suc n) = refl

take_more {ℓ} :
    {A : Type ℓ} (a b : ℕ) (rows : List A) → take a rows ++ take b (drop a rows) ≡ take (a + b) rows
take_more zero b rows = rw zero-add
take_more (suc a) b [] = rw (add.suc, take_nil)
take_more (suc a) b (r ∷ rows) = rw add.suc (ap (λ l. r ∷ l) (take_more a b rows))

page_size_at : (size : Option ℕ) (n : ℕ) → page_size (page_at size n) ≡ page_size (page_at size 1)
unfolding page_size
page_size_at size n = refl

page_number_at : (size : Option ℕ) (n : ℕ) → page_number (page_at size (suc n)) - 1 ≡ n
unfolding page_number
page_number_at size n = omega arith

offset_at :
    (size : Option ℕ) (n : ℕ) → offset (page_at size (suc n)) ≡ n * page_size (page_at size 1)
unfolding offset
offset_at size n = rw (page_number_at, page_size_at)

-- The pages 1 to n of one size, read one behind the other, are the first n * page_size rows: no row
-- is skipped and none is read twice.
pub first_pages-take {ℓ} :
    {A : Type ℓ} (size : Option ℕ) (n : ℕ) (rows : List A)
    → first_pages size n rows ≡ take (n * page_size (page_at size 1)) rows
unfolding first_pages
first_pages-take size zero rows = rw zero-mul
first_pages-take size (suc n) rows =
    let k = page_size (page_at size 1) in
    let step : suc n * k ≡ n * k + k = omega arith in
    rw (first_pages-take size n rows, offset_at, page_size_at size (suc n), step)
      (take_more (n * k) k rows)
