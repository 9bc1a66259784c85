-- ===== src/Common/Pagination/Examples.antt =====
-- The theorems on pages at concrete parameters.
use oa_libs.Base.{List, ℕ, ◌≡◌, ◌≤◌, ◌<◌, ◌*◌, ◌^◌, refl, none, some, [], ◌∷◌, take, arith}
use oa_libs.Common.Pagination.{CursorParams, PageParams, page_size, page_number, offset, max_limit}
use oa_libs.Common.Pagination.Bounds.{offset_bounds}
use oa_libs.Common.Pagination.Tiling.{first_pages, page_at, first_pages-take}

abbrev cursor : CursorParams
cursor = record { cursor = none; limit = some 500 }

abbrev params : PageParams
params = record { page = some 3; page_size = some 0 }

third_page : offset params ≡ 2
unfolding offset page_number page_size
third_page = refl

offset_bounds_example :
    (1 ≤ page_number params)
    × (page_number params < 2 ^ 32)
    × (1 ≤ page_size params)
    × (page_size params ≤ max_limit)
    × (offset params < 2 ^ 63)
offset_bounds_example = offset_bounds params (omega arith)

abbrev rows : List ℕ
rows = 5 ∷ 6 ∷ 7 ∷ 8 ∷ 9 ∷ []

first_pages-take_example :
    first_pages (some 2) 2 rows ≡ take (2 * page_size (page_at (some 2) 1)) rows
first_pages-take_example = first_pages-take (some 2) 2 rows
