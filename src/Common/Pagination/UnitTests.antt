-- ===== src/Common/Pagination/UnitTests.antt =====
-- The unit tests of crates/common/src/pagination.rs, on the model.
use oa_libs.Base.{ℕ, ◌≡◌, refl, Option, none, some, [], ◌∷◌}
use oa_libs.Deps.Samples.{trees, tree_serde}
use oa_libs.Std.Int.{ℤ, pos}
use oa_libs.Std.Text.{Text, codes}
use oa_libs.Common.Pagination.{
  CursorParams, PageParams, CursorPage, Page, default_limit, max_limit, cursor_limit, page_number,
  page_size, offset, new_page,
}
use oa_libs.Common.Pagination.Wire.{cursor_page_to_value, page_to_value}

abbrev limited : Option ℕ → CursorParams
limited n = record { cursor = none; limit = n }

abbrev params : ℕ → ℕ → PageParams
params n size = record { page = some n; page_size = some size }

abbrev numbers : CursorPage ℤ
numbers = record { items = pos 1 ∷ pos 2 ∷ pos 3 ∷ []; next_cursor = some (codes "next") }

abbrev letters : Page Text
letters = new_page (codes "a" ∷ []) (pos 11) (params 2 10)

-- cursor_limit_has_default_and_bounds.
CursorLimitHasDefaultAndBounds : Type 0
CursorLimitHasDefaultAndBounds =
    (cursor_limit (limited none) ≡ default_limit)
    × (cursor_limit (limited (some 500)) ≡ max_limit)
    × (cursor_limit (limited (some 0)) ≡ 1)
    × (cursor_limit (limited (some 50)) ≡ 50)

CursorLimitHasDefaultAndBounds_holds : CursorLimitHasDefaultAndBounds
unfolding CursorLimitHasDefaultAndBounds cursor_limit
CursorLimitHasDefaultAndBounds_holds = (refl, refl, refl, refl)

-- cursor_page_serializes_camel_case.
CursorPageSerializesCamelCase : Type 0
CursorPageSerializesCamelCase =
    (trees.get (cursor_page_to_value tree_serde tree_serde.from_int numbers) (codes "items")
      ≡ some (
          tree_serde.from_list (
            tree_serde.from_int (pos 1)
            ∷ tree_serde.from_int (pos 2)
            ∷ tree_serde.from_int (pos 3)
            ∷ [])))
    × (trees.get (cursor_page_to_value tree_serde tree_serde.from_int numbers) (codes "nextCursor")
        ≡ some (tree_serde.from_str (codes "next")))

CursorPageSerializesCamelCase_holds : CursorPageSerializesCamelCase
unfolding CursorPageSerializesCamelCase oa_libs.Deps.Samples.tree_get cursor_page_to_value
    oa_libs.Deps.Samples.of_members oa_libs.Deps.Serde.or_null
CursorPageSerializesCamelCase_holds = (refl, refl)

-- page_params_offsets.
PageParamsOffsets : Type 0
PageParamsOffsets =
    (offset (params 1 20) ≡ 0)
    × (offset (params 3 15) ≡ 30)
    × (page_number (params 0 0) ≡ 1)
    × (page_size (params 0 0) ≡ 1)
    × (offset (params 0 0) ≡ 0)

PageParamsOffsets_holds : PageParamsOffsets
unfolding PageParamsOffsets offset
PageParamsOffsets_holds = (refl, refl, refl, refl, refl)

-- page_response_serializes_camel_case.
PageResponseSerializesCamelCase : Type 0
PageResponseSerializesCamelCase =
    (trees.get (page_to_value tree_serde tree_serde.from_str letters) (codes "total")
      ≡ some (tree_serde.from_int (pos 11)))
    × (trees.get (page_to_value tree_serde tree_serde.from_str letters) (codes "page")
        ≡ some (tree_serde.from_int (pos 2)))
    × (trees.get (page_to_value tree_serde tree_serde.from_str letters) (codes "pageSize")
        ≡ some (tree_serde.from_int (pos 10)))

PageResponseSerializesCamelCase_holds : PageResponseSerializesCamelCase
unfolding PageResponseSerializesCamelCase oa_libs.Deps.Samples.tree_get page_to_value
    oa_libs.Deps.Samples.of_members new_page
PageResponseSerializesCamelCase_holds = (refl, refl, refl)
