-- ===== src/Common/Pagination/Wire.antt =====
-- Pages as JSON: the derived serde code of `CursorPage` and `Page` in crates/common/src/pagination.rs,
-- in camel case.
use oa_libs.Base.{[], ◌∷◌, map}
use oa_libs.Deps.{Json}
use oa_libs.Deps.Serde.{Serde, or_null}
use oa_libs.Std.Int.{pos}
use oa_libs.Std.Text.{codes}
use oa_libs.Common.Pagination.{CursorPage, Page}

module _ {J : Json} (S : Serde J) {T : Type 0} (write : T → J.Value) where
  open J use {Value}
  open S use {from_str, from_int, from_list, from_null, from_members}

  -- The derived `Serialize` of `CursorPage`.
  unfoldable pub cursor_page_to_value : CursorPage T → Value
  cursor_page_to_value p = from_members (
      (codes "items", from_list (map write p.items))
      ∷ (codes "nextCursor", or_null from_null from_str p.next_cursor)
      ∷ [])

  -- The derived `Serialize` of `Page`.
  unfoldable pub page_to_value : Page T → Value
  page_to_value p = from_members (
      (codes "items", from_list (map write p.items))
      ∷ (codes "total", from_int p.total)
      ∷ (codes "page", from_int (pos p.page))
      ∷ (codes "pageSize", from_int (pos p.page_size))
      ∷ [])
