-- ===== src/Common/Pagination.antt =====
-- crates/common/src/pagination.rs: cursor and page parameters, and the pages of a response.
mod Bounds
pub mod Wire
mod Tiling
mod Examples
mod UnitTests
use oa_libs.Base.{ℕ, ◌-◌, ◌*◌, min, max, Option, none, some, List}
use oa_libs.Std.Int.{ℤ}
use oa_libs.Std.Text.{Text}

abbrev pub default_limit : ℕ
default_limit = 20

abbrev pub max_limit : ℕ
max_limit = 100

-- `Option::unwrap_or`.
abbrev pub unwrap_or {ℓ} : {A : Type ℓ} → A → Option A → A
unwrap_or a none = a
unwrap_or a (some b) = b

-- `u32::clamp`.
abbrev pub clamp : ℕ → ℕ → ℕ → ℕ
clamp lo hi n = min (max n lo) hi

-- struct CursorParams; the values of `limit` are those of `u32`.
pub record CursorParams : Type 0 where
  pub cursor : Option Text
  pub limit : Option ℕ

-- CursorParams::limit.
pub cursor_limit : CursorParams → ℕ
cursor_limit p = clamp 1 max_limit (unwrap_or default_limit p.limit)

-- struct CursorPage; a literal is what `CursorPage::new` builds.
pub record CursorPage {ℓ} (T : Type ℓ) : Type ℓ where
  pub items : List T
  pub next_cursor : Option Text

-- CursorPage::single.
unfoldable pub single {ℓ} : {T : Type ℓ} → List T → CursorPage T
single items = record { items = items; next_cursor = none }

-- struct PageParams.
pub record PageParams : Type 0 where
  pub page : Option ℕ
  pub page_size : Option ℕ

-- PageParams::page.
unfoldable pub page_number : PageParams → ℕ
page_number p = max (unwrap_or 1 p.page) 1

-- PageParams::page_size.
unfoldable pub page_size : PageParams → ℕ
page_size p = clamp 1 max_limit (unwrap_or default_limit p.page_size)

-- PageParams::offset, without a bound: `Bounds` shows that it never leaves `i64`.
unfoldable pub offset : PageParams → ℕ
unfolding page_number page_size
offset p = (page_number p - 1) * page_size p

-- struct Page.
pub record Page {ℓ} (T : Type ℓ) : Type ℓ where
  pub items : List T
  pub total : ℤ
  pub page : ℕ
  pub page_size : ℕ

-- Page::new.
unfoldable pub new_page {ℓ} : {T : Type ℓ} → List T → ℤ → PageParams → Page T
unfolding page_number page_size
new_page items total params = record {
  items = items;
  total = total;
  page = page_number params;
  page_size = page_size params;
}
