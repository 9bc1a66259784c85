-- ===== src/Deps/Samples.antt =====
-- Concrete third-party parameters: small programs with the laws of the real ones, to run the models on.
use oa_libs.Std.Utf8.{Bytes}
use oa_libs.Base.{
  ◌==◌, ℕ, ◌%◌, Bool, true, Option, none, some, [], ◌∷◌, ◌++◌, ◌≡◌, ◌<◌, refl, length,
  if◌then◌else◌, arith, List, false,
}
use oa_libs.Deps.{Json, Crypto, Chrono}
use oa_libs.Deps.Serde.{Serde, lookup, then_read}
use oa_libs.Std.Int.{ℤ, pos, negsuc, ◌+ℤ◌, ◌<ℤ◌, ltb_ℤ}
use oa_libs.Std.Text.{Text, text_eq}
use oa_libs.Std.Text.Laws.{text_eq_iff}

-- JSON values as far as the crates look at them; an object is a chain of its members, an array one of
-- its items.
pub data Tree : Type 0 where
  flag : Bool → Tree
  str : Text → Tree
  empty_object : Tree
  member_of : Text → Tree → Tree → Tree
  int : ℤ → Tree
  null : Tree
  empty_array : Tree
  item_of : Tree → Tree → Tree

unfoldable pub tree_get : Tree → Text → Option Tree
unfolding text_eq
tree_get (member_of k v rest) key =
    let found = tree_get rest key in if text_eq k key then some v else found
tree_get _ key = none

unfoldable pub tree_bool : Tree → Option Bool
tree_bool (flag b) = some b
tree_bool _ = none

unfoldable pub tree_str : Tree → Option Text
tree_str (str s) = some s
tree_str _ = none

abbrev pub trees : Json
trees = record { Value = Tree; get = tree_get; as_bool = tree_bool; as_str = tree_str }

unfoldable pub tree_int : Tree → Option ℤ
tree_int (int n) = some n
tree_int _ = none

unfoldable pub tree_items : Tree → Option (List Tree)
tree_items empty_array = some []
tree_items (item_of v rest) = then_read (tree_items rest) (λ vs. some (v ∷ vs))
tree_items _ = none

unfoldable pub tree_null : Tree → Bool
tree_null null = true
tree_null _ = false

unfoldable pub of_items : List Tree → Tree
of_items [] = empty_array
of_items (v ∷ vs) = item_of v (of_items vs)

unfoldable pub of_members : List (Text × Tree) → Tree
of_members [] = empty_object
of_members ((k, v) ∷ members) = member_of k v (of_members members)

pub tree_items-of_items : (vs : List Tree) → tree_items (of_items vs) ≡ some vs
unfolding tree_items of_items then_read
tree_items-of_items [] = refl
tree_items-of_items (v ∷ vs) = rw (tree_items-of_items vs) refl

pub tree_get-of_members :
    (members : List (Text × Tree)) (key : Text)
    → tree_get (of_members members) key ≡ lookup key members
unfolding tree_get of_members lookup
tree_get-of_members [] key = refl
tree_get-of_members ((k, v) ∷ members) key = rw (tree_get-of_members members key) refl

pub tree_str-str : (s : Text) → tree_str (str s) ≡ some s
unfolding tree_str
tree_str-str s = refl

pub tree_bool-flag : (b : Bool) → tree_bool (flag b) ≡ some b
unfolding tree_bool
tree_bool-flag b = refl

pub tree_int-int : (n : ℤ) → tree_int (int n) ≡ some n
unfolding tree_int
tree_int-int n = refl

pub tree_null-str : (s : Text) → tree_null (str s) ≡ false
unfolding tree_null
tree_null-str s = refl

pub tree_null-null : tree_null null ≡ true
unfolding tree_null
tree_null-null = refl

abbrev pub tree_serde : Serde trees
tree_serde = record {
  from_str = str;
  from_bool = flag;
  from_int = int;
  from_list = of_items;
  from_members = of_members;
  from_null = null;
  as_int = tree_int;
  as_list = tree_items;
  is_null = tree_null;
  as_str-from_str = tree_str-str;
  as_bool-from_bool = tree_bool-flag;
  as_int-from_int = tree_int-int;
  as_list-from_list = tree_items-of_items;
  get-from_members = tree_get-of_members;
  is_null-from_null = tree_null-null;
  is_null-from_str = tree_null-str;
}

-- A digest that is the length of the bytes, and a tag that is the key followed by the message.
abbrev pub toy_crypto : Crypto
toy_crypto = record {
  sha256 = λ b. length b % 256 ∷ [];
  hmac_sha256 = λ secret message. secret ++ message;
  verify_slice = text_eq;
  encode = λ b. b;
  decode = λ s. some s;
  verify_slice_iff = text_eq_iff;
  decode-encode = λ b. refl;
}

abbrev pub unmark : Text → Option Bytes
unmark [] = none
unmark (c ∷ b) = if c == b's' then some b else none

pub unmark-mark : (b : Bytes) → unmark (b's' ∷ b) ≡ some b
unmark-mark b = refl

-- The same, where the text of bytes begins with a mark, so that not every text is one.
abbrev pub marked_crypto : Crypto
marked_crypto = record {
  sha256 = toy_crypto.sha256;
  hmac_sha256 = toy_crypto.hmac_sha256;
  verify_slice = text_eq;
  encode = λ b. b's' ∷ b;
  decode = unmark;
  verify_slice_iff = text_eq_iff;
  decode-encode = unmark-mark;
}

pub later : (t : ℤ) (n : ℕ) → 0 < n → ltb_ℤ t (t +ℤ pos n) ≡ true
unfolding ◌+ℤ◌
later (pos k) n h = ground arith
later (negsuc k) n h = ground arith

pub earlier : (t u : ℤ) → t <ℤ u → ltb_ℤ t u ≡ true
earlier t u h = ground arith

-- Instants that are whole seconds.
abbrev pub seconds : Chrono
seconds = record {
  DateTime = ℤ;
  before = ltb_ℤ;
  timestamp = λ t. t;
  add_seconds = λ t n. t +ℤ pos n;
  add_seconds-later = later;
  before-timestamp = earlier;
}
