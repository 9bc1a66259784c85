-- ===== src/Bus/Samples.antt =====
-- Concrete replies of Redis, and a server that keeps the entries of its streams in a list.
use oa_libs.Base.{◌≡◌, refl, ap, none, some, List, [], ◌∷◌}
use oa_libs.Deps.{Json}
use oa_libs.Std.Text.{Text}
use oa_libs.Std.Utf8.{Bytes}
use oa_libs.Std.Utf8.Decode.{decode_utf8, decode_utf8-as_bytes}
use oa_libs.Bus.Message.{View, array, bulk_string, other_reply, Wire}
use oa_libs.Bus.Message.RoundTrip.{WireLaws}

mutual
  pub data Reply : Type 0 where
    bulk : Bytes → Reply
    items : Replies → Reply
    nil_reply : Reply

  pub data Replies : Type 0 where
    no_more : Replies
    more : Reply → Replies → Replies

unfoldable pub to_list : Replies → List Reply
to_list no_more = []
to_list (more r rs) = r ∷ to_list rs

unfoldable pub from_list : List Reply → Replies
from_list [] = no_more
from_list (r ∷ rs) = more r (from_list rs)

pub to_list-from_list : (rs : List Reply) → to_list (from_list rs) ≡ rs
unfolding to_list from_list
to_list-from_list [] = refl
to_list-from_list (r ∷ rs) = ap (λ l. r ∷ l) (to_list-from_list rs)

unfoldable pub view_reply : Reply → View Reply
unfolding to_list
view_reply (bulk b) = bulk_string b
view_reply (items rs) = array (to_list rs)
view_reply nil_reply = other_reply

pub view-items : (rs : List Reply) → view_reply (items (from_list rs)) ≡ array rs
unfolding view_reply
view-items rs = ap array (to_list-from_list rs)

pub view-bulk : (b : Bytes) → view_reply (bulk b) ≡ bulk_string b
unfolding view_reply
view-bulk b = refl

-- JSON values that are all strings, written as they are.
abbrev pub strings : Json
strings = record { Value = Text; get = λ v key. none; as_bool = λ v. none; as_str = λ v. some v }

abbrev pub wire : Wire Text
wire = record {
  Reply = Reply;
  view = view_reply;
  value_from_slice = λ b. some b;
  from_utf8_lossy = decode_utf8;
}

abbrev pub wire_laws : WireLaws strings wire
wire_laws = record {
  array_of = λ rs. items (from_list rs);
  bulk_of = bulk;
  view-array_of = view-items;
  view-bulk_of = view-bulk;
  to_vec = λ v. v;
  value_from_slice-to_vec = λ v. refl;
  from_utf8_lossy-as_bytes = decode_utf8-as_bytes;
}
