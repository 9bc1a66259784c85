-- ===== src/Storage/Key/Examples.antt =====
-- The theorems on keys at concrete keys.
use oa_libs.Base.{◌≡◌, ◌↔◌, ok, err, refl, All, ◌++◌, List}
use oa_libs.Std.Text.{Text, codes}
use oa_libs.Storage.Traits.{invalid_key}
use oa_libs.Storage.Key.{validate_key, resolve_within}
use oa_libs.Storage.Key.Grammar.{IsKey, validate_key_iff}
use oa_libs.Storage.Key.Confinement.{IsName, location, resolve_within-Below}

abbrev escape : Text
escape = codes "a/../b"

validate_key_iff_example :
    ((validate_key escape ≡ ok tt) ↔ IsKey escape)
    × ((validate_key escape ≡ err (invalid_key escape)) ↔ (¬ IsKey escape))
validate_key_iff_example = validate_key_iff escape

resolved :
    resolve_within (codes "/srv/data") (codes "img/./a.png") ≡ ok (codes "/srv/data/img/./a.png")
unfolding resolve_within validate_key oa_libs.Std.Text.len oa_libs.Storage.Key.is_key_char
    oa_libs.Std.Chars.is_ascii_alphanumeric oa_libs.Std.Text.split
    oa_libs.Storage.Key.is_bad_segment oa_libs.Std.Text.text_eq oa_libs.Std.Path.join_path
    oa_libs.Std.Text.ends_with
resolved = refl

resolve_within-Below_example :
    (names : List Text) × (location (codes "/srv/data/img/./a.png")
      ≡ names ++ location (codes "/srv/data"))
    × All IsName names
resolve_within-Below_example =
    resolve_within-Below (codes "/srv/data") (codes "img/./a.png") (codes "/srv/data/img/./a.png")
      resolved

plain_accepted : validate_key (codes "a/b") ≡ ok tt
unfolding validate_key oa_libs.Std.Text.len oa_libs.Storage.Key.is_key_char
    oa_libs.Std.Chars.is_ascii_alphanumeric oa_libs.Std.Text.split
    oa_libs.Storage.Key.is_bad_segment oa_libs.Std.Text.text_eq
plain_accepted = refl

pub plain-IsKey : IsKey (codes "a/b")
plain-IsKey = (validate_key_iff (codes "a/b")).0.0 plain_accepted
