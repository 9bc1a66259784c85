-- ===== src/Std/Path.antt =====
-- `std::path` on Unix: joining a relative path and taking the parent directory.
use oa_libs.Base.{
  ◌≡◌, refl, ◌||◌, Option, none, some, List, [], ◌∷◌, ◌++◌, reverse, if◌then◌else◌, is_empty,
}
use oa_libs.Std.Text.{Text, codes, text_eq, starts_with, ends_with, split, join}

-- `Path::join`: an absolute path replaces the first one.
unfoldable pub join_path : Text → Text → Text
join_path root key =
    if starts_with b'/' key
    then key
    else if is_empty root || ends_with b'/' root
    then root ++ key
    else root ++ b'/' ∷ key

-- The parts of a path from its end, without the empty ones and the `.`s behind the first part.
trim_back : List Text → List Text
trim_back [] = []
trim_back (p ∷ []) = p ∷ []
trim_back (p ∷ q ∷ ps) =
    let rest = trim_back (q ∷ ps) in
    if is_empty p || text_eq p (codes ".") then rest else p ∷ q ∷ ps

-- The path that parts from the end spell; an empty first part is the root directory.
unwind : List Text → Text
unwind ([] ∷ []) = codes "/"
unwind ps = join b'/' (reverse ps)

drop_last : List Text → Option Text
unfolding unwind trim_back
drop_last [] = none
drop_last ([] ∷ []) = none
drop_last ((c ∷ p) ∷ []) = some []
drop_last (p ∷ q ∷ ps) = some (unwind (trim_back (q ∷ ps)))

-- `Path::parent`: `none` for the empty path and the root directory.
unfoldable pub parent : Text → Option Text
unfolding drop_last trim_back split text_eq join
parent p = drop_last (trim_back (reverse (split b'/' p)))

parent_tests :
    (parent (codes "/srv/data/a/b.txt") ≡ some (codes "/srv/data/a"))
    × (parent (codes "data/a//./") ≡ some (codes "data"))
    × (parent (codes "a.txt") ≡ some [])
    × (parent (codes "/a") ≡ some (codes "/"))
    × (parent (codes "/") ≡ none)
    × (parent [] ≡ none)
unfolding parent
parent_tests = (refl, refl, refl, refl, refl, refl)
