-- ===== src/Auth/Jwt/Samples.antt =====
-- A token format that can be run: the trees of the header and of the payload as instructions for a
-- stack, and a signature that is the key with both. The time of every call is 1500.
pub mod Tokens
pub mod Laws
use oa_libs.Base.{
  ℕ, ◌+◌, ◌*◌, ◌/◌, ◌%◌, ◌<◌, ◌==◌, ◌≡◌, refl, true, false, Option, none, some, List, [], ◌∷◌, ◌++◌,
  append_assoc, if◌then◌else◌, arith,
}
use oa_libs.Deps.Samples.{Tree, flag, str, empty_object, member_of, int, null, empty_array, item_of}
use oa_libs.Deps.Serde.{then_read}
use oa_libs.Std.Int.{pos, negsuc}
use oa_libs.Std.Text.{Text}

-- An instruction and its argument as one code point, which is never a full stop.
abbrev pub code : ℕ → ℕ → ℕ
code op x = x * 16 + op

unfoldable pub show_text : Text → Text
show_text [] = code 1 0 ∷ []
show_text (c ∷ s) = show_text s ++ code 2 c ∷ []

unfoldable pub show : Tree → Text
unfolding show_text
show (flag true) = code 0 1 ∷ []
show (flag false) = code 0 0 ∷ []
show (str s) = show_text s
show empty_object = code 3 0 ∷ []
show (member_of k v rest) = show_text k ++ (show v ++ (show rest ++ code 4 0 ∷ []))
show (int (pos n)) = code 5 n ∷ []
show (int (negsuc n)) = code 6 n ∷ []
show null = code 7 0 ∷ []
show empty_array = code 8 0 ∷ []
show (item_of v rest) = show v ++ (show rest ++ code 9 0 ∷ [])

abbrev put_char : ℕ → List Tree → Option (List Tree)
put_char c (str s ∷ stack) = some (str (c ∷ s) ∷ stack)
put_char c _ = none

abbrev put_member : List Tree → Option (List Tree)
put_member (rest ∷ v ∷ str k ∷ stack) = some (member_of k v rest ∷ stack)
put_member _ = none

abbrev put_item : List Tree → Option (List Tree)
put_item (rest ∷ v ∷ stack) = some (item_of v rest ∷ stack)
put_item _ = none

-- One instruction on the stack.
unfoldable pub put : ℕ → ℕ → List Tree → Option (List Tree)
put op x stack =
    if op == 0
    then some (flag (x == 1) ∷ stack)
    else if op == 1
    then some (str [] ∷ stack)
    else if op == 2
    then put_char x stack
    else if op == 3
    then some (empty_object ∷ stack)
    else if op == 4
    then put_member stack
    else if op == 5
    then some (int (pos x) ∷ stack)
    else if op == 6
    then some (int (negsuc x) ∷ stack)
    else if op == 7
    then some (null ∷ stack)
    else if op == 8
    then some (empty_array ∷ stack)
    else if op == 9
    then put_item stack
    else none

-- The instructions up to a full stop, and what follows it.
unfoldable pub read_part : Text → List Tree → Option (List Tree × Text)
unfolding put then_read
read_part [] stack = none
read_part (c ∷ more) stack =
    let rest = λ (s : List Tree). read_part more s in
    if c == b'.' then some (stack, more) else then_read (put (c % 16) (c / 16) stack) rest

at_code :
    (op x : ℕ) (more : Text) (stack : List Tree)
    → op < 14
    → read_part (code op x ∷ more) stack ≡ then_read (put op x stack) (λ s. read_part more s)
unfolding read_part
at_code op x more stack small =
    let other : (code op x == b'.') ≡ false = ground arith in
    let first : code op x % 16 ≡ op = omega arith in
    let second : code op x / 16 ≡ x = omega arith in rw (other, first, second) refl

read_part-show_text :
    (s more : Text) (stack : List Tree)
    → read_part (show_text s ++ more) stack ≡ read_part more (str s ∷ stack)
unfolding show_text put then_read
read_part-show_text [] more stack = at_code 1 0 more stack (omega arith)
read_part-show_text (c ∷ s) more stack =
    rw
      (
        append_assoc (show_text s) (code 2 c ∷ []) more,
        read_part-show_text s (code 2 c ∷ more) stack,
      )
      (at_code 2 c more (str s ∷ stack) (omega arith))

pub read_part-show :
    (t : Tree) (more : Text) (stack : List Tree)
    → read_part (show t ++ more) stack ≡ read_part more (t ∷ stack)
unfolding show put then_read
read_part-show (flag true) more stack = at_code 0 1 more stack (omega arith)
read_part-show (flag false) more stack = at_code 0 0 more stack (omega arith)
read_part-show (str s) more stack = read_part-show_text s more stack
read_part-show empty_object more stack = at_code 3 0 more stack (omega arith)
read_part-show (member_of k v rest) more stack =
    rw
      (
        append_assoc (show_text k) (show v ++ (show rest ++ code 4 0 ∷ [])) more,
        read_part-show_text k ((show v ++ (show rest ++ code 4 0 ∷ [])) ++ more) stack,
        append_assoc (show v) (show rest ++ code 4 0 ∷ []) more,
        read_part-show v ((show rest ++ code 4 0 ∷ []) ++ more) (str k ∷ stack),
        append_assoc (show rest) (code 4 0 ∷ []) more,
        read_part-show rest (code 4 0 ∷ more) (v ∷ str k ∷ stack),
      )
      (at_code 4 0 more (rest ∷ v ∷ str k ∷ stack) (omega arith))
read_part-show (int (pos n)) more stack = at_code 5 n more stack (omega arith)
read_part-show (int (negsuc n)) more stack = at_code 6 n more stack (omega arith)
read_part-show null more stack = at_code 7 0 more stack (omega arith)
read_part-show empty_array more stack = at_code 8 0 more stack (omega arith)
read_part-show (item_of v rest) more stack =
    rw
      (
        append_assoc (show v) (show rest ++ code 9 0 ∷ []) more,
        read_part-show v ((show rest ++ code 9 0 ∷ []) ++ more) stack,
        append_assoc (show rest) (code 9 0 ∷ []) more,
        read_part-show rest (code 9 0 ∷ more) (v ∷ stack),
      )
      (at_code 9 0 more (rest ∷ v ∷ stack) (omega arith))
