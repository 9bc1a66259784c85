-- ===== src/Storage/Samples.antt =====
-- A concrete store for both backends: what is held under each name.
use oa_libs.Base.{
  false, ◌≡◌, ◌≢◌, refl, Bool, true, Option, none, some, [], if◌then◌else◌, Result, ok, err, arith,
}
use oa_libs.Std.Text.{Text, text_eq}
use oa_libs.Std.Text.Laws.{text_eq_iff, text_eq_refl}
use oa_libs.Std.Utf8.{Bytes}

abbrev pub Slots : Type 0
Slots = Text → Option Bytes

unfoldable pub set : Text → Option Bytes → Slots → Slots
set p o s q = if text_eq p q then o else s q

pub set_here : (p : Text) (o : Option Bytes) (s : Slots) → set p o s p ≡ o
unfolding set
set_here p o s = rw (text_eq_refl p) refl

pub set_apart : (p q : Text) (o : Option Bytes) (s : Slots) → p ≢ q → set p o s q ≡ s q
unfolding set
set_apart p q o s n = ground (arith, text_eq_iff p q)

-- What an option holds, for a read: the error where it holds nothing.
abbrev pub or_missing : {E : Type 0} → E → Option Bytes → Result Bytes E
or_missing e none = err e
or_missing e (some bytes) = ok bytes

abbrev pub bytes_or_none : Option Bytes → Bytes
bytes_or_none none = []
bytes_or_none (some bytes) = bytes

pub or_missing-ok :
    {E : Type 0} (e : E) (o : Option Bytes) {bytes : Bytes}
    → or_missing e o ≡ ok bytes
    → o ≡ some bytes
or_missing-ok e none h = absurd (cc)
or_missing-ok e (some b) h = ground arith

pub or_missing-err :
    {E : Type 0} (e : E) (o : Option Bytes) {f : E} → or_missing e o ≡ err f → o ≡ none
or_missing-err e none h = refl
or_missing-err e (some b) h = absurd (cc)

abbrev pub present : Option Bytes → Bool
present none = false
present (some b) = true
