-- ===== src/Auth/ServiceToken/Window.antt =====
-- The time window, in the arithmetic of i64 under both build profiles.
use oa_libs.Base.{ℕ, ◌-◌, ◌^◌, ◌<◌, ◌≡◌, true, none, some, arith}
use oa_libs.Std.Int.{
  ℤ, pos, negsuc, ◌-ℤ◌, ◌≤ℤ◌, magnitude, fits, settle, Profile, debug, release, settle_of_fits,
}
use oa_libs.Auth.ServiceToken.{age, settled_magnitude}

-- The integer is one of i64.
abbrev pub IsI64 : ℤ → Type 0
IsI64 (pos n) = n < 2 ^ 63
IsI64 (negsuc n) = n < 2 ^ 63

-- The two times are less than 2 ^ 63 seconds apart.
abbrev pub IsNear : ℤ → ℤ → Type 0
IsNear now timestamp = magnitude (now -ℤ timestamp) ≤ℤ pos (2 ^ 63 - 1)

fits_of_small :
    (d : ℤ) → magnitude d ≤ℤ pos (2 ^ 63 - 1) → (fits 63 d ≡ true) × (fits 63 (magnitude d) ≡ true)
fits_of_small (pos n) h = ground arith
fits_of_small (negsuc n) h = ground arith

age_of_small :
    (p : Profile) (d : ℤ)
    → magnitude d ≤ℤ pos (2 ^ 63 - 1)
    → settled_magnitude p (settle p 63 d) ≡ some (magnitude d)
unfolding settled_magnitude
age_of_small p d h =
    let (fit, fit_abs) = fits_of_small d h in
    rw (settle_of_fits p 63 d fit) (settle_of_fits p 63 (magnitude d) fit_abs)

-- For such times the age is their distance, whatever the profile.
pub age_exact :
    (p : Profile) (now timestamp : ℤ)
    → IsNear now timestamp
    → age p now timestamp ≡ some (magnitude (now -ℤ timestamp))
unfolding age
age_exact p now timestamp h = age_of_small p (now -ℤ timestamp) h

far : (n : ℕ) → n < 2 ^ 63 → pos n -ℤ negsuc (2 ^ 63 - 1 - n) ≡ pos (2 ^ 63)
unfolding ◌-ℤ◌
far n h = ground arith

-- A timestamp 2 ^ 63 seconds before `now` has no age: a debug build panics, and a release build
-- computes the least i64.
pub age_overflow :
    (n : ℕ)
    → n < 2 ^ 63
    → (age debug (pos n) (negsuc (2 ^ 63 - 1 - n)) ≡ none)
      × (age release (pos n) (negsuc (2 ^ 63 - 1 - n)) ≡ some (negsuc (2 ^ 63 - 1)))
unfolding age settled_magnitude settle
age_overflow n h = (rw (far n h), rw (far n h))
