-- ===== src/Bus/Outbox/Backoff.antt =====
-- The waiting times between two attempts to deliver an event.
use native.Mathlib.Nat.{pow-succ'}
use oa_libs.Base.{
  ap, inl, ◌⊎◌, inr, sym, ◌∙◌, zero, ℕ, suc, ◌+◌, ◌*◌, ◌-◌, ◌^◌, ◌≤◌, ◌<◌, ◌≡◌, min, some, refl,
  arith,
}
use oa_libs.Std.Int.{pos, negsuc, ◌-ℤ◌, Profile, debug, release, settle, settle_of_fits}
use oa_libs.Bus.Outbox.{backoff_seconds, clamp_exponent, capped}

-- The waiting time as documented: 5s * 2^(attempts - 1), and never more than 600 s.
pub documented : ℕ → ℕ
documented attempts = min (5 * 2 ^ (attempts - 1)) 600

-- The first attempt is followed by the shortest waiting time.
pub documented_first : documented 1 ≡ 5
unfolding documented
documented_first = refl

power_late : (k : ℕ) → 128 ≤ 2 ^ (k + 7)
power_late zero = ground arith
power_late (suc k) =
    let h = power_late k in
    let step : 2 ^ suc (k + 7) ≡ 2 * 2 ^ (k + 7) = pow-succ' 2 (k + 7) in
    let shift : suc k + 7 ≡ suc (k + 7) = omega arith in rw shift (ground (arith, step, h))

capped_late : (k : ℕ) → capped (k + 7) ≡ 600
capped_late k = let h = power_late k in ground arith

le_cases : (n m : ℕ) → (n ≤ m) ⊎ (m ≤ n)
le_cases n m = omega arith

capped-min : (n : ℕ) → capped (min n 7) ≡ capped n
capped-min n = elim (le_cases n 7) [
  | inl small ↦ let same : min n 7 ≡ n = ground arith in ap capped same
  | inr large ↦
      let seven : min n 7 ≡ 7 = ground arith in
      let split : n ≡ n - 7 + 7 = ground arith in
      ap capped seven ∙ sym (ap capped split ∙ capped_late (n - 7))
]

below_pos : (n : ℕ) → pos (suc n) -ℤ pos 1 ≡ pos n
unfolding ◌-ℤ◌
below_pos n = ground arith

below_negsuc : (n : ℕ) → negsuc n -ℤ pos 1 ≡ negsuc (suc n)
unfolding ◌-ℤ◌
below_negsuc n = ground arith

of_pos : (p : Profile) (n : ℕ) → n < 2 ^ 31 - 1 → settle p 31 (pos (suc n) -ℤ pos 1) ≡ some (pos n)
of_pos p n h = rw (below_pos n) (settle_of_fits p 31 (pos n) (ground arith))

of_negsuc :
    (p : Profile) (n : ℕ) → n < 2 ^ 31 - 1 → settle p 31 (negsuc n -ℤ pos 1) ≡ some (negsuc (suc n))
of_negsuc p n h = rw (below_negsuc n) (settle_of_fits p 31 (negsuc (suc n)) (ground arith))

documented-suc : (n : ℕ) → some (capped (min n 7)) ≡ some (documented (suc n))
unfolding documented
documented-suc n = let pred : n ≡ suc n - 1 = omega arith in ap some (capped-min n ∙ ap capped pred)

first : (p : Profile) → backoff_seconds p (pos 0) ≡ some 5
unfolding backoff_seconds clamp_exponent settle ◌-ℤ◌
first debug = refl
first release = refl

-- In both builds, for every number of attempts from 1 to the greatest `i32`, the waiting time is 5
-- seconds, doubled with every attempt after the first, and at most 600 seconds; for 0 and for a
-- negative number that can still be decreased it is 5 seconds.
pub backoff_seconds_exact :
    (p : Profile) (n : ℕ)
    → n < 2 ^ 31 - 1
    → (backoff_seconds p (pos (suc n)) ≡ some (documented (suc n)))
      × (backoff_seconds p (pos 0) ≡ some 5)
      × (backoff_seconds p (negsuc n) ≡ some 5)
unfolding backoff_seconds clamp_exponent documented
backoff_seconds_exact p n h = (
  rw (of_pos p n h, backoff_seconds) (documented-suc n),
  first p,
  rw (of_negsuc p n h, backoff_seconds) refl,
)
