-- ===== src/Bus/Outbox/UnitTests.antt =====
-- The unit test of crates/bus/src/outbox.rs, on the model.
use oa_libs.Base.{◌≡◌, refl, some}
use oa_libs.Std.Int.{pos, debug}
use oa_libs.Bus.Outbox.{backoff_seconds}

-- backoff_grows_exponentially_and_caps.
BackoffGrowsExponentiallyAndCaps : Type 0
BackoffGrowsExponentiallyAndCaps =
    (backoff_seconds debug (pos 1) ≡ some 5)
    × (backoff_seconds debug (pos 2) ≡ some 10)
    × (backoff_seconds debug (pos 3) ≡ some 20)
    × (backoff_seconds debug (pos 0) ≡ some 5)
    × (backoff_seconds debug (pos 8) ≡ some 600)
    × (backoff_seconds debug (pos 99) ≡ some 600)

BackoffGrowsExponentiallyAndCaps_holds : BackoffGrowsExponentiallyAndCaps
unfolding BackoffGrowsExponentiallyAndCaps backoff_seconds oa_libs.Std.Int.settle
    oa_libs.Std.Int.◌-ℤ◌
BackoffGrowsExponentiallyAndCaps_holds = (refl, refl, refl, refl, refl, refl)
