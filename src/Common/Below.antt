-- ===== src/Common/Below.antt =====
-- Tests of all numbers up to a bound, by running them.
use Prim.Native.Nat.{ℕ, zero, suc, ◌<◌}
use mathlib.Core.Path.{◌≡◌}
use mathlib.Core.Bool.{Bool, true, ◌&&◌}
use native.Mathlib.Omega.{arith}

-- The numbers are tried from 0 on.
unfoldable pub holds_below : (test : ℕ → Bool) → (bound : ℕ) → Bool
holds_below test zero = true
holds_below test (suc k) = holds_below test k && test k

pub holds_below_lem :
    (test : ℕ → Bool) (bound i : ℕ) → i < bound → holds_below test bound ≡ true → test i ≡ true
unfolding holds_below
holds_below_lem test zero i small run = absurd (omega arith)
holds_below_lem test (suc k) i small run = ground (arith, holds_below_lem test k i)
