-- ===== src/Util/Clamp.antt =====
-- The two functions `constraint` of chicken/utils/util.cpp.
use cooboc.Base.{◌≡◌, false, arith}
use cooboc.Base.Int.{ℤ, ◌≤ℤ◌}
use cooboc.Float.{Float}
use cooboc.Util.{constraint_int, constraint}

-- The integer clamp stays in its range, whose bounds are in order.
pub constraint_int_bounds :
    (x lo hi : ℤ) → lo ≤ℤ hi → (lo ≤ℤ constraint_int x lo hi) × (constraint_int x lo hi ≤ℤ hi)
unfolding constraint_int
constraint_int_bounds x lo hi h = (ground arith, ground arith)

module _ (F : Float) where
  open F use {Double, lt}

  -- The clamp of doubles is nowhere below its lower or above its upper bound, if no number is
  -- below itself and the bounds are in order; also where `x` compares with nothing.
  pub constraint_bounds :
      ((x : Double) → lt x x ≡ false)
      → (x lo hi : Double) → lt hi lo ≡ false
      → (lt (constraint F x lo hi) lo ≡ false) × (lt hi (constraint F x lo hi) ≡ false)
  unfolding constraint
  constraint_bounds irreflexive x lo hi h = ground (arith, irreflexive lo, irreflexive hi)
