-- ===== src/Util/Tests.antt =====
-- Clamping of chicken/utils/util.cpp at concrete numbers.
use cooboc.Base.{◌≡◌, refl}
use cooboc.Base.Int.{pos, negsuc}
use cooboc.Float.Sample.{whole}
use cooboc.Util.{constraint_int, constraint, cycle_compare}

too_small : constraint_int (negsuc 4) (pos 1000) (pos 2000) ≡ pos 1000
unfolding constraint_int
too_small = refl

too_large : constraint whole 7 2 5 ≡ 5
unfolding constraint
too_large = refl

across_zero : cycle_compare whole 350 10 360 ≡ 0
unfolding cycle_compare
across_zero = refl
