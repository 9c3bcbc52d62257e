-- ===== src/Util.antt =====
-- chicken/utils/util.cpp: clamping, differences on a circle, and vectors.
pub mod Clamp
mod Tests
use cooboc.Base.{Bool, true, false, if◌then◌else◌}
use cooboc.Base.Int.{ℤ, pos, ltb_ℤ}
use cooboc.Float.{Float}

-- `int constraint(int, int, int)`
pub constraint_int : ℤ → ℤ → ℤ → ℤ
constraint_int x minx maxx = if ltb_ℤ x minx then minx else if ltb_ℤ maxx x then maxx else x

module _ (F : Float) where
  open F use {Double, add, sub, mul, div, neg, lt, fabs, sqrt, of_int, decimal}

  -- `double constraint(double, double, double)`
  pub constraint : Double → Double → Double → Double
  constraint x minx maxx = if lt x minx then minx else if lt maxx x then maxx else x

  -- PI of util.h
  abbrev pub pi : Double
  pi = decimal 314159265358979323846264332795 29

  pub cycle_compare : Double → Double → Double → Double
  cycle_compare target current cycle_size =
      let result = sub target current in
      if lt (div cycle_size (decimal 20 1)) (fabs result)
      then (if lt (of_int (pos 0)) result then sub result cycle_size else add result cycle_size)
      else result

  pub record Point3D : Type 0 where
    pub x : Double
    pub y : Double
    pub z : Double

  -- The plane is given by its normal.
  unfoldable pub project_on_plane : Point3D → Point3D → Point3D
  project_on_plane q p =
      let scale =
        div (neg (add (add (mul q.x p.x) (mul q.y p.y)) (mul q.z p.z)))
          (add (add (mul p.x p.x) (mul p.y p.y)) (mul p.z p.z)) in
      record {
        x = add q.x (mul scale p.x);
        y = add q.y (mul scale p.y);
        z = add q.z (mul scale p.z);
      }

  unfoldable pub dot_product : Point3D → Point3D → Double
  dot_product q p = add (add (mul q.x p.x) (mul q.y p.y)) (mul q.z p.z)

  pub cross_product : Point3D → Point3D → Point3D
  cross_product q p = record {
    x = sub (mul q.y p.z) (mul q.z p.y);
    y = sub (mul q.z p.x) (mul q.x p.z);
    z = sub (mul q.x p.y) (mul q.y p.x);
  }

  pub absolute : Point3D → Double
  absolute q = sqrt (add (add (mul q.x q.x) (mul q.y q.y)) (mul q.z q.z))
