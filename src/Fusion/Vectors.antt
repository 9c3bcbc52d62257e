-- ===== src/Fusion/Vectors.antt =====
-- The computations on vectors of chicken/device/imu.cpp.
use cooboc.Base.{if◌then◌else◌}
use cooboc.Base.Int.{ℤ, pos}
use cooboc.Float.{Float}
use cooboc.Util.{Point3D, pi, project_on_plane, dot_product, cross_product, absolute}
use cooboc.Bmx055.{Axes}

module _ (F : Float) where
  open F use {
    Double, add, sub, mul, div, neg, lt, sin, cos, asin, acos, sqrt, fabs, of_int, decimal,
  }

  -- 0, 1, 2*PI and EPSILON as a `double`
  abbrev pub zero : Double
  zero = of_int (pos 0)

  abbrev pub one : Double
  one = of_int (pos 1)

  abbrev pub two_pi : Double
  two_pi = mul (of_int (pos 2)) (pi F)

  abbrev epsilon : Double
  epsilon = decimal 1 10

  abbrev pub point : Double → Double → Double → Point3D F
  point x y z = record { x = x; y = y; z = z }

  -- The macros of the scale are products without parentheses: the sum is multiplied by the digits
  -- and the result by 1e-5. The offset of y is the integer 0.
  unfoldable pub turn_rates : Axes ℤ → Point3D F
  turn_rates raw = record {
    x = mul (mul (add (of_int raw.x) (decimal 7832 3)) (neg (decimal 1102313212 9))) (decimal 1 5);
    y = mul (mul (of_int raw.y) (decimal 1102313212 9)) (decimal 1 5);
    z =
        mul (mul (add (of_int raw.z) (neg (decimal 47933333 7))) (neg (decimal 1064946662 9)))
          (decimal 1 5);
  }

  -- The angle `r_zy_z`.
  angle_of : Double → Double → Double → Double
  angle_of est_y est_z a_zy =
      if lt (fabs est_y) (fabs est_z)
      then (let r =
            if lt zero est_z then asin (div est_y a_zy) else sub (pi F) (asin (div est_y a_zy)) in
          if lt r zero then add r two_pi else r)
      else if lt est_y zero
      then sub two_pi (acos (div est_z a_zy))
      else acos (div est_z a_zy)

  -- `calculateUniaxialGyroEffect`: the change on the right and on the top. The estimate on the front
  -- is not used.
  unfoldable pub uniaxial_gyro_effect : Double → Double → Double → Double → Double × Double
  unfolding angle_of
  uniaxial_gyro_effect est_x est_y est_z gyro_rate =
      let length = sqrt (add (mul est_y est_y) (mul est_z est_z)) in
      let a_zy = if lt (fabs length) epsilon then epsilon else length in
      let r_zy_z = angle_of est_y est_z a_zy in
      (
        sub (mul (sin (add r_zy_z gyro_rate)) a_zy) est_y,
        sub (mul (cos (add r_zy_z gyro_rate)) a_zy) est_z,
      )

  -- `iterateGyroAttitude` and `iterateGyroMagnet`: a vector turned by the three rates. The effect of
  -- each axis is that on the two axes after it.
  unfoldable pub turned : Point3D F → Point3D F → Point3D F
  turned est turn =
      let (right_x, top_x) = uniaxial_gyro_effect est.x est.y est.z turn.x in
      let diff_y = add (decimal 0 1) right_x in
      let diff_z = add (decimal 0 1) top_x in
      let (right_y, top_y) = uniaxial_gyro_effect est.y est.z est.x turn.y in
      let diff_z' = add diff_z right_y in
      let diff_x = add (decimal 0 1) top_y in
      let (right_z, top_z) = uniaxial_gyro_effect est.z est.x est.y turn.z in
      let diff_x' = add diff_x right_z in
      let diff_y' = add diff_y top_z in
      point (add est.x diff_x') (add est.y diff_y') (add est.z diff_z')

  -- The length of a vector, and the vector divided by it.
  unfoldable pub normalized : Point3D F → Point3D F
  normalized p =
      let r = sqrt (add (add (mul p.x p.x) (mul p.y p.y)) (mul p.z p.z)) in
      point (div p.x r) (div p.y r) (div p.z r)

  -- The share of the acceleration in the estimate, the greater the nearer it is to 1 g.
  unfoldable pub confidence : Point3D F → Double
  confidence acc =
      let c = add (add (mul acc.x acc.x) (mul acc.y acc.y)) (mul acc.z acc.z) in
      let c' = if lt one c then div one c else c in add (mul c' (decimal 8 2)) (decimal 2 3)

  -- Step 4 of `fusionAttitude`.
  unfoldable pub fused : Double → Point3D F → Point3D F → Point3D F
  fused share na ge =
      point (add (mul na.x share) (mul ge.x (sub one share)))
        (add (mul na.y share) (mul ge.y (sub one share)))
        (add (mul na.z share) (mul ge.z (sub one share)))

  -- acos of the cosine between a vector and its projection on the plane, as the code forms it
  unfoldable pub tilt : Point3D F → Point3D F → Double
  tilt unit plane =
      let on_earth = project_on_plane F unit plane in
      acos (div (dot_product F unit on_earth) (mul (absolute F unit) (absolute F on_earth)))

  unfoldable pub pitch_of : Point3D F → Double
  unfolding tilt
  pitch_of est =
      let pitch = tilt (point one zero zero) est in if lt zero est.x then neg pitch else pitch

  unfoldable pub roll_of : Point3D F → Double
  unfolding tilt
  roll_of est =
      let roll = tilt (point zero one zero) est in
      let roll' = if lt est.z zero then sub (pi F) roll else roll in
      if lt est.y zero then neg roll' else roll'

  -- Steps 1 to 5 of `fusionMagnet`.
  unfoldable pub heading_of : Point3D F → Point3D F → Double
  heading_of est est_magnet =
      let x_on_earth = project_on_plane F (point (decimal 10 1) (decimal 0 1) (decimal 0 1)) est in
      let magnet_on_earth = project_on_plane F est_magnet est in
      let inner = dot_product F (cross_product F magnet_on_earth x_on_earth) est in
      let heading = acos (
        div (dot_product F x_on_earth magnet_on_earth)
          (mul (absolute F x_on_earth) (absolute F magnet_on_earth))) in
      if lt inner zero then sub two_pi heading else heading
