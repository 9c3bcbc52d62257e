-- ===== src/Fusion/Gyro.antt =====
-- `iterateGyroAttitude` and `iterateGyroMagnet` of chicken/device/imu.cpp.
use cooboc.Base.{◌≡◌, refl, ap}
use cooboc.Float.{Float}
use cooboc.Util.{Point3D}
use cooboc.Fusion.{
  Imu, point, turned, iterate_gyro_attitude, iterate_gyro_magnet, uniaxial_gyro_effect,
}

module _ (F : Float) where
  open F use {Double, add, decimal}

  -- The axes renamed in a circle: y is called x, z is called y, and x is called z.
  abbrev renamed : Point3D F → Point3D F
  renamed p = point F p.y p.z p.x

  abbrev renamed_imu : Imu F → Imu F
  renamed_imu i = record i {
    est = renamed i.est;
    est_magnet = renamed i.est_magnet;
    turn = renamed i.turn;
  }

  point_ap : {x y z x' y' z' : Double} → x ≡ x' → y ≡ y' → z ≡ z' → point F x y z ≡ point F x' y' z'
  point_ap p q r i = point F (p i) (q i) (r i)

  turned-renamed :
      (swap : (a b : Double) → add (add (decimal 0 1) a) b ≡ add (add (decimal 0 1) b) a)
      (est turn : Point3D F)
      → turned F (renamed est) (renamed turn) ≡ renamed (turned F est turn)
  unfolding turned
  turned-renamed swap est turn =
      let (right_x, top_x) = uniaxial_gyro_effect F est.x est.y est.z turn.x in
      let (right_y, top_y) = uniaxial_gyro_effect F est.y est.z est.x turn.y in
      let (right_z, top_z) = uniaxial_gyro_effect F est.z est.x est.y turn.z in
      point_ap (ap (add est.y) (swap top_z right_x)) (ap (add est.z) (swap right_y top_x)) refl

  -- If two summands added to 0 may be exchanged, both estimates treat the three axes alike: with the
  -- axes of the estimate and of the rates renamed in a circle, the code gives the renamed result.
  axes_alike :
      (swap : (a b : Double) → add (add (decimal 0 1) a) b ≡ add (add (decimal 0 1) b) a)
      (i : Imu F)
      → (iterate_gyro_attitude F (renamed_imu i) ≡ renamed (iterate_gyro_attitude F i))
        × (iterate_gyro_magnet F (renamed_imu i) ≡ renamed (iterate_gyro_magnet F i))
  unfolding iterate_gyro_attitude iterate_gyro_magnet
  axes_alike swap i = (turned-renamed swap i.est i.turn, turned-renamed swap i.est_magnet i.turn)
