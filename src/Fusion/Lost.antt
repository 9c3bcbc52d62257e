-- ===== src/Fusion/Lost.antt =====
-- The estimates of chicken/device/imu.cpp once they are NaN.
use cooboc.Base.{◌≡◌, ap, ap₂, ◌∙◌, false, if◌then◌else◌, List, [], ◌∷◌}
use cooboc.Float.{Float}
use cooboc.Util.{Point3D, pi, project_on_plane, dot_product}
use cooboc.Iic.{Bus}
use cooboc.Fusion.{
  Imu, Sample, point, update, updates, fusion_attitude, fusion_magnet, turned,
  iterate_gyro_attitude, normalized, fused, two_pi, zero, one, fix_data, read_data, get_attitude,
  tilt, pitch_of, roll_of, heading_of,
}

module _ (F : Float) where
  open F use {Double, add, sub, mul, div, neg, lt, sin, cos, acos, sqrt, decimal}

  -- What is used of NaN: that it goes through the operations, and that no comparison
  -- with it holds.
  pub record NanLaws (nan : Double) : Type 0 where
    pub add_left : (x : Double) → add nan x ≡ nan
    pub add_right : (x : Double) → add x nan ≡ nan
    pub mul_left : (x : Double) → mul nan x ≡ nan
    pub div_left : (x : Double) → div nan x ≡ nan
    pub mul_right : (x : Double) → mul x nan ≡ nan
    pub acos_nan : acos nan ≡ nan
    pub lt_left : (x : Double) → lt nan x ≡ false
    pub lt_right : (x : Double) → lt x nan ≡ false

  unfoldable pub IsLost : Double → Point3D F → Type 0
  IsLost nan p = (p.x ≡ nan) × (p.y ≡ nan) × (p.z ≡ nan)

  module _ (nan : Double) (laws : NanLaws nan) where
    add_lost : (a b : Double) → b ≡ nan → add a b ≡ nan
    add_lost a b h = ap (add a) h ∙ laws.add_right a

    left_lost : (a b : Double) → a ≡ nan → add a b ≡ nan
    left_lost a b h = ap (λ x. add x b) h ∙ laws.add_left b

    mul_lost : (a b : Double) → a ≡ nan → mul a b ≡ nan
    mul_lost a b h = ap (λ x. mul x b) h ∙ laws.mul_left b

    mul_right_lost : (a b : Double) → b ≡ nan → mul a b ≡ nan
    mul_right_lost a b h = ap (mul a) h ∙ laws.mul_right a

    not_less : (a b : Double) → b ≡ nan → lt a b ≡ false
    not_less a b h = ap (lt a) h ∙ laws.lt_right a

    not_above : (a b : Double) → a ≡ nan → lt a b ≡ false
    not_above a b h = ap (λ x. lt x b) h ∙ laws.lt_left b

    div_lost : (a b : Double) → a ≡ nan → div a b ≡ nan
    div_lost a b h = ap (λ x. div x b) h ∙ laws.div_left b

    turned-IsLost : (est turn : Point3D F) → IsLost nan est → IsLost nan (turned F est turn)
    unfolding turned IsLost
    turned-IsLost est turn (hx, hy, hz) =
        (left_lost est.x _ hx, left_lost est.y _ hy, left_lost est.z _ hz)

    normalized-IsLost : (p : Point3D F) → IsLost nan p → IsLost nan (normalized F p)
    unfolding normalized IsLost
    normalized-IsLost p (hx, hy, hz) = (div_lost p.x _ hx, div_lost p.y _ hy, div_lost p.z _ hz)

    fused-IsLost :
        (share : Double) (na ge : Point3D F) → IsLost nan ge → IsLost nan (fused F share na ge)
    unfolding fused IsLost
    fused-IsLost share na ge (hx, hy, hz) = (
      add_lost _ _ (mul_lost ge.x _ hx),
      add_lost _ _ (mul_lost ge.y _ hy),
      add_lost _ _ (mul_lost ge.z _ hz),
    )

    tilt_lost : (unit plane : Point3D F) → IsLost nan plane → tilt F unit plane ≡ nan
    unfolding tilt project_on_plane dot_product IsLost
    tilt_lost unit plane (hx, hy, hz) =
        ap acos (
          div_lost _ _ (
            left_lost _ _ (
              left_lost _ _
                (mul_right_lost unit.x _ (add_lost _ _ (mul_right_lost _ plane.x hx))))))
        ∙ laws.acos_nan

    pitch_lost : (est : Point3D F) → IsLost nan est → pitch_of F est ≡ nan
    unfolding pitch_of IsLost
    pitch_lost est h =
        ap₂ (λ c t. if c then neg t else t) (not_less (zero F) est.x h.0)
          (tilt_lost (point F (one F) (zero F) (zero F)) est h)

    roll_lost : (est : Point3D F) → IsLost nan est → roll_of F est ≡ nan
    unfolding roll_of IsLost
    roll_lost est h =
        ap₂ (λ c t. if c then neg t else t) (not_above est.y (zero F) h.1)
          (ap₂ (λ c t. if c then sub (pi F) t else t) (not_above est.z (zero F) h.2)
            (tilt_lost (point F (zero F) (one F) (zero F)) est h))

    heading_lost : (est m : Point3D F) → IsLost nan est → heading_of F est m ≡ nan
    unfolding heading_of project_on_plane dot_product IsLost
    heading_lost est m (hx, hy, hz) =
        ap₂ (λ c t. if c then sub (two_pi F) t else t)
          (not_above _ (zero F) (left_lost _ _ (left_lost _ _ (mul_right_lost _ est.x hx))))
          (ap acos (
              div_lost _ _ (
                left_lost _ _
                  (left_lost _ _ (mul_lost _ _ (add_lost _ _ (mul_right_lost _ est.x hx))))))
            ∙ laws.acos_nan)

    update-IsLost :
        (i : Imu F) (b : Bus) (s : Sample) → IsLost nan i.est → IsLost nan (update F i b s).0.est
    unfolding update fusion_attitude fusion_magnet iterate_gyro_attitude fix_data read_data
    update-IsLost i b s h = fused-IsLost _ _ _ (normalized-IsLost _ (turned-IsLost i.est _ h))

    angles_lost :
        (i : Imu F) (b : Bus) (s : Sample)
        → IsLost nan i.est
        → let a = get_attitude F (update F i b s).0 in
          (a.pitch ≡ nan) × (a.roll ≡ nan) × (a.heading ≡ nan)
    unfolding update fusion_attitude fusion_magnet iterate_gyro_attitude fix_data read_data
        get_attitude
    angles_lost i b s h =
        let est = (update F i b s).0.est in
        let lost = update-IsLost i b s h in
        (pitch_lost est lost, roll_lost est lost, heading_lost est _ lost)

    updates-IsLost :
        (i : Imu F) (b : Bus) (ss : List Sample)
        → IsLost nan i.est
        → IsLost nan (updates F i b ss).0.est
    unfolding updates
    updates-IsLost i b [] h = h
    updates-IsLost i b (s ∷ ss) h =
        updates-IsLost (update F i b s).0 (update F i b s).1 ss (update-IsLost i b s h)

    -- If NaN goes through sums, products, quotients and `acos`, and no comparison with it
    -- holds: once the estimated vertical is NaN, then after any further updates, whatever is
    -- read in them, all three angles of `getAttitude` are NaN. The estimate is never set up
    -- again from the acceleration.
    pub estimate_stays_lost :
        (i : Imu F) (b : Bus) (ss : List Sample) (s : Sample)
        → IsLost nan i.est
        → let (i', b') = updates F i b ss in
          let a = get_attitude F (update F i' b' s).0 in
          (a.pitch ≡ nan) × (a.roll ≡ nan) × (a.heading ≡ nan)
    estimate_stays_lost i b ss s h =
        angles_lost (updates F i b ss).0 (updates F i b ss).1 s (updates-IsLost i b ss h)
