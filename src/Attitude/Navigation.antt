-- ===== src/Attitude/Navigation.antt =====
-- The targets of chicken/navigator/attitude_navigator.cpp.
use cooboc.Base.{◌⊎◌, ◌≡◌, refl, true, false, arith}
use cooboc.Base.Int.{ℤ, pos, ◌≤ℤ◌, ◌-ℤ◌}
use cooboc.Float.{Float}
use cooboc.Util.Clamp.{constraint_bounds}
use cooboc.Pid
use cooboc.Pid.Window.{reset-new_pid}
use cooboc.Imu.{ImuAttitude}
use cooboc.Servo.{ServoSignal}
use cooboc.Attitude
use cooboc.Attitude.{Controller, Navigator}
use cooboc.Attitude.Control.{AreValid}

module _ (F : Float) where
  open F use {Double, lt, of_int, div, decimal}

  -- A stick between 1451 and 1549 counts as in the middle.
  dead_band_middle : (v : ℤ) → pos 1451 ≤ℤ v → v ≤ℤ pos 1549 → Attitude.dead_band F v ≡ pos 0
  unfolding Attitude.dead_band ◌-ℤ◌
  dead_band_middle v h1 h2 = ground arith

  -- Any other gives its distance from 1500.
  dead_band_outside :
      (v : ℤ) → (v ≤ℤ pos 1450) ⊎ (pos 1550 ≤ℤ v) → Attitude.dead_band F v ≡ v -ℤ pos 1500
  unfolding Attitude.dead_band ◌-ℤ◌
  dead_band_outside v h = ground arith

  -- The pitch and the roll that the navigator asks for are not beyond the bounds of 60 degrees to either
  -- side, if no number is below itself and the two bounds are in order; and the controller is
  -- given exactly the navigator's targets.
  pub targets_bounded :
      ((x : Double) → lt x x ≡ false)
      → lt (Attitude.max_angle F) (Attitude.minus_max_angle F) ≡ false
      → (n : Navigator F) (c : Controller F) (rc : ServoSignal) (a : ImuAttitude F)
      → let (n', c') = Attitude.navigate F n c rc a in
        (lt n'.pitch_target (Attitude.minus_max_angle F) ≡ false)
        × (lt (Attitude.max_angle F) n'.pitch_target ≡ false)
        × (lt n'.roll_target (Attitude.minus_max_angle F) ≡ false)
        × (lt (Attitude.max_angle F) n'.roll_target ≡ false)
        × (c'.target_pitch ≡ n'.pitch_target)
        × (c'.target_roll ≡ n'.roll_target)
        × (c'.target_yaw ≡ n'.yaw_target)
  unfolding Attitude.navigate
  targets_bounded irreflexive ordered n c rc a =
      let pitch = constraint_bounds F irreflexive _ _ _ ordered in
      let roll = constraint_bounds F irreflexive _ _ _ ordered in
      (pitch.0, pitch.1, roll.0, roll.1, refl, refl, refl)

  -- On taking over the navigator enables the controller, with the present attitude for its target,
  -- no yaw, the pilot's signal and empty integrals.
  takeover_starts_level :
      (c : Controller F) (raw : ServoSignal) (a current : ImuAttitude F)
      → AreValid F c
      → let c' = (Attitude.on_takeover F c raw a current).1 in
        (c'.is_enabled ≡ true)
        × (c'.target_pitch ≡ current.pitch)
        × (c'.target_roll ≡ current.roll)
        × (c'.target_yaw ≡ Attitude.zero F)
        × (c'.servo ≡ raw)
        × (c'.last_heading ≡ a.heading)
        × (c'.pitch_pid
            ≡ Pid.new_pid F c.pitch_pid.kp c.pitch_pid.ki c.pitch_pid.kd
                c.pitch_pid.integral_window_size)
        × (c'.roll_pid
            ≡ Pid.new_pid F c.roll_pid.kp c.roll_pid.ki c.roll_pid.kd
                c.roll_pid.integral_window_size)
        × (c'.yaw_pid
            ≡ Pid.new_pid F c.yaw_pid.kp c.yaw_pid.ki c.yaw_pid.kd c.yaw_pid.integral_window_size)
  unfolding Attitude.on_takeover
  takeover_starts_level c raw a current v = (
    refl,
    refl,
    refl,
    refl,
    refl,
    refl,
    reset-new_pid F c.pitch_pid v.pitch_valid,
    reset-new_pid F c.roll_pid v.roll_valid,
    reset-new_pid F c.yaw_pid v.yaw_valid,
  )
