-- ===== src/Attitude/Control.antt =====
-- `work` of chicken/attitude_controller.cpp.
use cooboc.Base.{◌≡◌, refl, Bool, true, false, none, some, arith, if◌then◌else◌}
use cooboc.Base.Int.{ℤ, pos, ◌≤ℤ◌}
use cooboc.Float.{Float}
use cooboc.Util.Clamp.{constraint_int_bounds}
use cooboc.Pid.Window.{IsValid, update_error-IsValid, new_pid-IsValid}
use cooboc.Imu.{ImuAttitude}
use cooboc.Servo.{ServoSignal}
use cooboc.Attitude
use cooboc.Attitude.{Controller}

abbrev pub InServoRange : ℤ → Type 0
InServoRange v = (pos 1000 ≤ℤ v) × (v ≤ℤ pos 2000)

-- A property of the state that holds on both branches holds of the chosen one.
if_state {ℓ κ} :
    {S R : Type ℓ} (P : S → Type κ) (b : Bool) (x y : S × R)
    → P x.0
    → P y.0
    → P (if b then x else y).0
if_state P true x y p q = p
if_state P false x y p q = q

module _ (F : Float) where
  open F use {Double, to_int}

  servo_value_range : (x : Double) → InServoRange (Attitude.servo_value F x)
  servo_value_range x =
      let bounds = constraint_int_bounds (to_int x) (pos 1000) (pos 2000) (omega arith) in
      (bounds.0, bounds.1)

  -- An enabled controller writes one signal: its aileron, elevator and rudder lie between 1000 and
  -- 2000, whatever the attitude, and its throttle is the pilot's.
  pub work_writes :
      (c : Controller F) (rc : ServoSignal) (a : ImuAttitude F)
      → c.is_enabled ≡ true
      → (s : ServoSignal) × ((Attitude.work F c rc a).1 ≡ some s)
        × InServoRange s.aileron
        × InServoRange s.elevator
        × InServoRange s.rudder
        × (s.throttle ≡ rc.throttle)
  unfolding Attitude.work
  work_writes c rc a on = (
    (Attitude.control F c rc a).servo,
    ground arith,
    servo_value_range _,
    servo_value_range _,
    servo_value_range _,
    refl,
  )

  -- A disabled controller writes nothing and keeps its state.
  work_disabled :
      (c : Controller F) (rc : ServoSignal) (a : ImuAttitude F)
      → c.is_enabled ≡ false
      → Attitude.work F c rc a ≡ (c, none)
  unfolding Attitude.work
  work_disabled c rc a off = simp off

  -- The three PID buffers are well formed.
  pub record AreValid (c : Controller F) : Type 0 where
    pub pitch_valid : IsValid F c.pitch_pid
    pub roll_valid : IsValid F c.roll_pid
    pub yaw_valid : IsValid F c.yaw_pid

  new_controller-AreValid : AreValid (Attitude.new_controller F)
  unfolding Attitude.new_controller
  new_controller-AreValid = record {
    pitch_valid = new_pid-IsValid F _ _ _ 1000 (omega arith);
    roll_valid = new_pid-IsValid F _ _ _ 500 (omega arith);
    yaw_valid = new_pid-IsValid F _ _ _ 10 (omega arith);
  }

  control-AreValid :
      (c : Controller F) (rc : ServoSignal) (a : ImuAttitude F)
      → AreValid c
      → AreValid (Attitude.control F c rc a)
  unfolding Attitude.control
  control-AreValid c rc a v = record {
    pitch_valid = update_error-IsValid F c.pitch_pid _ v.pitch_valid;
    roll_valid = update_error-IsValid F c.roll_pid _ v.roll_valid;
    yaw_valid = update_error-IsValid F c.yaw_pid _ v.yaw_valid;
  }

  -- `work` keeps the controller's three buffers well formed.
  work-AreValid :
      (c : Controller F) (rc : ServoSignal) (a : ImuAttitude F)
      → AreValid c
      → AreValid (Attitude.work F c rc a).0
  unfolding Attitude.work
  work-AreValid c rc a v =
      if_state (λ r. AreValid r) c.is_enabled
        (Attitude.control F c rc a, some (Attitude.control F c rc a).servo) (c, none)
        (control-AreValid c rc a v) v
