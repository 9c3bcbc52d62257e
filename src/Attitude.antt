-- ===== src/Attitude.antt =====
-- The attitude controller (chicken/attitude_controller.cpp) and the attitude navigator
-- (chicken/navigator/attitude_navigator.cpp) that sets its targets. The printing of every tenth
-- round is left out.
pub mod Control
pub mod Navigation
mod Tests
use cooboc.Base.{ℕ, Bool, true, false, Option, none, some, ltb, ◌&&◌, if◌then◌else◌}
use cooboc.Base.Int.{ℤ, pos, negsuc, ◌-ℤ◌, ltb_ℤ}
use cooboc.Float.{Float}
use cooboc.Util.{constraint_int, constraint, cycle_compare, pi}
use cooboc.Pid.{Pid, new_pid, update_error, reset, set_tunning}
use cooboc.Imu.{ImuAttitude}
use cooboc.Servo.{ServoSignal, default_servo_value, default_signal}

module _ (F : Float) where
  open F use {Double, add, sub, mul, div, neg, sin, cos, of_int, to_int, decimal}

  abbrev pub zero : Double
  zero = of_int (pos 0)

  pub record Controller : Type 0 where
    pub is_enabled : Bool
    pub servo : ServoSignal
    pub pitch_pid : Pid F
    pub roll_pid : Pid F
    pub yaw_pid : Pid F
    pub target_pitch : Double
    pub target_roll : Double
    pub target_yaw : Double
    pub last_heading : Double

  unfoldable pub new_controller : Controller
  new_controller = record {
    is_enabled = false;
    servo = default_signal;
    pitch_pid = new_pid F (decimal 10000 1) (decimal 100 1) zero 1000;
    roll_pid = new_pid F (decimal 6000 1) (decimal 50 1) zero 500;
    yaw_pid = new_pid F (decimal 30000 1) (decimal 200 1) zero 10;
    target_pitch = zero;
    target_roll = zero;
    target_yaw = zero;
    last_heading = zero;
  }

  abbrev two_pi : Double
  two_pi = mul (of_int (pos 2)) (pi F)

  -- `constraint(mServo.x, 1000, 2000)` of a `double` that was stored in an `int`.
  abbrev pub servo_value : Double → ℤ
  servo_value x = constraint_int (to_int x) (pos 1000) (pos 2000)

  abbrev middle : Double
  middle = of_int default_servo_value

  -- The part of `work` behind the guard: the new state, whose `servo` is what is written.
  pub control : Controller → ServoSignal → ImuAttitude F → Controller
  control c current_rc attitude =
      let (roll_pid, roll_diff) = update_error F c.roll_pid (sub c.target_roll attitude.roll) in
      let (pitch_pid, pitch_diff) =
        update_error F c.pitch_pid (sub c.target_pitch attitude.pitch) in
      let current_yaw = cycle_compare F attitude.heading c.last_heading two_pi in
      let yaw_error = cycle_compare F c.target_yaw current_yaw two_pi in
      let (yaw_pid, yaw_diff) = update_error F c.yaw_pid yaw_error in
      let cos_a = cos attitude.roll in
      let sin_a = sin attitude.roll in
      let servo = record (c.servo) {
        aileron = servo_value (add middle roll_diff);
        elevator = servo_value (add (sub middle (mul cos_a pitch_diff)) (mul yaw_diff sin_a));
        rudder = servo_value (add (sub middle (mul sin_a pitch_diff)) (mul yaw_diff cos_a));
        throttle = current_rc.throttle;
      } in
      record c {
        servo = servo;
        pitch_pid = pitch_pid;
        roll_pid = roll_pid;
        yaw_pid = yaw_pid;
        last_heading = attitude.heading;
      }

  -- `work`: the new state, and the signal that is written, if one is.
  unfoldable pub work : Controller → ServoSignal → ImuAttitude F → Controller × Option ServoSignal
  unfolding control
  work c current_rc attitude =
      let c' = control c current_rc attitude in
      if c.is_enabled then (c', some c'.servo) else (c, none)

  reset_controller : Controller → ServoSignal → ImuAttitude F → Controller
  reset_controller c raw attitude = record c {
    servo = raw;
    pitch_pid = reset F c.pitch_pid;
    roll_pid = reset F c.roll_pid;
    yaw_pid = reset F c.yaw_pid;
    last_heading = attitude.heading;
  }

  set_target_attitude : Controller → Double → Double → Double → Controller
  set_target_attitude c pitch roll yaw = record c {
    target_pitch = pitch;
    target_roll = roll;
    target_yaw = yaw;
  }

  set_controller_enabled : Controller → Bool → Controller
  set_controller_enabled c is_enabled = record c { is_enabled = is_enabled }

  unfoldable pub set_controller_tunning : Controller → Double → Double → Double → Controller
  set_controller_tunning c p i d = record c { yaw_pid = set_tunning F c.yaw_pid p i d }

  -- The attitude navigator's own targets.
  pub record Navigator : Type 0 where
    pub pitch_target : Double
    pub roll_target : Double
    pub yaw_target : Double

  unfoldable pub new_navigator : Navigator
  new_navigator = record { pitch_target = zero; roll_target = zero; yaw_target = zero }

  -- MAX_ANGLE is the text `60.0*PI/180.0`, so that `-MAX_ANGLE` negates the 60 alone.
  abbrev pub max_angle : Double
  max_angle = div (mul (decimal 600 1) (pi F)) (decimal 1800 1)

  abbrev pub minus_max_angle : Double
  minus_max_angle = div (mul (neg (decimal 600 1)) (pi F)) (decimal 1800 1)

  -- A stick less than 50 off its middle counts as in the middle.
  pub dead_band : ℤ → ℤ
  dead_band servo_value =
      let v = servo_value -ℤ default_servo_value in
      if ltb_ℤ (negsuc 49) v && ltb_ℤ v (pos 50) then pos 0 else v

  calculate_target_diff : ℤ → Double
  unfolding dead_band
  calculate_target_diff servo_value = div (of_int (dead_band servo_value)) (decimal 50000 1)

  unfoldable pub navigate :
      Navigator → Controller → ServoSignal → ImuAttitude F → Navigator × Controller
  unfolding calculate_target_diff set_target_attitude
  navigate n c rc attitude =
      let cos_a = cos attitude.roll in
      let sin_a = sin attitude.roll in
      let elevator_diff = calculate_target_diff rc.elevator in
      let rudder_diff = calculate_target_diff rc.rudder in
      let pitch =
        add n.pitch_target (sub (mul (neg cos_a) elevator_diff) (mul sin_a rudder_diff)) in
      let pitch_target = constraint F pitch minus_max_angle max_angle in
      let roll = add n.roll_target (calculate_target_diff rc.aileron) in
      let roll_target = constraint F roll minus_max_angle max_angle in
      let yaw_target = sub (mul cos_a rudder_diff) (mul sin_a elevator_diff) in
      (
        record { pitch_target = pitch_target; roll_target = roll_target; yaw_target = yaw_target },
        set_target_attitude c pitch_target roll_target yaw_target,
      )

  -- `attitude` is what `ADI` gives to `reset`, and `current` what it gives after it.
  unfoldable pub on_takeover :
      Controller → ServoSignal → ImuAttitude F → ImuAttitude F → Navigator × Controller
  unfolding reset_controller set_target_attitude set_controller_enabled
  on_takeover c raw attitude current =
      let c1 = reset_controller c raw attitude in
      let c2 = set_target_attitude c1 current.pitch current.roll zero in
      (
        record { pitch_target = current.pitch; roll_target = current.roll; yaw_target = zero },
        set_controller_enabled c2 true,
      )

  unfoldable pub on_release : Controller → Controller
  unfolding set_controller_enabled
  on_release c = set_controller_enabled c false
