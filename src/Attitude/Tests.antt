-- ===== src/Attitude/Tests.antt =====
-- Rounds of the attitude controller and navigator (chicken/attitude_controller.cpp and
-- chicken/navigator/attitude_navigator.cpp) at a concrete attitude.
use cooboc.Base.{ℕ, ◌≡◌, refl, true, false, [], ◌∷◌, ltb, arith}
use cooboc.Float.Sample.{whole}
use cooboc.Imu.{ImuAttitude}
use cooboc.Servo.{default_signal}
use cooboc.Pid
use cooboc.Pid.Window.{IsValid}
use cooboc.Attitude
use cooboc.Attitude.{Controller, Navigator, new_controller}
use cooboc.Attitude.Navigation.{targets_bounded}

abbrev level : ImuAttitude whole
level = record { pitch = 0; roll = 0; heading = 3 }

abbrev pid : Pid.Pid whole
pid = record {
  kp = 2;
  ki = 1;
  kd = 0;
  integral_buffer = 7 ∷ 8 ∷ 9 ∷ [];
  integral_window_size = 3;
  integral_buffer_index = 2;
}

pid-IsValid : IsValid whole pid
pid-IsValid = record { width = refl; index_in = omega arith }

abbrev enabled : Controller whole
enabled = record {
  is_enabled = true;
  servo = default_signal;
  pitch_pid = pid;
  roll_pid = pid;
  yaw_pid = pid;
  target_pitch = 5;
  target_roll = 7;
  target_yaw = 0;
  last_heading = 1;
}

abbrev navigator : Navigator whole
navigator = record { pitch_target = 50; roll_target = 1; yaw_target = 0 }

never_below : (x : ℕ) → ltb x x ≡ false
never_below x = ground arith

targets_bounded_example :
    let (n', c') = Attitude.navigate whole navigator enabled default_signal level in
    (ltb n'.pitch_target 0 ≡ false)
    × (ltb 1 n'.pitch_target ≡ false)
    × (ltb n'.roll_target 0 ≡ false)
    × (ltb 1 n'.roll_target ≡ false)
    × (c'.target_pitch ≡ n'.pitch_target)
    × (c'.target_roll ≡ n'.roll_target)
    × (c'.target_yaw ≡ n'.yaw_target)
targets_bounded_example =
    targets_bounded whole never_below refl navigator enabled default_signal level
