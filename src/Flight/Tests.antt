-- ===== src/Flight/Tests.antt =====
-- Runs of the flight side of chicken/chicken.cpp with whole numbers for `double`.
use cooboc.Base.{ℕ, ◌≡◌, refl, inr, [], ◌∷◌, arith}
use cooboc.Base.Int.{pos}
use cooboc.Float.Sample.{whole}
use cooboc.Servo.{default_signal}
use cooboc.Attitude.Control.{InServoRange}
use cooboc.Flight.{setup_controller, run, status_step, manully_step, controller_step, write_step}
use cooboc.Flight.Sample.{single, level, driver, flying}
use cooboc.Flight.Invariant.{IsConsistent, runs_IsConsistent}
use cooboc.Flight.Manual.{pilot_in_control}
use cooboc.Flight.Automatic.{controller_in_control}

flying-IsConsistent : (channel : ℕ) → IsConsistent whole single (flying channel)
flying-IsConsistent channel = record {
  at_default = refl;
  at_manully = refl;
  at_attitude = refl;
  matches = inr (inr (refl, refl, refl));
  follows = refl;
}

runs_IsConsistent_example : IsConsistent whole single (
    run whole single
      (setup_controller whole single driver)
      (manully_step ∷ status_step level level ∷ manully_step ∷ []))
runs_IsConsistent_example =
    runs_IsConsistent whole single driver
      (manully_step ∷ status_step level level ∷ manully_step ∷ [])

pilot_in_control_example :
    (run whole single (flying 1000) (
      status_step level level
      ∷ controller_step level
      ∷ manully_step
      ∷ controller_step level
      ∷ write_step
      ∷ [])).servo.override_servo_signal
    ≡ record default_signal { aileron = pos 1234; status = pos 1000 }
pilot_in_control_example =
    pilot_in_control whole single (flying 1000) level level (controller_step level ∷ [])
      (controller_step level ∷ write_step ∷ []) (flying-IsConsistent 1000) (omega arith) (refl, tt)
      (refl, (refl, tt))

controller_in_control_example :
    let s =
      (run whole single
        (flying 1800)
        (status_step level level ∷ controller_step level ∷ [])).servo.override_servo_signal in
    InServoRange s.aileron
    × InServoRange s.elevator
    × InServoRange s.rudder
    × (s.throttle ≡ pos 900)
controller_in_control_example =
    controller_in_control whole single (flying 1800) level level level (flying-IsConsistent 1800)
      (omega arith)
