-- ===== src/Flight/Manual.antt =====
-- The manual status: the pilot's signal goes to the servos (chicken/navigator/manully_navigator.cpp).
use cooboc.Base.{◌≡◌, ◌≤◌, refl, ap, ◌∙◌, Bool, true, false, List, [], ◌∷◌, arith, All, ◌++◌}
use cooboc.Base.Int.{pos_part}
use cooboc.Float.{Float}
use cooboc.Imu.{ImuAttitude}
use cooboc.Servo.{Mavlink, ServoSignal, ServoDriver}
use cooboc.Servo
use cooboc.Status.{Status}
use cooboc.Status
use cooboc.Attitude
use cooboc.Flight.{
  manully_navigator, attitude_navigator, Flight, status_step, attitude_step, manully_step,
  controller_step, fetch_step, write_step, tunning_step,
}
use cooboc.Flight
use cooboc.Flight.Invariant.{IsConsistent}

module _ (F : Float) (L : Mavlink) where
  -- The steps that leave the status and the raw signal as they are.
  abbrev keeps_signal : Flight.Step F L → Bool
  keeps_signal (status_step a current) = false
  keeps_signal (fetch_step chunks) = false
  keeps_signal (attitude_step a) = true
  keeps_signal manully_step = true
  keeps_signal (controller_step a) = true
  keeps_signal write_step = true
  keeps_signal (tunning_step p i d) = true

  -- The manual navigator is enabled, and alone, while the pilot's signal is `pilot`.
  record IsManual (f : Flight F L) (pilot : ServoSignal) : Type 0 where
    signal : f.servo.raw_servo_signal ≡ pilot
    manully_on : f.status.fleet manully_navigator ≡ true
    attitude_off : f.status.fleet attitude_navigator ≡ false
    controller_off : f.controller.is_enabled ≡ false

  status_work-IsManual :
      (f : Flight F L) (a current : ImuAttitude F)
      → IsConsistent F L f
      → pos_part f.servo.raw_servo_signal.status ≤ 1500
      → IsManual (Flight.status_work F L a current f) f.servo.raw_servo_signal
  unfolding Flight.status_work Status.work Attitude.on_takeover Attitude.on_release
  status_work-IsManual f a current h low =
      ground (arith, h.at_default, h.at_manully, h.at_attitude, h.matches, h.follows)

  step-IsManual :
      (f : Flight F L) (s : Flight.Step F L) (pilot : ServoSignal)
      → keeps_signal s ≡ true
      → IsManual f pilot
      → IsManual (Flight.step F L f s) pilot
  unfolding Flight.step Status.navigates Attitude.work Servo.set_override_servo_signal
      Servo.write_servos Attitude.set_controller_tunning
  step-IsManual f (status_step a current) pilot k h = cc
  step-IsManual f (fetch_step chunks) pilot k h = cc
  step-IsManual f (attitude_step a) pilot k h =
      ground (arith, h.signal, h.manully_on, h.attitude_off, h.controller_off)
  step-IsManual f manully_step pilot k h =
      ground (arith, h.signal, h.manully_on, h.attitude_off, h.controller_off)
  step-IsManual f (controller_step a) pilot k h =
      ground (arith, h.signal, h.manully_on, h.attitude_off, h.controller_off)
  step-IsManual f write_step pilot k h =
      ground (arith, h.signal, h.manully_on, h.attitude_off, h.controller_off)
  step-IsManual f (tunning_step p i d) pilot k h =
      ground (arith, h.signal, h.manully_on, h.attitude_off, h.controller_off)

  step-kept :
      (f : Flight F L) (s : Flight.Step F L) (pilot : ServoSignal)
      → keeps_signal s ≡ true
      → IsManual f pilot
      → f.servo.override_servo_signal ≡ pilot
      → (Flight.step F L f s).servo.override_servo_signal ≡ pilot
  unfolding Flight.step Attitude.work Servo.set_override_servo_signal Servo.write_servos
  step-kept f (status_step a current) pilot k h e = cc
  step-kept f (fetch_step chunks) pilot k h e = cc
  step-kept f (attitude_step a) pilot k h e = ground arith
  step-kept f manully_step pilot k h e = ground (arith, h.signal)
  step-kept f (controller_step a) pilot k h e = ground (arith, h.controller_off)
  step-kept f write_step pilot k h e = ground arith
  step-kept f (tunning_step p i d) pilot k h e = e

  run-IsManual :
      (f : Flight F L) (ss : List (Flight.Step F L)) (pilot : ServoSignal)
      → All (λ s. keeps_signal s ≡ true) ss
      → IsManual f pilot
      → IsManual (Flight.run F L f ss) pilot
  unfolding Flight.run
  run-IsManual f [] pilot ks h = h
  run-IsManual f (s ∷ ss) pilot ks h =
      run-IsManual (Flight.step F L f s) ss pilot ks.1 (step-IsManual f s pilot ks.0 h)

  run-kept :
      (f : Flight F L) (ss : List (Flight.Step F L)) (pilot : ServoSignal)
      → All (λ s. keeps_signal s ≡ true) ss
      → IsManual f pilot
      → f.servo.override_servo_signal ≡ pilot
      → (Flight.run F L f ss).servo.override_servo_signal ≡ pilot
  unfolding Flight.run
  run-kept f [] pilot ks h e = e
  run-kept f (s ∷ ss) pilot ks h e =
      run-kept (Flight.step F L f s) ss pilot ks.1 (step-IsManual f s pilot ks.0 h)
        (step-kept f s pilot ks.0 h e)

  run-append :
      (f : Flight F L) (ss ts : List (Flight.Step F L))
      → Flight.run F L f (ss ++ ts) ≡ Flight.run F L (Flight.run F L f ss) ts
  unfolding Flight.run
  run-append f [] ts = refl
  run-append f (s ∷ ss) ts = run-append (Flight.step F L f s) ss ts

  manully_step-signal :
      (f : Flight F L) (pilot : ServoSignal)
      → IsManual f pilot
      → (Flight.step F L f manully_step).servo.override_servo_signal ≡ pilot
  unfolding Flight.step Status.navigates Servo.set_override_servo_signal
  manully_step-signal f pilot h = ground (arith, h.signal, h.manully_on)

  -- From a consistent state: once the status controller has seen the pilot's channel at 1500 or below, and the manual
  -- navigator has worked after it, the signal for the servos is the pilot's own, and stays it over
  -- any rounds of the two navigators, of the attitude controller, of the writing thread and of the main thread's tuning, until a
  -- new signal is fetched or the status controller works again.
  pub pilot_in_control :
      (f : Flight F L) (a current : ImuAttitude F) (ss ts : List (Flight.Step F L))
      → IsConsistent F L f
      → pos_part f.servo.raw_servo_signal.status ≤ 1500
      → All (λ s. keeps_signal s ≡ true) ss
      → All (λ s. keeps_signal s ≡ true) ts
      → (Flight.run F L f
          (status_step a current ∷ (ss ++ (manully_step ∷ ts)))).servo.override_servo_signal
        ≡ f.servo.raw_servo_signal
  unfolding Flight.run Flight.step
  pilot_in_control f a current ss ts h low ks ls =
      let pilot = f.servo.raw_servo_signal in
      let f1 = Flight.status_work F L a current f in
      let manual = run-IsManual f1 ss pilot ks (status_work-IsManual f a current h low) in
      let f2 = Flight.run F L f1 ss in
      ap (λ (g : Flight F L). g.servo.override_servo_signal) (run-append f1 ss (manully_step ∷ ts))
      ∙ run-kept (Flight.step F L f2 manully_step) ts pilot ls
          (step-IsManual f2 manully_step pilot refl manual) (manully_step-signal f2 pilot manual)
