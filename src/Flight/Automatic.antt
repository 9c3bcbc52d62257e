-- ===== src/Flight/Automatic.antt =====
-- The attitude status: the attitude controller's signal goes to the servos
-- (chicken/attitude_controller.cpp).
use cooboc.Base.{◌≡◌, ◌<◌, ap, ◌∙◌, true, [], ◌∷◌, arith}
use cooboc.Base.Int.{pos_part}
use cooboc.Float.{Float}
use cooboc.Imu.{ImuAttitude}
use cooboc.Servo.{Mavlink, ServoSignal, ServoDriver}
use cooboc.Servo
use cooboc.Status.{Status}
use cooboc.Status
use cooboc.Attitude
use cooboc.Attitude.Control.{InServoRange, work_writes}
use cooboc.Flight.{
  manully_navigator, attitude_navigator, Flight, status_step, attitude_step, manully_step,
  controller_step, fetch_step, write_step,
}
use cooboc.Flight
use cooboc.Flight.Invariant.{IsConsistent}

module _ (F : Float) (L : Mavlink) where
  enabled_by_status :
      (f : Flight F L) (a current : ImuAttitude F)
      → IsConsistent F L f
      → 1500 < pos_part f.servo.raw_servo_signal.status
      → (Flight.status_work F L a current f).controller.is_enabled ≡ true
  unfolding Flight.status_work Status.work Attitude.on_takeover Attitude.on_release
  enabled_by_status f a current h high =
      ground (arith, h.at_default, h.at_manully, h.at_attitude, h.matches, h.follows)

  servo-status_work :
      (f : Flight F L) (a current : ImuAttitude F)
      → IsConsistent F L f
      → (Flight.status_work F L a current f).servo ≡ f.servo
  unfolding Flight.status_work Status.work Attitude.on_takeover Attitude.on_release
  servo-status_work f a current h =
      ground (arith, h.at_default, h.at_manully, h.at_attitude, h.matches, h.follows)

  override-set_override :
      (d : ServoDriver L) (s : ServoSignal)
      → (Servo.set_override_servo_signal L d s).override_servo_signal ≡ s
  unfolding Servo.set_override_servo_signal
  override-set_override d s = ground arith

  -- From a consistent state: once the status controller has seen the pilot's channel above 1500, the next round of the
  -- attitude controller sets a signal whose aileron, elevator and rudder lie between 1000 and 2000,
  -- and whose throttle is the pilot's.
  pub controller_in_control :
      (f : Flight F L) (a current b : ImuAttitude F)
      → IsConsistent F L f
      → 1500 < pos_part f.servo.raw_servo_signal.status
      → let s =
          (Flight.run F L f
            (status_step a current ∷ controller_step b ∷ [])).servo.override_servo_signal in
        InServoRange s.aileron
        × InServoRange s.elevator
        × InServoRange s.rudder
        × (s.throttle ≡ f.servo.raw_servo_signal.throttle)
  unfolding Flight.run Flight.step
  controller_in_control f a current b h high =
      let f1 = Flight.status_work F L a current f in
      let (s, written, aileron, elevator, rudder, throttle) =
        work_writes F f1.controller f1.servo.raw_servo_signal b
          (enabled_by_status f a current h high) in
      rw (written) (
        rw (override-set_override f1.servo s) (
          aileron,
          elevator,
          rudder,
          throttle
              ∙ ap (λ (d : ServoDriver L). d.raw_servo_signal.throttle)
                  (servo-status_work f a current h),
        ))
