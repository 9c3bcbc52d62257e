-- ===== src/Cockpit.antt =====
-- The flight side with the instruments that it reads: `setupDevice` and `setupController` of
-- chicken/chicken.cpp make one `VirtualImu`, which the radio writes and `ADI` (chicken/instruments/adi.cpp)
-- reads before it falls back to `Imu` (chicken/device/imu.cpp). A turn is a round of one of the threads.
--
-- `ADI` is asked at the places where the code asks it and no others, since a question may put the
-- device out of service. Each question comes with what `millis()` returns.
pub mod Received
pub mod Sensed
mod Tests
use cooboc.Base.{ℕ, Bool, true, false, Option, List, [], ◌∷◌, if◌then◌else◌}
use cooboc.Base.Int.{pos_part}
use cooboc.Float.{Float}
use cooboc.Imu.{ImuAttitude, VirtualImu, get_attitude}
use cooboc.Servo.{Mavlink}
use cooboc.Status.{navigates}
use cooboc.Status
use cooboc.Iic.{Bus}
use cooboc.Radio.{AttitudeFields, Tick}
use cooboc.Radio
use cooboc.Fusion.{Sample}
use cooboc.Fusion
use cooboc.Flight.{
  Flight, attitude_navigator, takes_over, status_step, attitude_step, manully_step, controller_step,
  fetch_step, write_step, tunning_step,
}
use cooboc.Flight

module _ (F : Float) (L : Mavlink) (fields : AttitudeFields F L) where
  -- The device that the radio and `ADI` share is `radio.virtual_imu`.
  pub record Cockpit : Type 0 where
    pub flight : Flight F L
    pub radio : Radio.Radio F L fields
    pub imu : Fusion.Imu F
    pub bus : Bus

  -- The rounds of the flight side's threads, with the clock at each question to `ADI`.
  pub data FlightTurn : Type 0 where
    status_turn : ℕ → ℕ → FlightTurn
    attitude_turn controller_turn : ℕ → FlightTurn
    manully_turn write_turn : FlightTurn
    fetch_turn : List (List ℕ) → FlightTurn
    tunning_turn : F.Double → F.Double → F.Double → FlightTurn

  pub data Turn : Type 0 where
    flight_turn : FlightTurn → Turn
    radio_turn : List (List Tick) → Turn
    sense_turn : Sample → Turn

  -- Whether a round of the status controller takes the attitude navigator over.
  pub will_take_over : Flight F L → Bool
  unfolding takes_over
  will_take_over f =
      takes_over
        (Status.work (record (f.status) { log = [] })
          (pos_part f.servo.raw_servo_signal.status)).log

  -- A round on the flight side, and what becomes of the shared device. `onTakeover` asks twice, in
  -- `reset` and after it.
  pub fly :
      Flight F L
      → Option (VirtualImu F)
      → ImuAttitude F
      → FlightTurn
      → Flight F L × Option (VirtualImu F)
  unfolding will_take_over
  fly f v sensed (status_turn now later) =
      let (v1, a) = get_attitude F v sensed now in
      let (v2, current) = get_attitude F v1 sensed later in
      (Flight.step F L f (status_step a current), if will_take_over f then v2 else v)
  fly f v sensed (attitude_turn now) =
      let (v1, a) = get_attitude F v sensed now in
      (Flight.step F L f (attitude_step a), if navigates f.status attitude_navigator then v1 else v)
  fly f v sensed (controller_turn now) =
      let (v1, a) = get_attitude F v sensed now in
      (Flight.step F L f (controller_step a), if f.controller.is_enabled then v1 else v)
  fly f v sensed manully_turn = (Flight.step F L f manully_step, v)
  fly f v sensed write_turn = (Flight.step F L f write_step, v)
  fly f v sensed (fetch_turn chunks) = (Flight.step F L f (fetch_step chunks), v)
  fly f v sensed (tunning_turn p i d) = (Flight.step F L f (tunning_step p i d), v)

  pub step : Cockpit → Turn → Cockpit
  unfolding fly
  step c (flight_turn t) =
      let (f, v) = fly c.flight c.radio.virtual_imu (Fusion.get_attitude F c.imu) t in
      record c { flight = f; radio = record (c.radio) { virtual_imu = v } }
  step c (radio_turn chunks) = record c { radio = Radio.fetch_data F L fields c.radio chunks }
  step c (sense_turn sample) =
      let (i, b) = Fusion.update F c.imu c.bus sample in record c { imu = i; bus = b }

  pub run : Cockpit → List Turn → Cockpit
  unfolding step
  run c [] = c
  run c (t ∷ ts) = run (step c t) ts
