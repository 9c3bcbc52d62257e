-- ===== src/Cockpit/Tests.antt =====
-- Runs of the flight side of chicken/chicken.cpp with its instruments.
use cooboc.Base.{
  ℕ, ◌≡◌, ◌+◌, refl, Bool, if◌then◌else◌, Option, true, false, some, none, List, [], ◌∷◌, arith,
}
use cooboc.Base.Int.{pos}
use cooboc.Float.Sample.{whole}
use cooboc.Imu.{ImuAttitude, VirtualImu, get_attitude, update_attitude}
use cooboc.Flight.{Flight}
use cooboc.Flight.Sample.{single, level, flying}
use cooboc.Iic.{Answer}
use cooboc.Iic.Transactions.{start_bus}
use cooboc.Bmx055.{AxisReads}
use cooboc.Radio.{AttitudeFields, Radio, Tick, fetch_data, fetch_byte, take_message}
use cooboc.Radio.Shown.{last_attitude}
use cooboc.Fusion.{Sample, new_imu}
use cooboc.Cockpit.{
  Cockpit, Turn, status_turn, controller_turn, flight_turn, radio_turn, sense_turn, fly, step, run,
}
use cooboc.Cockpit.Received.{
  IsFresh, IsFreshIf, fresh_anyway, FreshIn, KeepsFresh, without_sensing,
  received_attitudes_suffice,
}
use cooboc.Cockpit.Sensed.{NoneReceived, without_radio, without_device, sensed_attitudes_suffice}

abbrev fields : AttitudeFields whole single
fields = record { pitch = λ m. m + 1; roll = λ m. m + 2; yaw = λ m. m }

abbrev device : VirtualImu whole
device = record { in_service = true; last_valid_data_time = 1000; attitude = level }

abbrev radio : Radio whole single fields
radio = record { is_radio_running = true; virtual_imu = some device; receiver = 7; sent = [] }

abbrev cockpit : Cockpit whole single fields
cockpit = record { flight = flying 1800; radio = radio; imu = new_imu whole; bus = start_bus }

abbrev tick : ℕ → ℕ → Tick
tick byte now = record { byte = byte; now = now }

abbrev silent : Answer
silent = record { accepted = true; written = pos 1; read_count = pos 1; bytes = 0 ∷ [] }

abbrev silent_axis : AxisReads
silent_axis = record { first = silent; second = silent; stale_msb = pos 0; stale_lsb = 0 }

abbrev sample : Sample
sample = record {
  acc = record { x = silent_axis; y = silent_axis; z = silent_axis };
  gyro = record { x = silent_axis; y = silent_axis; z = silent_axis };
  mag = record { x = silent; y = silent; z = silent };
}

-- The radio's device before it has received an attitude.
abbrev unused : Radio whole single fields
unused = record radio { virtual_imu = some (record device { in_service = false }) }

-- No navigator has taken over yet, and the controller is not enabled.
abbrev on_ground : Flight whole single
on_ground =
    let f = flying 1800 in
    record f {
      status = record (f.status) { flight_status = 0; fleet = λ id. false };
      controller = record (f.controller) { is_enabled = false };
    }

abbrev before_radio : Cockpit whole single fields
before_radio = record cockpit { flight = on_ground; radio = unused }

-- Out of service the device is not asked for by the controller, which is not enabled. An attitude
-- comes at 1400, the status controller takes the attitude navigator over at 1500, and the controller
-- asks at 1900.
abbrev turns : List (Turn whole single fields)
turns =
    flight_turn (controller_turn 1300)
    ∷ radio_turn ((tick 30 1400 ∷ []) ∷ [])
    ∷ sense_turn sample
    ∷ flight_turn (status_turn 1500 1500)
    ∷ flight_turn (controller_turn 1900)
    ∷ []

-- The status controller leaves the device as it was, whether it asked or not.
still-IsFresh :
    (asked : Bool) (a : ImuAttitude whole)
    → let v : Option (VirtualImu whole) =
        some (record { in_service = true; last_valid_data_time = 1400; attitude = a }) in
      IsFresh whole single fields (if asked then v else v) 1900
unfolding IsFresh
still-IsFresh true a = (refl, omega arith)
still-IsFresh false a = (refl, omega arith)

received_attitudes_suffice_example :
    (run whole single fields before_radio turns).flight
    ≡ (run whole single fields before_radio (
        flight_turn (controller_turn 1300)
        ∷ radio_turn ((tick 30 1400 ∷ []) ∷ [])
        ∷ flight_turn (status_turn 1500 1500)
        ∷ flight_turn (controller_turn 1900)
        ∷ [])).flight
unfolding KeepsFresh FreshIn IsFreshIf IsFresh without_sensing step fly get_attitude fetch_data
    fetch_byte take_message update_attitude
received_attitudes_suffice_example =
    received_attitudes_suffice whole single fields before_radio (new_imu whole) start_bus turns (
      tt,
      (
        (
          fresh_anyway whole single fields _ _ 1500 (refl, omega arith),
          fresh_anyway whole single fields _ _ 1500 (refl, omega arith),
        ),
        (fresh_anyway whole single fields _ _ 1900 (still-IsFresh _ _), tt),
      ),
    )

abbrev late_device : VirtualImu whole
late_device = record device { in_service = false }

-- A heartbeat comes, and no attitude.
abbrev late_turns : List (Turn whole single fields)
late_turns =
    flight_turn (controller_turn 1600)
    ∷ radio_turn ((tick 0 1650 ∷ []) ∷ [])
    ∷ sense_turn sample
    ∷ flight_turn (controller_turn 1700)
    ∷ []

sensed_attitudes_suffice_example :
    (run whole single fields
      (record cockpit { radio = record radio { virtual_imu = some late_device } })
      late_turns).flight
    ≡ (run whole single fields
        (record cockpit { radio = record radio { virtual_imu = none } })
        (flight_turn (controller_turn 1600)
          ∷ sense_turn sample
          ∷ flight_turn (controller_turn 1700)
          ∷ [])).flight
unfolding NoneReceived without_radio without_device last_attitude step
sensed_attitudes_suffice_example =
    sensed_attitudes_suffice whole single fields
      (record cockpit { radio = record radio { virtual_imu = some late_device } }) late_device radio
      late_turns refl refl (refl, tt)
