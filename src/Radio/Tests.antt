-- ===== src/Radio/Tests.antt =====
-- Runs of chicken/device/radio.cpp over a MAVLink whose messages are one byte long.
use cooboc.Base.{ℕ, ◌≡◌, ◌+◌, ◌*◌, refl, false, none, some, List, [], ◌∷◌}
use cooboc.Float.Sample.{whole}
use cooboc.Imu.{ImuAttitude, VirtualImu, get_attitude}
use cooboc.Servo.{Mavlink}
use cooboc.Radio.{AttitudeFields, Radio, Tick, attitude_of, fetch_data, print}
use cooboc.Radio.Shown.{last_attitude, shown, radio_attitude_shown}

-- A byte is the number of its message.
abbrev single : Mavlink
single = record {
  Channel = ℕ;
  Message = ℕ;
  msgid = λ m. m;
  parse_char = λ c b. (c + 1, some b);
  chan_raw = λ m i. m;
  pack_override = λ a b c d s t. (t + 1, []);
}

abbrev fields : AttitudeFields whole single
fields = record { pitch = λ m. m + 1; roll = λ m. m + 2; yaw = λ m. m * 3 }

abbrev zero_attitude : ImuAttitude whole
zero_attitude = record { pitch = 0; roll = 0; heading = 0 }

abbrev device : VirtualImu whole
device = record { in_service = false; last_valid_data_time = 0; attitude = zero_attitude }

abbrev radio : Radio whole single fields
radio = record { is_radio_running = false; virtual_imu = none; receiver = 7; sent = [] }

abbrev tick : ℕ → ℕ → Tick
tick byte now = record { byte = byte; now = now }

abbrev chunks : List (List Tick)
chunks = (tick 30 1000 ∷ tick 4 1001 ∷ []) ∷ (tick 30 1400 ∷ []) ∷ [] ∷ (tick 30 1500 ∷ []) ∷ []

-- The second attitude is shown at 1900, and not at 1901.
radio_attitude_shown_example :
    (get_attitude whole
      (fetch_data whole single fields
        (record radio { virtual_imu = some device })
        chunks).virtual_imu
      zero_attitude
      1900).1
    ≡ record { pitch = 31; roll = 32; heading = 90 }
unfolding last_attitude shown attitude_of
radio_attitude_shown_example =
    radio_attitude_shown whole single fields radio device chunks zero_attitude 1900

string_printed :
    (print whole single fields radio (b'o' ∷ b'k' ∷ 0 ∷ b'x' ∷ [])).sent ≡ b'o' ∷ b'k' ∷ []
unfolding print
string_printed = refl
