-- ===== src/Radio.antt =====
-- The radio: `Radio` (chicken/device/radio.cpp), to which `SerialRadioDriver`
-- (chicken/device/driver/serial_radio_driver.cpp) passes the serial port on. MAVLink is a parameter.
--
-- Each byte comes with what `millis()` returns where it completes an attitude.
pub mod Shown
mod Tests
use cooboc.Base.{
  ℕ, zero, Bool, true, false, Option, none, some, List, [], ◌∷◌, ◌++◌, ◌==◌, if◌then◌else◌,
}
use cooboc.Float.{Float}
use cooboc.Imu.{ImuAttitude, VirtualImu, update_attitude}
use cooboc.Servo.{Mavlink}

-- MAVLINK_MSG_ID_ATTITUDE
abbrev pub msg_id_attitude : ℕ
msg_id_attitude = 30

-- `mavlink_msg_attitude_decode`: the fields that are used of a message.
pub record AttitudeFields (F : Float) (L : Mavlink) : Type 0 where
  pub pitch : L.Message → F.Double
  pub roll : L.Message → F.Double
  pub yaw : L.Message → F.Double

pub record Tick : Type 0 where
  pub byte : ℕ
  pub now : ℕ

module _ (F : Float) (L : Mavlink) (fields : AttitudeFields F L) where
  open L use {Channel, Message, msgid, parse_char}

  -- `none` is the NULL of a device that was not set; `sent` is what went to the serial port.
  pub record Radio : Type 0 where
    pub is_radio_running : Bool
    pub virtual_imu : Option (VirtualImu F)
    pub receiver : Channel
    pub sent : List ℕ

  -- The constructor, and `init`, which starts the thread.
  new_radio : Channel → Radio
  new_radio channel = record {
    is_radio_running = false;
    virtual_imu = none;
    receiver = channel;
    sent = [];
  }

  init : Radio → Channel → Radio
  init r channel = record r { is_radio_running = true; receiver = channel }

  -- `write`, and `print` with the bytes of the string before its end.
  write : Radio → List ℕ → Radio
  write r buf = record r { sent = r.sent ++ buf }

  c_string : List ℕ → List ℕ
  c_string [] = []
  c_string (c ∷ cs) = let rest = c_string cs in if c == 0 then [] else c ∷ rest

  print : Radio → List ℕ → Radio
  unfolding write c_string
  print r str = write r (c_string str)

  set_virtual_imu : Radio → VirtualImu F → Radio
  set_virtual_imu r v = record r { virtual_imu = some v }

  pub attitude_of : Message → ImuAttitude F
  attitude_of m = record { pitch = fields.pitch m; roll = fields.roll m; heading = fields.yaw m }

  pub update_virtual_imu : Option (VirtualImu F) → ImuAttitude F → ℕ → Option (VirtualImu F)
  update_virtual_imu none attitude now = none
  update_virtual_imu (some v) attitude now = some (update_attitude F v attitude now)

  -- The `switch` over the message.
  unfoldable pub take_message : Radio → Option Message → ℕ → Radio
  unfolding attitude_of update_virtual_imu
  take_message r none now = r
  take_message r (some m) now =
      if msgid m == msg_id_attitude
      then record r { virtual_imu = update_virtual_imu r.virtual_imu (attitude_of m) now }
      else r

  unfoldable pub fetch_byte : Radio → Tick → Radio
  unfolding take_message
  fetch_byte r t =
      let (channel, message) = parse_char r.receiver t.byte in
      take_message (record r { receiver = channel }) message t.now

  pub fetch_bytes : Radio → List Tick → Radio
  fetch_bytes r [] = r
  fetch_bytes r (t ∷ ts) = fetch_bytes (fetch_byte r t) ts

  -- `fetchData`: the loop ends when `recv` gives no byte, and with the list none comes any more.
  unfoldable pub fetch_data : Radio → List (List Tick) → Radio
  unfolding fetch_bytes
  fetch_data r [] = r
  fetch_data r ([] ∷ cs) = r
  fetch_data r ((t ∷ ts) ∷ cs) = fetch_data (fetch_bytes r (t ∷ ts)) cs
