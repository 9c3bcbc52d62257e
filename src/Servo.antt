-- ===== src/Servo.antt =====
-- The servo link: `SerialServoDriver` (chicken/device/driver/serial_servo_driver.cpp), which
-- `ServoController` passes on. MAVLink is another project's library and a parameter here.
pub mod Flag
pub mod Signal
pub mod Threads
mod Tests
use cooboc.Base.{
  ℕ, zero, suc, Bool, true, false, Option, none, some, List, [], ◌∷◌, ◌++◌, ◌==◌, if◌then◌else◌,
}
use cooboc.Base.Int.{ℤ, pos}

abbrev pub default_servo_value : ℤ
default_servo_value = pos 1500

abbrev default_throttle_value : ℤ
default_throttle_value = pos 900

abbrev mavlink_target_system : ℕ
mavlink_target_system = 250

abbrev mavlink_component_id : ℕ
mavlink_component_id = 0

-- SERVO_OUTPUT_MODE_DISABLE, _MANULLY and _CONTINUOS
abbrev pub output_mode_disable : ℕ
output_mode_disable = 1

abbrev pub output_mode_manully : ℕ
output_mode_manully = 2

abbrev pub output_mode_continuos : ℕ
output_mode_continuos = 3

-- MAVLINK_MSG_ID_RC_CHANNELS_RAW
abbrev pub msg_id_rc_channels_raw : ℕ
msg_id_rc_channels_raw = 35

pub record ServoSignal : Type 0 where
  pub aileron : ℤ
  pub elevator : ℤ
  pub throttle : ℤ
  pub rudder : ℤ
  pub flap : ℤ
  pub status : ℤ
  pub aux1 : ℤ
  pub aux2 : ℤ

abbrev pub default_signal : ServoSignal
default_signal = record {
  aileron = default_servo_value;
  elevator = default_servo_value;
  throttle = default_throttle_value;
  rudder = default_servo_value;
  flap = default_servo_value;
  status = default_servo_value;
  aux1 = default_servo_value;
  aux2 = default_servo_value;
}

-- The channels of an override message, from the first to the eighth.
abbrev pub override_channels : ServoSignal → List ℤ
override_channels s =
    s.aileron ∷ s.elevator ∷ s.throttle ∷ s.rudder ∷ s.flap ∷ s.status ∷ s.aux1 ∷ s.aux2 ∷ []

-- What is used of MAVLink: the parser of a channel, byte by byte, the field `chan<i>_raw` of a
-- message read as RC_CHANNELS_RAW, and the bytes of an RC_CHANNELS_OVERRIDE message, of these
-- channels, from and to the given system and component, which also moves the sequence number.
pub record Mavlink : Type 1 where
  pub Channel : Type 0
  pub Message : Type 0
  pub msgid : Message → ℕ
  pub parse_char : Channel → ℕ → Channel × Option Message
  pub chan_raw : Message → ℕ → ℕ
  pub pack_override : ℕ → ℕ → ℕ → ℕ → List ℤ → Channel → Channel × List ℕ

module _ (L : Mavlink) where
  open L use {Channel, Message, msgid, parse_char, chan_raw, pack_override}

  -- `transmitter` is the state behind the packing functions; `sent` what went to the serial port.
  pub record ServoDriver : Type 0 where
    pub is_read_thread_running : Bool
    pub is_write_thread_running : Bool
    pub output_mode : ℕ
    pub receiver : Channel
    pub transmitter : Channel
    pub raw_servo_signal : ServoSignal
    pub override_servo_signal : ServoSignal
    pub sent : List ℕ

  pub new_servo_driver : Channel → Channel → ServoDriver
  new_servo_driver receiver transmitter = record {
    is_read_thread_running = true;
    is_write_thread_running = true;
    output_mode = output_mode_manully;
    receiver = receiver;
    transmitter = transmitter;
    raw_servo_signal = default_signal;
    override_servo_signal = default_signal;
    sent = [];
  }

  emit_signal : ServoDriver → ServoDriver
  emit_signal d =
      let (t, bytes) =
        pack_override mavlink_target_system mavlink_component_id mavlink_target_system
          mavlink_component_id (override_channels d.override_servo_signal) d.transmitter in
      record d { transmitter = t; sent = d.sent ++ bytes }

  unfoldable pub write_servos : ServoDriver → ServoDriver
  unfolding emit_signal
  write_servos d = if d.output_mode == output_mode_continuos then emit_signal d else d

  unfoldable pub set_override_servo_signal : ServoDriver → ServoSignal → ServoDriver
  unfolding emit_signal
  set_override_servo_signal d signal =
      let d' = record d { override_servo_signal = signal } in
      if d.output_mode == output_mode_manully then emit_signal d' else d'

  pub set_output_mode : ServoDriver → ℕ → ServoDriver
  set_output_mode d mode = record d { output_mode = mode }

  -- The eight assignments of `fetchServos`.
  pub rc_channels : Message → ServoSignal
  rc_channels m = record {
    aileron = pos (chan_raw m 1);
    elevator = pos (chan_raw m 2);
    throttle = pos (chan_raw m 3);
    rudder = pos (chan_raw m 4);
    flap = pos (chan_raw m 5);
    status = pos (chan_raw m 6);
    aux1 = pos (chan_raw m 7);
    aux2 = pos (chan_raw m 8);
  }

  -- `if(mavlink_parse_char(...))`
  pub take_message : ServoDriver → Option Message → ServoDriver
  unfolding rc_channels
  take_message d none = d
  take_message d (some m) =
      if msg_id_rc_channels_raw == msgid m then record d { raw_servo_signal = rc_channels m } else d

  pub fetch_byte : ServoDriver → ℕ → ServoDriver
  unfolding take_message
  fetch_byte d b =
      let (channel, message) = parse_char d.receiver b in
      take_message (record d { receiver = channel }) message

  pub fetch_bytes : ServoDriver → List ℕ → ServoDriver
  fetch_bytes d [] = d
  fetch_bytes d (b ∷ bs) = fetch_bytes (fetch_byte d b) bs

  -- `fetchServos`: the loop ends when `recv` gives no byte, and with the list none comes any more.
  pub fetch_servos : ServoDriver → List (List ℕ) → ServoDriver
  unfolding fetch_bytes
  fetch_servos d [] = d
  fetch_servos d ([] ∷ cs) = d
  fetch_servos d ((b ∷ bs) ∷ cs) = fetch_servos (fetch_bytes d (b ∷ bs)) cs
