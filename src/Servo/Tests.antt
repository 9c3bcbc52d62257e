-- ===== src/Servo/Tests.antt =====
-- Runs of chicken/device/driver/serial_servo_driver.cpp over a MAVLink whose messages are one
-- byte long.
use cooboc.Base.{ℕ, ◌+◌, ◌≡◌, true, some, [], ◌∷◌}
use cooboc.Base.Int.{pos}
use cooboc.Servo.{
  Mavlink, ServoDriver, default_signal, override_channels, fetch_servos, output_mode_continuos,
}
use cooboc.Servo.Signal.{messages, last_channels, fetch_servos-channels}

-- A byte is the number of its message, and the channels count up from it.
abbrev pub single : Mavlink
single = record {
  Channel = ℕ;
  Message = ℕ;
  msgid = λ m. m;
  parse_char = λ c b. (c + 1, some b);
  chan_raw = λ m i. m + i;
  pack_override = λ a b c d s t. (t + 1, a ∷ b ∷ c ∷ d ∷ t ∷ []);
}

abbrev driver : ServoDriver single
driver = record {
  is_read_thread_running = true;
  is_write_thread_running = true;
  output_mode = output_mode_continuos;
  receiver = 0;
  transmitter = 5;
  raw_servo_signal = default_signal;
  override_servo_signal = default_signal;
  sent = [];
}

fetch_servos-channels_example :
    override_channels
      (fetch_servos single driver ((1 ∷ 35 ∷ []) ∷ (7 ∷ []) ∷ [] ∷ (35 ∷ []) ∷ [])).raw_servo_signal
    ≡ pos 36 ∷ pos 37 ∷ pos 38 ∷ pos 39 ∷ pos 40 ∷ pos 41 ∷ pos 42 ∷ pos 43 ∷ []
unfolding messages last_channels
fetch_servos-channels_example =
    fetch_servos-channels single driver ((1 ∷ 35 ∷ []) ∷ (7 ∷ []) ∷ [] ∷ (35 ∷ []) ∷ [])
