-- ===== src/Flight/Sample.antt =====
-- A flight side of whole numbers for concrete runs of chicken/chicken.cpp.
use cooboc.Base.{ℕ, ◌+◌, ◌==◌, true, some, [], ◌∷◌}
use cooboc.Base.Int.{pos}
use cooboc.Float.Sample.{whole}
use cooboc.Imu.{ImuAttitude}
use cooboc.Servo.{Mavlink, ServoDriver, default_signal}
use cooboc.Pid.{Pid}
use cooboc.Flight.{Flight}

abbrev pub single : Mavlink
single = record {
  Channel = ℕ;
  Message = ℕ;
  msgid = λ m. m;
  parse_char = λ c b. (c + 1, some b);
  chan_raw = λ m i. m + i;
  pack_override = λ a b c d s t. (t + 1, a ∷ b ∷ c ∷ d ∷ t ∷ []);
}

abbrev pub level : ImuAttitude whole
level = record { pitch = 0; roll = 0; heading = 3 }

abbrev pub pid : Pid whole
pid = record {
  kp = 2;
  ki = 1;
  kd = 0;
  integral_buffer = 7 ∷ 8 ∷ 9 ∷ [];
  integral_window_size = 3;
  integral_buffer_index = 2;
}

abbrev pub driver : ServoDriver single
driver = record {
  is_read_thread_running = true;
  is_write_thread_running = true;
  output_mode = 2;
  receiver = 0;
  transmitter = 5;
  raw_servo_signal = default_signal;
  override_servo_signal = default_signal;
  sent = [];
}

-- The attitude navigator flies, and the pilot's channel stands at `channel`.
abbrev pub flying : ℕ → Flight whole single
flying channel = record {
  status = record {
    flight_status = 2;
    navigators = some 2 ∷ some 1 ∷ some 2 ∷ [];
    fleet = λ id. id == 2;
    log = [];
  };
  navigator = record { pitch_target = 0; roll_target = 0; yaw_target = 0 };
  controller = record {
    is_enabled = true;
    servo = default_signal;
    pitch_pid = pid;
    roll_pid = pid;
    yaw_pid = pid;
    target_pitch = 5;
    target_roll = 7;
    target_yaw = 0;
    last_heading = 1;
  };
  servo = record driver {
    raw_servo_signal = record default_signal { aileron = pos 1234; status = pos channel };
  };
}
