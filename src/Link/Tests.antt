-- ===== src/Link/Tests.antt =====
-- A report of the board that reaches the driver.
use cooboc.Base.{ℕ, refl, true, false, [], ◌∷◌, arith, replicate, length-replicate}
use cooboc.Base.Int.{pos}
use cooboc.HrDriver.{HrDriver}
use cooboc.Link.{
  Clock, Sample, IsSample, IsTimely, IsWaiting, Shows, read_samples, last_sample_shown,
}

abbrev driver : HrDriver
driver = record {
  is_read_thread_running = true;
  has_new_data = false;
  hr_position = pos 0;
  dist0 = 0;
  dist1 = 0;
  read_data_buffer = replicate 1024 0;
  modem = record {
    is_packet_locked = false;
    packet_index = 0;
    payload_index = 0;
    payload_size = 0;
    last_decode_time = 0;
    payload_buffer = replicate 1024 0;
  };
  sent = [];
}

driver-IsWaiting : IsWaiting driver
driver-IsWaiting = record { unlocked = refl; storage = length-replicate {A = ℕ} 1024 0 }

-- All bytes of a report at one time.
abbrev clock : Clock
clock i = (70000, 70000)

clock-IsTimely : IsTimely clock
clock-IsTimely i = omega arith

abbrev first : Sample
first = record { clock = clock; position = 5; d1 = 6; d2 = 7 }

abbrev second : Sample
second = record { clock = clock; position = 65535; d1 = 1; d2 = 2 }

first-IsSample : IsSample first
first-IsSample = record {
  timely = clock-IsTimely;
  position_fits = omega arith;
  d1_fits = omega arith;
  d2_fits = omega arith;
}

second-IsSample : IsSample second
second-IsSample = record {
  timely = clock-IsTimely;
  position_fits = omega arith;
  d1_fits = omega arith;
  d2_fits = omega arith;
}

last_sample_shown_example : Shows (read_samples driver (first ∷ second ∷ [])) 65535 1 2
last_sample_shown_example =
    last_sample_shown driver (first ∷ []) second driver-IsWaiting (first-IsSample, tt)
      second-IsSample
