-- ===== src/HrDriver/Tests.antt =====
-- The constructor of chicken/device/driver/hr_driver.cpp.
use cooboc.Base.{◌≡◌, refl, true, false, [], replicate}
use cooboc.Base.Int.{pos}
use cooboc.Modem.{new_modem}
use cooboc.HrDriver.{HrDriver, new_hr_driver}

abbrev new : HrDriver
new = record {
  is_read_thread_running = true;
  has_new_data = false;
  hr_position = pos 0;
  dist0 = 0;
  dist1 = 0;
  read_data_buffer = replicate 8 0;
  modem = record {
    is_packet_locked = false;
    packet_index = 0;
    payload_index = 0;
    payload_size = 0;
    last_decode_time = 0;
    payload_buffer = replicate 8 0;
  };
  sent = [];
}

is_new : new_hr_driver (replicate 8 0) (replicate 8 0) ≡ new
unfolding new_hr_driver new_modem
is_new = refl
