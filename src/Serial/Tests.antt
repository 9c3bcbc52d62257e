-- ===== src/Serial/Tests.antt =====
-- The set-up of a port by chicken/device/driver/io/serial_handler.cpp.
use cooboc.Base.{◌≡◌, refl, true, false}
use cooboc.Serial.{Termios, new_serial_handler, set_baudrate, speed_among}

abbrev console : Termios
console = record {
  clocal = false;
  cread = false;
  parenb = true;
  cstopb = true;
  char_size = 7;
  crtscts = true;
  icanon = true;
  echo = true;
  echoe = true;
  isig = true;
  ixon = true;
  ixoff = true;
  ixany = true;
  opost = true;
  input_speed = 300;
  output_speed = 300;
  others = 5;
}

-- An unknown rate is taken for 9600.
unknown_rate : (set_baudrate (new_serial_handler console) 12345).options.output_speed ≡ 9600
unfolding set_baudrate speed_among
unknown_rate = refl

fast_rate : (set_baudrate (new_serial_handler console) 57600).options.input_speed ≡ 57600
unfolding set_baudrate speed_among
fast_rate = refl
