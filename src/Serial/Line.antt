-- ===== src/Serial/Line.antt =====
-- The two ends of the line between chicken/device/driver/hr_driver.cpp and arduino/hr/hr.ino.
use cooboc.Base.{ℕ, ◌≡◌, refl, true, false, Option, none, some, List, [], ◌∷◌}
use cooboc.Firmware.{Effect, serial_begin, digital_write, delay, pin_mode, setup}
use cooboc.Serial.{Termios, hr_port, set_baudrate, set_block_read, new_serial_handler, speed_among}

-- The rate that the board's port has after these effects.
board_rate : Option ℕ → List Effect → Option ℕ
board_rate rate [] = rate
board_rate rate (serial_begin baud ∷ es) = board_rate (some baud) es
board_rate rate (digital_write pin level ∷ es) = board_rate rate es
board_rate rate (delay time ∷ es) = board_rate rate es
board_rate rate (pin_mode pin out ∷ es) = board_rate rate es

-- Whatever the port was set to before, the constructor of `HrDriver` leaves it waiting for bytes, with
-- eight bits, no parity and one stop bit, unaltered in both directions and without flow control, at
-- the rate in both directions at which the board's `setup` opens its own port.
ends_agree :
    (before : Termios)
    → let h = hr_port before in
      (h.is_delayed ≡ true)
      × (h.options ≡ record {
        clocal = true;
        cread = true;
        parenb = false;
        cstopb = false;
        char_size = 8;
        crtscts = false;
        icanon = false;
        echo = false;
        echoe = false;
        isig = false;
        ixon = false;
        ixoff = false;
        ixany = false;
        opost = false;
        input_speed = 9600;
        output_speed = 9600;
        others = before.others;
      })
      × (board_rate none setup.1 ≡ some h.options.output_speed)
unfolding hr_port set_baudrate set_block_read new_serial_handler speed_among board_rate setup
ends_agree before = (refl, refl, refl)
