-- ===== src/Serial.antt =====
-- The serial ports: `SerialHandler` (chicken/device/driver/io/serial_handler.cpp). What `tcgetattr` finds
-- before is given, and what `read` returns.
pub mod Line
mod Tests
use cooboc.Base.{ℕ, Bool, true, false, List, [], ◌∷◌, ◌++◌, ◌==◌, if◌then◌else◌}

-- The flags of `termios` that the code changes, each on or off; CSIZE as the bits of a character, the
-- two speeds as their baud rates, and all else in one number.
pub record Termios : Type 0 where
  pub clocal : Bool
  pub cread : Bool
  pub parenb : Bool
  pub cstopb : Bool
  pub char_size : ℕ
  pub crtscts : Bool
  pub icanon : Bool
  pub echo : Bool
  pub echoe : Bool
  pub isig : Bool
  pub ixon : Bool
  pub ixoff : Bool
  pub ixany : Bool
  pub opost : Bool
  pub input_speed : ℕ
  pub output_speed : ℕ
  pub others : ℕ

-- `is_delayed` is the absence of FNDELAY on the file: a read waits for a byte.
pub record SerialHandler : Type 0 where
  pub is_block_read : Bool
  pub is_delayed : Bool
  pub options : Termios
  pub written : List ℕ

-- The changes of the constructor, in its order.
raw_8n1 : Termios → Termios
raw_8n1 o =
    let line = record o { clocal = true; cread = true } in
    let form = record line { parenb = false; cstopb = false; char_size = 8 } in
    let free = record form { crtscts = false } in
    let raw = record free { icanon = false; echo = false; echoe = false; isig = false } in
    let plain = record raw { ixon = false; ixoff = false; ixany = false } in
    record plain { opost = false }

pub new_serial_handler : Termios → SerialHandler
unfolding raw_8n1
new_serial_handler before = record {
  is_block_read = false;
  is_delayed = false;
  options = raw_8n1 before;
  written = [];
}

pub set_block_read : SerialHandler → Bool → SerialHandler
set_block_read h is_block_read = record h {
  is_block_read = is_block_read;
  is_delayed = is_block_read;
}

-- The cases of the `switch` in `setBaudrate`.
abbrev baudrates : List ℕ
baudrates =
    0 ∷ 50 ∷ 75 ∷ 110 ∷ 134 ∷ 150 ∷ 200 ∷ 300 ∷ 600 ∷ 1200 ∷ 1800 ∷ 2400 ∷ 4800 ∷ 9600 ∷ 19200
    ∷ 38400 ∷ 57600 ∷ 115200 ∷ []

-- The case of the rate, and else 9600.
pub speed_among : List ℕ → ℕ → ℕ
speed_among [] baudrate = 9600
speed_among (b ∷ bs) baudrate =
    let rest = speed_among bs baudrate in if baudrate == b then b else rest

pub set_baudrate : SerialHandler → ℕ → SerialHandler
unfolding speed_among
set_baudrate h baudrate =
    let speed = speed_among baudrates baudrate in
    record h { options = record (h.options) { input_speed = speed; output_speed = speed } }

send : SerialHandler → List ℕ → SerialHandler
send h buf = record h { written = h.written ++ buf }

-- The port of `HrDriver` (chicken/device/driver/hr_driver.cpp), as its constructor sets it.
pub hr_port : Termios → SerialHandler
unfolding set_baudrate set_block_read new_serial_handler
hr_port before = set_baudrate (set_block_read (new_serial_handler before) true) 9600
