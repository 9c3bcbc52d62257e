-- ===== src/HrDriver.antt =====
-- The driver of the head rest's sensor board (chicken/device/driver/hr_driver.cpp): packets of the
-- serial port `/dev/ttyUSB0` are decoded into a position and two distances, and commands are sent.
--
-- `recv` and the clock lie outside: a chunk is the list of the bytes that one `recv` returned, each
-- with its clock readings (none, where `recv` returned 0 or an error). `sent` is what went out.
pub mod Packets
mod Tests
use cooboc.Base.{
  ℕ, zero, suc, ◌+◌, ◌%◌, ◌^◌, Bool, true, false, List, [], ◌∷◌, ◌++◌, bit_or, get_or, drop, length,
  if◌then◌else◌,
}
use cooboc.Base.Bits.{◌<<<◌}
use cooboc.Base.Int.{ℤ, pos, signed16}
use cooboc.Modem.{Modem, Tick, new_modem, demodulate_byte, get_last_payload}

-- `mDist` is `dist0` and `dist1`. The two buffers are those of the decoder and of the driver.
pub record HrDriver : Type 0 where
  pub is_read_thread_running : Bool
  pub has_new_data : Bool
  pub hr_position : ℤ
  pub dist0 : ℕ
  pub dist1 : ℕ
  pub read_data_buffer : List ℕ
  pub modem : Modem
  pub sent : List ℕ

-- The constructor, over the storage of the two buffers.
unfoldable pub new_hr_driver : List ℕ → List ℕ → HrDriver
unfolding new_modem
new_hr_driver payload_storage data_storage = record {
  is_read_thread_running = true;
  has_new_data = false;
  hr_position = pos 0;
  dist0 = 0;
  dist1 = 0;
  read_data_buffer = data_storage;
  modem = new_modem payload_storage;
  sent = [];
}

-- `memcpy` of the payload to the front of the caller's buffer.
abbrev copy_to_front : List ℕ → List ℕ → List ℕ
copy_to_front payload buffer = payload ++ drop (length payload) buffer

-- `int16_t`: `hrPos <<= 8` keeps 16 bits.
abbrev position_bits : List ℕ → ℕ
position_bits b = bit_or ((get_or b 1 0 <<< 8) % 2 ^ 16) (get_or b 0 0)

-- `int`: byte `i + 1` above byte `i`.
abbrev distance_bits : List ℕ → ℕ → ℕ
distance_bits b i = bit_or (get_or b (i + 1) 0 <<< 8) (get_or b i 0)

-- The body of the `if` in `readData`: a packet is complete.
pub take_packet : HrDriver → HrDriver
unfolding get_last_payload
take_packet d =
    let b = copy_to_front (get_last_payload d.modem) d.read_data_buffer in
    record d {
      read_data_buffer = b;
      dist0 = distance_bits b 2;
      dist1 = distance_bits b 4;
      hr_position = signed16 (position_bits b);
      has_new_data = true;
    }

pub read_byte : HrDriver → Tick → HrDriver
unfolding take_packet
read_byte d t =
    let (m, found) = demodulate_byte d.modem t in
    let d' = record d { modem = m } in if found then take_packet d' else d'

-- `readData` over the bytes that `recv` returned.
pub read_data : HrDriver → List Tick → HrDriver
read_data d [] = d
read_data d (t ∷ ts) = read_data (read_byte d t) ts

-- `startReadHrDataThread`: one `readData` for each chunk, while the thread is to run.
pub read_chunks : HrDriver → List (List Tick) → HrDriver
read_chunks d [] = d
read_chunks d (c ∷ cs) =
    let rest = read_chunks (read_data d c) cs in if d.is_read_thread_running then rest else d

-- `getDistData` marks the data as read.
unfoldable pub get_dist_data : HrDriver → HrDriver × ℕ × ℕ
get_dist_data d = (record d { has_new_data = false }, d.dist0, d.dist1)

abbrev send : HrDriver → ℕ → HrDriver
send d b = record d { sent = d.sent ++ (b ∷ []) }

unfoldable pub move_up : HrDriver → HrDriver
move_up d = send d b'w'

unfoldable pub move_down : HrDriver → HrDriver
move_down d = send d b's'

unfoldable pub stop_move : HrDriver → HrDriver
stop_move d = send d b' '

unfoldable pub reset_position : HrDriver → HrDriver
reset_position d = send d b'r'
