-- ===== src/Modem.antt =====
-- The packet decoder `SaModem` (chicken/utils/sa_modem.cpp): one byte at a time, in the order
-- 'S', 'A', payload size, payload, check sum.
--
-- `unsigned long` has 32 bits on the target, so a time is a number below 2 ^ 32 and a difference
-- of times wraps. The clock is read from outside: each byte comes with the two readings of
-- `millis()` that `demodulateByte` makes for it.
pub mod Frame
pub mod Packet
pub mod Invariant
pub mod Rejection
pub mod Fallthrough
pub mod Progress
mod Tests
use cooboc.Base.{
  ℕ, zero, suc, ◌+◌, ◌-◌, ◌%◌, ◌^◌, Bool, true, false, List, [], ◌∷◌, bit_xor, ltb, ◌==◌, length,
  if◌then◌else◌, get_or, set, take,
}

abbrev pub leading_byte : ℕ
leading_byte = b'S'

abbrev pub check_byte : ℕ
check_byte = b'A'

abbrev packet_timeout : ℕ
packet_timeout = 500

-- `last_decode_time` is `lastDecodeTime`; `payload_buffer` has 1024 bytes.
pub record Modem : Type 0 where
  pub is_packet_locked : Bool
  pub packet_index : ℕ
  pub payload_index : ℕ
  pub payload_size : ℕ
  pub last_decode_time : ℕ
  pub payload_buffer : List ℕ

-- The constructor. The buffer's bytes are not initialised, so they are given.
unfoldable pub new_modem : List ℕ → Modem
new_modem storage = record {
  is_packet_locked = false;
  packet_index = 0;
  payload_index = 0;
  payload_size = 0;
  last_decode_time = 0;
  payload_buffer = storage;
}

-- One call of `demodulateByte`: its byte, and what the first and the second `millis()` return.
pub record Tick : Type 0 where
  pub byte : ℕ
  pub first : ℕ
  pub second : ℕ

-- `unsigned long` subtraction.
abbrev pub elapsed : ℕ → ℕ → ℕ
elapsed since now = (now + 2 ^ 32 - since) % 2 ^ 32

reset_status : Modem → Modem
reset_status m = record m {
  packet_index = 0;
  payload_index = 0;
  is_packet_locked = false;
  payload_size = 0;
}

-- The loop over `mPayloadBuffer[i]` of case 4, with `left` rounds to go.
pub xor_from : ℕ → ℕ → ℕ → List ℕ → ℕ
xor_from zero i crc buffer = crc
xor_from (suc left) i crc buffer = xor_from left (i + 1) (bit_xor crc (get_or buffer i 0)) buffer

-- case 2
read_size : Modem → ℕ → Modem × Bool
read_size m byte =
    let m' = record m { payload_size = byte; payload_index = 0; packet_index = 3 } in
    (if byte == 0 then record m' { packet_index = 4 } else m', false)

-- case 1: without a `break` a byte other than 'A' goes on into case 2.
read_check : Modem → ℕ → Modem × Bool
unfolding read_size
read_check m byte =
    if byte == check_byte then (record m { packet_index = 2 }, false) else read_size m byte

-- case 3
read_payload : Modem → ℕ → Modem × Bool
read_payload m byte =
    let m' = record m {
      payload_buffer = set m.payload_buffer m.payload_index byte;
      payload_index = m.payload_index + 1;
    } in
    (
      if m'.payload_index == m'.payload_size
          then record m' { packet_index = m'.packet_index + 1 }
          else m',
      false,
    )

-- case 4
read_crc : Modem → ℕ → Modem × Bool
unfolding xor_from reset_status
read_crc m byte =
    if byte == xor_from m.payload_size 0 0 m.payload_buffer
    then (record m { is_packet_locked = false }, true)
    else (reset_status m, false)

-- The `switch` on `mPacketIndex`.
dispatch : Modem → ℕ → Modem × Bool
unfolding reset_status read_check read_size read_payload read_crc
dispatch m byte =
    if m.packet_index == 0
    then (reset_status m, false)
    else if m.packet_index == 1
    then read_check m byte
    else if m.packet_index == 2
    then read_size m byte
    else if m.packet_index == 3
    then read_payload m byte
    else if m.packet_index == 4
    then read_crc m byte
    else (reset_status m, false)

-- The `else` branch: no packet is locked.
seek_leading : Modem → ℕ → Modem × Bool
unfolding reset_status
seek_leading m byte =
    if byte == leading_byte
    then (record m { packet_index = 1; payload_index = 0; is_packet_locked = true }, false)
    else (reset_status m, false)

pub demodulate_byte : Modem → Tick → Modem × Bool
unfolding dispatch seek_leading reset_status
demodulate_byte m t =
    let m' = record m { last_decode_time = t.first } in
    if m.is_packet_locked
    then (if ltb packet_timeout (elapsed m.last_decode_time t.second)
        then (reset_status m', false)
        else dispatch m' t.byte)
    else seek_leading m' t.byte

-- What `memcpy` puts into the caller's buffer; its length is the result.
unfoldable pub get_last_payload : Modem → List ℕ
get_last_payload m = take m.payload_size m.payload_buffer

-- A run over a sequence of bytes, with what each call returns.
unfoldable pub feed : Modem → List Tick → Modem × List Bool
feed m [] = (m, [])
feed m (t ∷ ts) =
    let (m', found) = demodulate_byte m t in let (last, rest) = feed m' ts in (last, found ∷ rest)
