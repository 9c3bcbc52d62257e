-- ===== src/Modem/Tests.antt =====
-- Runs of `SaModem` (chicken/utils/sa_modem.cpp) on concrete bytes.
use cooboc.Base.{
  ℕ, zero, suc, ◌-◌, ◌^◌, ◌<◌, All, inr, ◌≤◌, ◌≡◌, inl, refl, true, false, List, [], ◌∷◌, arith,
  length, length-replicate, replicate,
}
use cooboc.Modem.{Modem, Tick, new_modem, elapsed, demodulate_byte, get_last_payload, feed}
use cooboc.Modem.Frame.{Accepts, xor_all}
use cooboc.Modem.Packet.{Packet, IsPacket, ticks, packet_accepted}
use cooboc.Modem.Invariant.{IsValid, new_modem-IsValid, feed-IsValid}
use cooboc.Modem.Rejection.{accepted_only_with_crc}
use cooboc.Modem.Progress.{GetsFree, free_within_packet, pause_then_packet}
use cooboc.Modem.Fallthrough.{packet_without_check_accepted}

abbrev storage : List ℕ
storage = replicate 1024 0

storage_size : length storage ≡ 1024
storage_size = length-replicate {A = ℕ} 1024 0

abbrev at_time : ℕ → ℕ → Tick
at_time now b = record { byte = b; first = now; second = now }

abbrev early : ℕ → Tick
early b = at_time 100 b

abbrev new : Modem
new = record {
  is_packet_locked = false;
  packet_index = 0;
  payload_index = 0;
  payload_size = 0;
  last_decode_time = 0;
  payload_buffer = storage;
}

abbrev in_payload : Modem
in_payload = record new { is_packet_locked = true; packet_index = 3; payload_size = 5 }

abbrev at_crc : Modem
at_crc = record new { is_packet_locked = true; packet_index = 4 }

is_new : new_modem storage ≡ new
unfolding new_modem
is_new = refl

new-IsValid : IsValid new
unfolding new_modem
new-IsValid = new_modem-IsValid storage storage_size

at_crc-IsValid : IsValid at_crc
at_crc-IsValid = record {
  storage = storage_size;
  known_index = omega arith;
  byte_size = omega arith;
  in_payload = inl (omega arith);
}

abbrev two_bytes : Packet
two_bytes = record {
  leading = early b'S';
  check = early b'A';
  size = early 2;
  payload = early 7 ∷ early 9 ∷ [];
  crc = early 14;
}

two_bytes-IsPacket : IsPacket two_bytes
two_bytes-IsPacket = record {
  leading_lem = refl;
  check_lem = refl;
  size_lem = refl;
  size_fits = omega arith;
  crc_lem = refl;
  timely = omega arith;
}

packet_accepted_example : Accepts new 5 (ticks two_bytes) (7 ∷ 9 ∷ [])
packet_accepted_example = packet_accepted new two_bytes refl storage_size two_bytes-IsPacket

feed-IsValid_example : IsValid (feed new (early b'S' ∷ early b'A' ∷ early 200 ∷ [])).0
feed-IsValid_example =
    feed-IsValid new (early b'S' ∷ early b'A' ∷ early 200 ∷ []) (omega arith) new-IsValid

crc_found : (demodulate_byte at_crc (early 0)).1 ≡ true
unfolding demodulate_byte
crc_found = refl

accepted_only_with_crc_example :
    (at_crc.is_packet_locked ≡ true)
    × (at_crc.packet_index ≡ 4)
    × (elapsed 0 100 ≤ 500)
    × (0 ≡ xor_all 0 (get_last_payload (demodulate_byte at_crc (early 0)).0))
accepted_only_with_crc_example = accepted_only_with_crc at_crc (early 0) at_crc-IsValid crc_found

-- 'S', the size 1, one byte and its check sum, without an 'A'.
packet_without_check_accepted_example :
    Accepts new 3 (early b'S' ∷ early 1 ∷ early 7 ∷ early 7 ∷ []) (7 ∷ [])
packet_without_check_accepted_example =
    packet_without_check_accepted new (early b'S') (early 1) (early 7) (early 7 ∷ []) refl
      storage_size refl refl (omega arith) (omega arith) refl (omega arith)

abbrev in_payload-IsValid : IsValid in_payload
in_payload-IsValid = record {
  storage = storage_size;
  known_index = omega arith;
  byte_size = omega arith;
  in_payload = inr (omega arith);
}

many_bytes : (n : ℕ) → All (λ t. t.byte < 256) (replicate n (early b'S'))
many_bytes zero = tt
many_bytes (suc n) = (omega arith, many_bytes n)

free_within_packet_example : GetsFree in_payload (replicate 258 (early b'S'))
free_within_packet_example =
    free_within_packet in_payload (replicate 258 (early b'S')) (many_bytes 258) in_payload-IsValid
      (omega (arith, length-replicate 258 (early b'S')))

-- The clock comes round in the pause.
abbrev paused : Modem
paused = record in_payload { last_decode_time = 2 ^ 32 - 600 }

pause_then_packet_example : Accepts paused 6 (at_time 50 b'x' ∷ ticks two_bytes) (7 ∷ 9 ∷ [])
pause_then_packet_example =
    pause_then_packet paused (at_time 50 b'x') two_bytes valid (omega arith) (omega arith)
      (omega arith) two_bytes-IsPacket
  where
    valid : IsValid paused
    valid = record {
      storage = storage_size;
      known_index = omega arith;
      byte_size = omega arith;
      in_payload = inr (omega arith);
    }
