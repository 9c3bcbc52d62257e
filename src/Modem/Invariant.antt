-- ===== src/Modem/Invariant.antt =====
-- The state of `SaModem` (chicken/utils/sa_modem.cpp) between two bytes.
use cooboc.Base.{
  ◌≢◌, ◌⊎◌, ℕ, ◌≤◌, ◌<◌, ◌≡◌, refl, ◌∙◌, List, [], ◌∷◌, All, arith, length, length-set, length-take,
}
use cooboc.Modem.{Modem, Tick, new_modem, demodulate_byte, get_last_payload, feed}

-- The index is one of the five parts, a size fits the byte that it came from, and in the payload
-- there is room left.
pub record IsValid (m : Modem) : Type 0 where
  pub storage : length m.payload_buffer ≡ 1024
  pub known_index : m.packet_index ≤ 4
  pub byte_size : m.payload_size < 256
  pub in_payload : (m.packet_index ≢ 3) ⊎ (m.payload_index < m.payload_size)

pub new_modem-IsValid : (storage : List ℕ) → length storage ≡ 1024 → IsValid (new_modem storage)
unfolding new_modem
new_modem-IsValid storage h = ground arith

pub demodulate_byte-IsValid :
    (m : Modem) (t : Tick) → t.byte < 256 → IsValid m → IsValid (demodulate_byte m t).0
unfolding demodulate_byte
demodulate_byte-IsValid m t h v = ground (arith, length-set m.payload_buffer m.payload_index t.byte)

abbrev AreBytes : List Tick → Type 0
AreBytes = All (λ t. t.byte < 256)

-- From a valid decoder every sequence of bytes (numbers below 256), at any times, leads to a valid
-- decoder: its buffer has 1024 entries, and in the payload the next position lies below the size, which is
-- below 256.
pub feed-IsValid : (m : Modem) (ts : List Tick) → AreBytes ts → IsValid m → IsValid (feed m ts).0
unfolding feed
feed-IsValid m [] h v = v
feed-IsValid m (t ∷ ts) h v =
    feed-IsValid (demodulate_byte m t).0 ts h.1 (demodulate_byte-IsValid m t h.0 v)

-- A valid decoder writes its payload inside the 1024 bytes of the buffer.
write_in_bounds :
    (m : Modem) → IsValid m → m.packet_index ≡ 3 → m.payload_index < length m.payload_buffer
write_in_bounds m v h = ground arith

length-get_last_payload : (m : Modem) → IsValid m → length (get_last_payload m) ≡ m.payload_size
unfolding get_last_payload
length-get_last_payload m v = length-take m.payload_size m.payload_buffer (omega arith)

length-demodulate_byte :
    (m : Modem) (t : Tick) → length (demodulate_byte m t).0.payload_buffer ≡ length m.payload_buffer
unfolding demodulate_byte
length-demodulate_byte m t = ground (arith, length-set m.payload_buffer m.payload_index t.byte)

-- The buffer keeps its size.
pub length-feed :
    (m : Modem) (ts : List Tick) → length (feed m ts).0.payload_buffer ≡ length m.payload_buffer
unfolding feed
length-feed m [] = refl
length-feed m (t ∷ ts) = length-feed (demodulate_byte m t).0 ts ∙ length-demodulate_byte m t
