-- ===== src/Modem/Rejection.antt =====
-- `SaModem` (chicken/utils/sa_modem.cpp) after a pause, at a check sum, and outside a packet.
use cooboc.Base.{
  ◌<◌, ◌≤◌, ◌≡◌, ◌≢◌, refl, true, false, List, [], ◌∷◌, All, arith, length, replicate, take,
}
use cooboc.Modem.{Modem, Tick, leading_byte, elapsed, demodulate_byte, get_last_payload, feed}
use cooboc.Modem.Invariant.{IsValid}
use cooboc.Modem.Frame.{xor_all, xor_from-take}

-- The decoder is back where it was constructed, but for the clock and the buffer.
record IsReset (m : Modem) : Type 0 where
  pub unlocked : m.is_packet_locked ≡ false
  pub no_index : m.packet_index ≡ 0
  pub no_position : m.payload_index ≡ 0
  pub no_size : m.payload_size ≡ 0

-- After a pause of more than 500 ms inside a packet the next byte, whatever it is, even a
-- leading 'S', is dropped: the call returns false and the decoder is reset.
late_byte_dropped :
    (m : Modem) (t : Tick)
    → m.is_packet_locked ≡ true
    → 500 < elapsed m.last_decode_time t.second
    → ((demodulate_byte m t).1 ≡ false) × IsReset (demodulate_byte m t).0
unfolding demodulate_byte
late_byte_dropped m t locked late = ground arith

-- A valid decoder that reports a packet was waiting, in time, for the check sum of the payload
-- that it now holds, and the byte is that check sum.
pub accepted_only_with_crc :
    (m : Modem) (t : Tick)
    → IsValid m
    → (demodulate_byte m t).1 ≡ true
    → (m.is_packet_locked ≡ true)
      × (m.packet_index ≡ 4)
      × (elapsed m.last_decode_time t.second ≤ 500)
      × (t.byte ≡ xor_all 0 (get_last_payload (demodulate_byte m t).0))
unfolding demodulate_byte get_last_payload
accepted_only_with_crc m t v h = ground (arith, xor_from-take m.payload_size m.payload_buffer)

-- Any other byte in that place resets the decoder.
wrong_crc_resets :
    (m : Modem) (t : Tick)
    → IsValid m
    → m.is_packet_locked ≡ true
    → m.packet_index ≡ 4
    → t.byte ≢ xor_all 0 (take m.payload_size m.payload_buffer)
    → ((demodulate_byte m t).1 ≡ false) × IsReset (demodulate_byte m t).0
unfolding demodulate_byte
wrong_crc_resets m t v locked at_crc wrong =
    ground (arith, xor_from-take m.payload_size m.payload_buffer)

unlocked_ignores :
    (m : Modem) (t : Tick)
    → m.is_packet_locked ≡ false
    → t.byte ≢ leading_byte
    → ((demodulate_byte m t).1 ≡ false)
      × IsReset (demodulate_byte m t).0
      × ((demodulate_byte m t).0.payload_buffer ≡ m.payload_buffer)
unfolding demodulate_byte
unlocked_ignores m t u h = ground arith

-- A decoder that holds no packet reads over any bytes without an 'S', reports none of them, stays as
-- free and keeps its buffer.
pub noise_ignored :
    (m : Modem) (ts : List Tick)
    → m.is_packet_locked ≡ false
    → All (λ t. t.byte ≢ leading_byte) ts
    → ((feed m ts).1 ≡ replicate (length ts) false)
      × ((feed m ts).0.is_packet_locked ≡ false)
      × ((feed m ts).0.payload_buffer ≡ m.payload_buffer)
unfolding feed
noise_ignored m [] u h = (refl, u, refl)
noise_ignored m (t ∷ ts) u h =
    let step = unlocked_ignores m t u h.0 in
    ground (arith, step, noise_ignored (demodulate_byte m t).0 ts step.1.unlocked h.1)
