-- ===== src/Modem/Progress.antt =====
-- How `SaModem` (chicken/utils/sa_modem.cpp) gets free of a packet that does not end.
use cooboc.Base.{
  ℕ, ◌+◌, ◌-◌, ◌<◌, ◌≤◌, ◌≡◌, ◌≢◌, true, false, List, [], ◌∷◌, All, length, ◌==◌, if◌then◌else◌,
  ◌⊎◌, inl, inr, arith, Bool-cases, suc,
}
use cooboc.Modem.{Modem, Tick, demodulate_byte, elapsed, leading_byte}
use cooboc.Modem.Frame.{Accepts, Accepts-cons}
use cooboc.Modem.Packet.{Packet, IsPacket, ticks, payload_bytes, packet_accepted}
use cooboc.Modem.Invariant.{IsValid, demodulate_byte-IsValid}

-- The bytes that a packet can take at most from here on.
rank : Modem → ℕ
rank m =
    if m.is_packet_locked
    then (if m.packet_index == 4
        then 1
        else if m.packet_index == 3
        then 1 + (m.payload_size - m.payload_index)
        else if m.packet_index == 2
        then 257
        else 258)
    else 0

rank-demodulate_byte :
    (m : Modem) (t : Tick)
    → t.byte < 256
    → IsValid m
    → m.is_packet_locked ≡ true
    → rank (demodulate_byte m t).0 < rank m
unfolding demodulate_byte rank
rank-demodulate_byte m t b v locked = ground arith

-- At some point from the first byte to after the last the decoder holds no packet.
pub GetsFree : Modem → List Tick → Type 0
GetsFree m [] = m.is_packet_locked ≡ false
GetsFree m (t ∷ ts) = (m.is_packet_locked ≡ false) ⊎ GetsFree (demodulate_byte m t).0 ts

free_in_rank :
    (m : Modem) (ts : List Tick)
    → All (λ t. t.byte < 256) ts
    → IsValid m
    → rank m ≤ length ts
    → GetsFree m ts
unfolding GetsFree
free_in_rank m [] h v le = unfold rank in ground arith
free_in_rank m (t ∷ ts) h v le = elim (Bool-cases m.is_packet_locked) [
  | inr free ↦ inl free
  | inl locked ↦ inr (
      free_in_rank (demodulate_byte m t).0 ts h.1 (demodulate_byte-IsValid m t h.0 v)
        (omega (arith, rank-demodulate_byte m t h.0 v locked)))
]

-- From any valid state, whatever bytes come and when, the decoder is free of the packet that it
-- holds at some point within the next 258 bytes: no packet keeps it for ever.
pub free_within_packet :
    (m : Modem) (ts : List Tick)
    → All (λ t. t.byte < 256) ts
    → IsValid m
    → 258 ≤ length ts
    → GetsFree m ts
free_within_packet m ts h v le = free_in_rank m ts h v (unfold rank in ground arith)

-- After a byte other than 'S' that comes more than 500 ms after the last one, a well-formed packet
-- is accepted in any valid state, also in the middle of another packet.
pub pause_then_packet :
    (m : Modem) (t : Tick) (p : Packet)
    → IsValid m
    → t.byte < 256
    → t.byte ≢ leading_byte
    → 500 < elapsed m.last_decode_time t.second
    → IsPacket p
    → Accepts m (suc (suc (suc (suc (length p.payload))))) (t ∷ ticks p) (payload_bytes p)
pause_then_packet m t p v b other late k =
    let (quiet, free) = dropped in
    Accepts-cons m (suc (suc (suc (length p.payload)))) t (ticks p) (payload_bytes p) quiet
      (packet_accepted (demodulate_byte m t).0 p free (demodulate_byte-IsValid m t b v).storage k)
  where
    dropped : ((demodulate_byte m t).1 ≡ false) × ((demodulate_byte m t).0.is_packet_locked ≡ false)
    dropped = unfold demodulate_byte in ground arith
