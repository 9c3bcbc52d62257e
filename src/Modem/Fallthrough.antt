-- ===== src/Modem/Fallthrough.antt =====
-- Case 1 of the switch in `demodulateByte` (chicken/utils/sa_modem.cpp), which has no `break` where
-- the byte is not 'A'.
use cooboc.Base.{ℕ, suc, ◌≤◌, ◌<◌, ◌≡◌, ◌≢◌, refl, false, List, [], ◌∷◌, ◌++◌, map, arith, length}
use cooboc.Modem.{Modem, Tick, leading_byte, check_byte, elapsed, demodulate_byte, feed}
use cooboc.Modem.Frame.{xor_all, Timely, Accepts, Accepts-cons}
use cooboc.Modem.Packet.{AtPart, Accepts-sized, leading_step}

-- The decoder that has seen 'S' alone reads a byte other than 'A' as one that has seen "SA".
fallthrough_step :
    (m : Modem) (t : Tick)
    → AtPart m 1
    → elapsed m.last_decode_time t.second ≤ 500
    → t.byte ≢ check_byte
    → demodulate_byte m t ≡ demodulate_byte (record m { packet_index = 2 }) t
unfolding demodulate_byte
fallthrough_step m t a timely ne = ground arith

Accepts-same :
    (m m' : Modem) (n : ℕ) (t : Tick) (ts : List Tick) (payload : List ℕ)
    → demodulate_byte m t ≡ demodulate_byte m' t
    → Accepts m' n (t ∷ ts) payload
    → Accepts m n (t ∷ ts) payload
unfolding feed
Accepts-same m m' n t ts payload e a = ground arith

-- A packet without its check byte, whose size is below 256 and not the number of 'A', is decoded all
-- the same by a decoder that holds no packet, if it arrives without a pause of more than 500 ms.
pub packet_without_check_accepted :
    (m : Modem) (s z c : Tick) (ps : List Tick)
    → m.is_packet_locked ≡ false
    → length m.payload_buffer ≡ 1024
    → s.byte ≡ leading_byte
    → z.byte ≡ length ps
    → length ps < 256
    → length ps ≢ check_byte
    → c.byte ≡ xor_all 0 (map (λ u. u.byte) ps)
    → Timely s.first (z ∷ (ps ++ (c ∷ [])))
    → Accepts m (suc (suc (length ps))) (s ∷ z ∷ (ps ++ (c ∷ []))) (map (λ u. u.byte) ps)
packet_without_check_accepted m s z c ps unlocked storage is_s is_size fits ne crc timely =
    let (at1, quiet) = leading_step m s unlocked storage is_s in
    let opened = (demodulate_byte m s).0 in
    let payload = map (λ (u : Tick). u.byte) ps in
    Accepts-cons m (suc (length ps)) s (z ∷ (ps ++ (c ∷ []))) payload quiet.0 (
      Accepts-same opened (record opened { packet_index = 2 }) (suc (length ps)) z (ps ++ (c ∷ []))
        payload (fallthrough_step opened z at1 (rw quiet.1 timely.0) (λ e. ne (omega arith)))
        (Accepts-sized (record opened { packet_index = 2 }) z c ps (at1.0, refl, at1.2) is_size fits
          (rw quiet.1 timely) crc))
