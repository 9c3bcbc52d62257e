-- ===== src/Modem/Frame.antt =====
-- Packets that reach `demodulateByte` (chicken/utils/sa_modem.cpp) in time.
use cooboc.Base.{
  ℕ, zero, suc, ◌+◌, ◌≤◌, ◌<◌, ◌≡◌, refl, true, false, List, [], ◌∷◌, ◌++◌, map, append_assoc,
  bit_xor, arith, length, length-append, length-set, get_or, take, drop, replicate, drop-get_or,
  take-set_next,
}
use cooboc.Modem.{Modem, Tick, elapsed, xor_from, demodulate_byte, get_last_payload, feed}

-- The check sum as the sender forms it: `^` over the bytes in order.
abbrev pub xor_all : ℕ → List ℕ → ℕ
xor_all crc [] = crc
xor_all crc (b ∷ bs) = xor_all (bit_xor crc b) bs

xor_from-drop :
    (n i crc : ℕ) (buffer : List ℕ)
    → i + n ≤ length buffer
    → xor_from n i crc buffer ≡ xor_all crc (take n (drop i buffer))
unfolding xor_from
xor_from-drop zero i crc buffer h = refl
xor_from-drop (suc n) i crc buffer h = ground (
  arith,
  drop-get_or buffer i 0,
  xor_from-drop n (i + 1) (bit_xor crc (get_or buffer i 0)) buffer (omega arith),
)

-- The receiver's check sum is the sender's, over the bytes that it holds.
pub xor_from-take :
    (n : ℕ) (buffer : List ℕ)
    → n ≤ length buffer
    → xor_from n 0 0 buffer ≡ xor_all 0 (take n buffer)
xor_from-take n buffer h = xor_from-drop n 0 0 buffer (omega arith)

-- Each byte comes at most 500 ms after the one before it.
abbrev pub Timely : ℕ → List Tick → Type 0
Timely last [] = Unit {0}
Timely last (t ∷ ts) = (elapsed last t.second ≤ 500) × Timely t.first ts

-- A decoder that holds the bytes `got` of a payload and waits for `left` more.
pub record InPayload (m : Modem) (got : List ℕ) (left : ℕ) : Type 0 where
  pub locked : m.is_packet_locked ≡ true
  pub index : m.packet_index ≡ 3
  pub position : m.payload_index ≡ length got
  pub size : m.payload_size ≡ length got + left
  pub room : length got + left < 256
  pub storage : length m.payload_buffer ≡ 1024
  pub held : take (length got) m.payload_buffer ≡ got

-- A decoder that holds the payload `got` and waits for its check sum.
pub record AtCrc (m : Modem) (got : List ℕ) : Type 0 where
  pub locked : m.is_packet_locked ≡ true
  pub index : m.packet_index ≡ 4
  pub size : m.payload_size ≡ length got
  pub room : length got < 256
  pub storage : length m.payload_buffer ≡ 1024
  pub held : take (length got) m.payload_buffer ≡ got

module _ (m : Modem) (t : Tick) (got : List ℕ)
    (timely : elapsed m.last_decode_time t.second ≤ 500) where
  payload_step :
      (left : ℕ)
      → InPayload m got (suc (suc left))
      → InPayload (demodulate_byte m t).0 (got ++ (t.byte ∷ [])) (suc left)
        × ((demodulate_byte m t).1 ≡ false)
        × ((demodulate_byte m t).0.last_decode_time ≡ t.first)
  unfolding demodulate_byte
  payload_step left p = ground (
    arith,
    length-append got (t.byte ∷ []),
    length-set m.payload_buffer m.payload_index t.byte,
    take-set_next m.payload_buffer (length got) t.byte,
  )

  payload_last :
      InPayload m got 1
      → AtCrc (demodulate_byte m t).0 (got ++ (t.byte ∷ []))
        × ((demodulate_byte m t).1 ≡ false)
        × ((demodulate_byte m t).0.last_decode_time ≡ t.first)
  unfolding demodulate_byte
  payload_last p = ground (
    arith,
    length-append got (t.byte ∷ []),
    length-set m.payload_buffer m.payload_index t.byte,
    take-set_next m.payload_buffer (length got) t.byte,
  )

  crc_step :
      AtCrc m got
      → t.byte ≡ xor_all 0 got
      → ((demodulate_byte m t).1 ≡ true)
        × (get_last_payload (demodulate_byte m t).0 ≡ got)
        × ((demodulate_byte m t).0.is_packet_locked ≡ false)
  unfolding demodulate_byte get_last_payload
  crc_step p e = ground (arith, xor_from-take m.payload_size m.payload_buffer)

-- The decoder reports a packet at the last of `ts` and not before, and then holds `payload`.
pub record Accepts (m : Modem) (n : ℕ) (ts : List Tick) (payload : List ℕ) : Type 0 where
  pub flags : (feed m ts).1 ≡ replicate n false ++ (true ∷ [])
  pub payload_held : get_last_payload (feed m ts).0 ≡ payload
  pub released : (feed m ts).0.is_packet_locked ≡ false

pub Accepts-cons :
    (m : Modem) (n : ℕ) (t : Tick) (ts : List Tick) (payload : List ℕ)
    → (demodulate_byte m t).1 ≡ false
    → Accepts (demodulate_byte m t).0 n ts payload
    → Accepts m (suc n) (t ∷ ts) payload
unfolding feed
Accepts-cons m n t ts payload quiet a = ground arith

pub Accepts-crc :
    (m : Modem) (c : Tick) (got : List ℕ)
    → AtCrc m got
    → elapsed m.last_decode_time c.second ≤ 500
    → c.byte ≡ xor_all 0 got
    → Accepts m 0 (c ∷ []) got
unfolding feed
Accepts-crc m c got p timely e = ground (arith, crc_step m c got timely p e)

pub Accepts-payload :
    (t : Tick) (ps : List Tick) (m : Modem) (got : List ℕ) (c : Tick)
    → InPayload m got (suc (length ps))
    → Timely m.last_decode_time (t ∷ (ps ++ (c ∷ [])))
    → c.byte ≡ xor_all 0 (got ++ map (λ u. u.byte) (t ∷ ps))
    → Accepts m (suc (length ps)) (t ∷ (ps ++ (c ∷ []))) (got ++ map (λ u. u.byte) (t ∷ ps))
Accepts-payload t [] m got c p timely e =
    let (at_crc, quiet, time) = payload_last m t got timely.0 p in
    Accepts-cons m 0 t (c ∷ []) (got ++ (t.byte ∷ [])) quiet
      (Accepts-crc (demodulate_byte m t).0 c (got ++ (t.byte ∷ [])) at_crc (rw time timely.1.0) e)
Accepts-payload t (u ∷ ps) m got c p timely e =
    let (inside, quiet, time) = payload_step m t got timely.0 (length ps) p in
    Accepts-cons m (suc (length ps)) t (u ∷ (ps ++ (c ∷ [])))
      (got ++ map (λ u. u.byte) (t ∷ u ∷ ps)) quiet
      (rw (← append_assoc got (t.byte ∷ []) (map (λ u. u.byte) (u ∷ ps))) (
        Accepts-payload u ps (demodulate_byte m t).0 (got ++ (t.byte ∷ [])) c inside
          (rw time timely.1) (rw (append_assoc got (t.byte ∷ []) (map (λ u. u.byte) (u ∷ ps))) e)))
