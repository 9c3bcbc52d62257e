-- ===== src/Modem/Packet.antt =====
-- Whole packets that reach `demodulateByte` (chicken/utils/sa_modem.cpp) in time.
use cooboc.Base.{ℕ, suc, ◌≤◌, ◌<◌, ◌≡◌, true, false, List, [], ◌∷◌, ◌++◌, map, arith, length}
use cooboc.Modem.{Modem, Tick, leading_byte, check_byte, elapsed, demodulate_byte}
use cooboc.Modem.Frame.{
  xor_all, Timely, InPayload, AtCrc, Accepts, Accepts-cons, Accepts-crc, Accepts-payload,
}

-- The bytes of one packet, in the order of their arrival.
pub record Packet : Type 0 where
  pub leading : Tick
  pub check : Tick
  pub size : Tick
  pub payload : List Tick
  pub crc : Tick

abbrev pub ticks : Packet → List Tick
ticks p = p.leading ∷ p.check ∷ p.size ∷ (p.payload ++ (p.crc ∷ []))

abbrev pub payload_bytes : Packet → List ℕ
payload_bytes p = map (λ t. t.byte) p.payload

-- 'S', 'A', the number of payload bytes, these, and their check sum, without a pause of more
-- than 500 ms.
pub record IsPacket (p : Packet) : Type 0 where
  pub leading_lem : p.leading.byte ≡ leading_byte
  pub check_lem : p.check.byte ≡ check_byte
  pub size_lem : p.size.byte ≡ length p.payload
  pub size_fits : length p.payload < 256
  pub crc_lem : p.crc.byte ≡ xor_all 0 (payload_bytes p)
  pub timely : Timely p.leading.first (p.check ∷ p.size ∷ (p.payload ++ (p.crc ∷ [])))

-- A locked decoder that is to read part `i` of a packet.
abbrev pub AtPart : Modem → ℕ → Type 0
AtPart m i = (m.is_packet_locked ≡ true) × (m.packet_index ≡ i) × (length m.payload_buffer ≡ 1024)

-- What a byte of a packet that is not its last does: it is not reported, and its time is kept.
abbrev IsQuiet : Modem → Tick → Type 0
IsQuiet m t =
    ((demodulate_byte m t).1 ≡ false) × ((demodulate_byte m t).0.last_decode_time ≡ t.first)

module _ (m : Modem) (t : Tick) where
  pub leading_step :
      m.is_packet_locked ≡ false
      → length m.payload_buffer ≡ 1024
      → t.byte ≡ leading_byte
      → AtPart (demodulate_byte m t).0 1 × IsQuiet m t
  unfolding demodulate_byte
  leading_step u s e = ground arith

  check_step :
      AtPart m 1
      → elapsed m.last_decode_time t.second ≤ 500
      → t.byte ≡ check_byte
      → AtPart (demodulate_byte m t).0 2 × IsQuiet m t
  unfolding demodulate_byte
  check_step a timely e = ground arith

  size_step_zero :
      AtPart m 2
      → elapsed m.last_decode_time t.second ≤ 500
      → t.byte ≡ 0
      → AtCrc (demodulate_byte m t).0 [] × IsQuiet m t
  unfolding demodulate_byte
  size_step_zero a timely e = ground arith

  size_step_suc :
      (n : ℕ)
      → AtPart m 2
      → elapsed m.last_decode_time t.second ≤ 500
      → t.byte ≡ suc n
      → suc n < 256
      → InPayload (demodulate_byte m t).0 [] (suc n) × IsQuiet m t
  unfolding demodulate_byte
  size_step_suc n a timely e fits = ground arith

-- From the size byte on.
pub Accepts-sized :
    (m : Modem) (t c : Tick) (ps : List Tick)
    → AtPart m 2
    → t.byte ≡ length ps
    → length ps < 256
    → Timely m.last_decode_time (t ∷ (ps ++ (c ∷ [])))
    → c.byte ≡ xor_all 0 (map (λ u. u.byte) ps)
    → Accepts m (suc (length ps)) (t ∷ (ps ++ (c ∷ []))) (map (λ u. u.byte) ps)
Accepts-sized m t c [] a e fits timely crc =
    let (at_crc, quiet) = size_step_zero m t a timely.0 e in
    Accepts-cons m 0 t (c ∷ []) [] quiet.0
      (Accepts-crc (demodulate_byte m t).0 c [] at_crc (rw quiet.1 timely.1.0) crc)
Accepts-sized m t c (u ∷ ps) a e fits timely crc =
    let (inside, quiet) = size_step_suc m t (length ps) a timely.0 e fits in
    Accepts-cons m (suc (length ps)) t (u ∷ (ps ++ (c ∷ []))) (map (λ v. v.byte) (u ∷ ps)) quiet.0
      (Accepts-payload u ps (demodulate_byte m t).0 [] c inside (rw quiet.1 timely.1) crc)

-- A decoder that holds no packet, with its buffer of 1024 bytes, decodes a well-formed packet of up to 255 payload bytes that
-- arrives without a pause of more than 500 ms: every call but the last returns false, the last
-- returns true, `getLastPayload` then gives exactly the payload, and the decoder is free again.
pub packet_accepted :
    (m : Modem) (p : Packet)
    → m.is_packet_locked ≡ false
    → length m.payload_buffer ≡ 1024
    → IsPacket p
    → Accepts m (suc (suc (suc (length p.payload)))) (ticks p) (payload_bytes p)
packet_accepted m p unlocked storage k =
    let (at1, quiet1) = leading_step m p.leading unlocked storage k.leading_lem in
    let opened = (demodulate_byte m p.leading).0 in
    let (at2, quiet2) = check_step opened p.check at1 (rw quiet1.1 k.timely.0) k.check_lem in
    let rest = p.size ∷ (p.payload ++ (p.crc ∷ [])) in
    let n = length p.payload in
    Accepts-cons m (suc (suc n)) p.leading (p.check ∷ rest) (payload_bytes p) quiet1.0 (
      Accepts-cons opened (suc n) p.check rest (payload_bytes p) quiet2.0 (
        Accepts-sized (demodulate_byte opened p.check).0 p.size p.crc p.payload at2 k.size_lem
          k.size_fits (rw quiet2.1 k.timely.1) k.crc_lem))
