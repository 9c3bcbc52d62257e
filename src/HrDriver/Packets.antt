-- ===== src/HrDriver/Packets.antt =====
-- `readData` of chicken/device/driver/hr_driver.cpp over a packet and over its parts.
use cooboc.Base.{
  ℕ, zero, suc, ◌+◌, ◌*◌, ◌<◌, ◌≡◌, refl, sym, ◌∙◌, true, false, List, [], ◌∷◌, ◌++◌, arith,
  replicate, length,
}
use cooboc.Base.Bits.{bit_or-shift_byte}
use cooboc.Base.Int.{signed16}
use cooboc.Modem.{Tick, demodulate_byte, get_last_payload, feed}
use cooboc.Modem.Frame.{Accepts}
use mathlib.Core.List.{flatten}
use cooboc.HrDriver.{HrDriver, take_packet, read_byte, read_data, read_chunks}

read_byte_quiet :
    (d : HrDriver) (t : Tick)
    → (demodulate_byte d.modem t).1 ≡ false
    → read_byte d t ≡ record d { modem = (demodulate_byte d.modem t).0 }
unfolding read_byte
read_byte_quiet d t h = rw h

read_byte_found :
    (d : HrDriver) (t : Tick)
    → (demodulate_byte d.modem t).1 ≡ true
    → read_byte d t ≡ take_packet (record d { modem = (demodulate_byte d.modem t).0 })
unfolding read_byte
read_byte_found d t h = rw h

-- Bytes at which the decoder reports nothing change nothing but the decoder.
pub read_data_quiet :
    (d : HrDriver) (ts : List Tick)
    → (feed d.modem ts).1 ≡ replicate (length ts) false
    → read_data d ts ≡ record d { modem = (feed d.modem ts).0 }
unfolding read_data feed
read_data_quiet d [] h = refl
read_data_quiet d (t ∷ ts) h = ground (
  arith,
  read_byte_quiet d t,
  read_data_quiet (record d { modem = (demodulate_byte d.modem t).0 }) ts,
)

pub read_data-Accepts :
    (d : HrDriver) (n : ℕ) (ts : List Tick) (payload : List ℕ)
    → Accepts d.modem n ts payload
    → read_data d ts ≡ take_packet (record d { modem = (feed d.modem ts).0 })
unfolding read_data feed
read_data-Accepts d zero [] payload a = cc a.flags
read_data-Accepts d (suc n) [] payload a = cc a.flags
read_data-Accepts d zero (t ∷ []) payload a = ground (arith, read_byte_found d t, a.flags)
read_data-Accepts d zero (t ∷ u ∷ ts) payload a = cc a.flags
read_data-Accepts d (suc n) (t ∷ ts) payload a = ground (
  arith,
  a.flags,
  read_byte_quiet d t,
  read_data-Accepts (record d { modem = (demodulate_byte d.modem t).0 }) n ts payload,
)

-- The six bytes of a packet, low byte first, are the position and the two distances.
pub take_packet_fields :
    (d : HrDriver) (b0 b1 b2 b3 b4 b5 : ℕ)
    → b0 < 256
    → b1 < 256
    → b2 < 256
    → b4 < 256
    → get_last_payload d.modem ≡ b0 ∷ b1 ∷ b2 ∷ b3 ∷ b4 ∷ b5 ∷ []
    → ((take_packet d).hr_position ≡ signed16 (b1 * 256 + b0))
      × ((take_packet d).dist0 ≡ b3 * 256 + b2)
      × ((take_packet d).dist1 ≡ b5 * 256 + b4)
      × ((take_packet d).has_new_data ≡ true)
unfolding take_packet
take_packet_fields d b0 b1 b2 b3 b4 b5 h0 h1 h2 h4 e =
    ground
      (arith, bit_or-shift_byte b1 b0 h0, bit_or-shift_byte b3 b2 h2, bit_or-shift_byte b5 b4 h4)

pub read_data-append :
    (d : HrDriver) (ts us : List Tick) → read_data d (ts ++ us) ≡ read_data (read_data d ts) us
unfolding read_data
read_data-append d [] us = refl
read_data-append d (t ∷ ts) us = read_data-append (read_byte d t) ts us

pub modem-take_packet : (d : HrDriver) → (take_packet d).modem ≡ d.modem
unfolding take_packet
modem-take_packet d = refl

is_running-read_byte :
    (d : HrDriver) (t : Tick) → (read_byte d t).is_read_thread_running ≡ d.is_read_thread_running
unfolding read_byte
is_running-read_byte d t = ground arith

is_running-read_data :
    (d : HrDriver) (ts : List Tick)
    → (read_data d ts).is_read_thread_running ≡ d.is_read_thread_running
unfolding read_data
is_running-read_data d [] = refl
is_running-read_data d (t ∷ ts) = is_running-read_data (read_byte d t) ts ∙ is_running-read_byte d t

-- While the reading thread is to run: however the bytes are spread over the calls of `recv`, it comes to the same
-- state as from all of them at once.
read_chunks-flatten :
    (d : HrDriver) (cs : List (List Tick))
    → d.is_read_thread_running ≡ true
    → read_chunks d cs ≡ read_data d (flatten cs)
unfolding read_chunks read_data flatten
read_chunks-flatten d [] running = refl
read_chunks-flatten d (c ∷ cs) running = simp running (
    read_chunks-flatten (read_data d c) cs (is_running-read_data d c ∙ running)
    ∙ sym (read_data-append d c (flatten cs)))
