-- ===== src/Firmware/Report.antt =====
-- What `loop` of arduino/hr/hr.ino writes, as a packet of chicken/utils/sa_modem.cpp.
use cooboc.Base.{ℕ, ◌/◌, ◌%◌, ◌≡◌, List, [], ◌∷◌, ◌++◌, length}
use cooboc.Base.Bits.{zero-bit_xor}
use cooboc.Modem.{leading_byte, check_byte}
use cooboc.Modem.Frame.{xor_all}
use cooboc.Firmware.{report}

-- Position and distances, low byte first.
abbrev pub fields : ℕ → ℕ → ℕ → List ℕ
fields p a b =
    p % 256 ∷ (p / 256) % 256 ∷ a % 256 ∷ (a / 256) % 256 ∷ b % 256 ∷ (b / 256) % 256 ∷ []

-- A report is the leading and the check byte, the size 6, the six bytes of the fields and their
-- check sum, and then a carriage return and a line feed.
pub report-packet :
    (p a b : ℕ)
    → report p a b
      ≡ leading_byte
        ∷ check_byte
        ∷ length (fields p a b)
        ∷ (fields p a b ++ (xor_all 0 (fields p a b) ∷ 13 ∷ 10 ∷ []))
unfolding report
report-packet p a b = rw zero-bit_xor
