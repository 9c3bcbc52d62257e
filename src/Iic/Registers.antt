-- ===== src/Iic/Registers.antt =====
-- The values that chicken/device/driver/io/iic_handler.cpp and the drivers of the two chips form.
use cooboc.Base.{Bool, ℕ, ◌+◌, ◌*◌, ◌<◌, ◌≡◌, some, [], ◌∷◌, arith}
use cooboc.Base.Bits.{bit_or-shift_byte}
use cooboc.Base.Int.{ℤ, pos, signed16, ◌≤ℤ◌}
use cooboc.Iic.{Bus, Answer, read_u16_be, read_s16_le, u16_be, s16_le_bits, read_with}

-- If the register address was written and two bytes came back, `readU16BE` gives the first byte as
-- the high one, and `readS16LE` the second, as a two's complement number.
pub words_read :
    (b : Bus) (device reg first second : ℕ) (accepted : Bool) (written : ℤ)
    → first < 256
    → second < 256
    → pos 1 ≤ℤ written
    → let a : Answer = record {
      accepted = accepted;
      written = written;
      read_count = pos 2;
      bytes = first ∷ second ∷ [];
    } in
      ((read_u16_be b device reg a).1 ≡ some (first * 256 + second))
      × ((read_s16_le b device reg a).1 ≡ some (signed16 (second * 256 + first)))
unfolding read_u16_be read_s16_le u16_be s16_le_bits read_with
words_read b device reg first second accepted written h1 h2 w =
    ground (arith, bit_or-shift_byte first second h2, bit_or-shift_byte second first h1)
