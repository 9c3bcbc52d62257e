-- ===== src/Bmx055/Values.antt =====
-- The numbers that `readGyroAxis` and `readAccAxis` of chicken/device/driver/bmx055_driver.cpp form
-- from two bytes.
use cooboc.Base.{
  ℕ, ◌+◌, ◌-◌, ◌*◌, ◌%◌, ◌/◌, ◌^◌, ◌<◌, ◌≡◌, arith, if◌then◌else◌, ltb, bit_or, Bool-cases, inl,
  inr, ap, ◌∙◌,
}
use cooboc.Base.Bits.{◌<<<◌, bit_or-shift_byte}
use cooboc.Base.Int.{ℤ, pos, negsuc, signed16, ◌≤ℤ◌}
use cooboc.Iic.{signed8}
use cooboc.Bmx055.{gyro_axis, acc_axis, bits32}

word_bits :
    (msb lsb : ℕ)
    → msb < 256
    → lsb < 256
    → bit_or ((bits32 (signed8 msb) <<< 8) % 2 ^ 32) lsb
      ≡ (if ltb msb 128 then msb * 256 + lsb else (2 ^ 32 - 2 ^ 16) + msb * 256 + lsb)
word_bits msb lsb hm hl = elim (Bool-cases (ltb msb 128)) [
  | inl k ↦ simp k (ap (λ r. bit_or r lsb) (ground arith) ∙ bit_or-shift_byte msb lsb hl)
  | inr k ↦ simp k (
      ap (λ r. bit_or r lsb) (ground arith)
      ∙ bit_or-shift_byte (2 ^ 24 - 256 + msb) lsb hl
      ∙ omega arith)
]

-- For two bytes the gyroscope's axis is their 16-bit two's complement number, high byte first.
pub gyro_axis_lem :
    (msb lsb : ℕ) → msb < 256 → lsb < 256 → gyro_axis (signed8 msb) lsb ≡ signed16 (msb * 256 + lsb)
unfolding gyro_axis
gyro_axis_lem msb lsb hm hl = ground (arith, word_bits msb lsb hm hl)

-- For two bytes the acceleration is a 12-bit two's complement number.
acc_axis_range :
    (msb lsb : ℕ)
    → msb < 256
    → lsb < 256
    → (negsuc 2047 ≤ℤ acc_axis (signed8 msb) lsb) × (acc_axis (signed8 msb) lsb ≤ℤ pos 2047)
unfolding acc_axis
acc_axis_range msb lsb hm hl = ground (arith, word_bits msb lsb hm hl)

-- The number that 12 bits stand for in two's complement.
abbrev pub signed12 : ℕ → ℤ
signed12 w = if ltb w (2 ^ 11) then pos w else negsuc (2 ^ 12 - w - 1)

-- The acceleration's axis is the two's complement number of the upper 12 of the 16 bits.
pub acc_axis_lem :
    (msb lsb : ℕ)
    → msb < 256
    → lsb < 256
    → acc_axis (signed8 msb) lsb ≡ signed12 (msb * 16 + lsb / 16)
unfolding acc_axis
acc_axis_lem msb lsb hm hl = ground (arith, word_bits msb lsb hm hl)
