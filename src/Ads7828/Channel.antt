-- ===== src/Ads7828/Channel.antt =====
-- The command byte of chicken/device/driver/ads7828_driver.cpp, and what the devices read with it.
use cooboc.Base.{
  ℕ, zero, suc, ◌+◌, ◌*◌, ◌/◌, ◌%◌, ◌<◌, ◌≡◌, refl, ap, Bool, true, false, Option, none, some, [],
  ◌∷◌, if◌then◌else◌, arith,
}
use cooboc.Base.Int.{ℤ, pos, ◌≤ℤ◌}
use cooboc.Float.{Float}
use cooboc.Iic.{Bus, Answer, read_u16_be}
use cooboc.Iic.Registers.{words_read}
use cooboc.Ads7828.{
  ads7828_command, read_single_channel, read_aoa, read_side_slip, measure_agl, centred, init,
}

-- For each of the eight channels the command asks for a single-ended conversion (128) with the
-- converter on (4) and the reference asked for (8), and puts the channel's lowest bit above the
-- other two, as the converter's table of channels does.
command_selects :
    (id : ℕ) (using_internal_ref : Bool)
    → id < 8
    → ads7828_command id using_internal_ref
      ≡ 128 + (id % 2) * 64 + (id / 2) * 16 + 4 + (if using_internal_ref then 8 else 0)
unfolding ads7828_command
command_selects zero true h = refl
command_selects (suc zero) true h = refl
command_selects (suc (suc zero)) true h = refl
command_selects (suc (suc (suc zero))) true h = refl
command_selects (suc (suc (suc (suc zero)))) true h = refl
command_selects (suc (suc (suc (suc (suc zero))))) true h = refl
command_selects (suc (suc (suc (suc (suc (suc zero)))))) true h = refl
command_selects (suc (suc (suc (suc (suc (suc (suc zero))))))) true h = refl
command_selects zero false h = refl
command_selects (suc zero) false h = refl
command_selects (suc (suc zero)) false h = refl
command_selects (suc (suc (suc zero))) false h = refl
command_selects (suc (suc (suc (suc zero)))) false h = refl
command_selects (suc (suc (suc (suc (suc zero))))) false h = refl
command_selects (suc (suc (suc (suc (suc (suc zero)))))) false h = refl
command_selects (suc (suc (suc (suc (suc (suc (suc zero))))))) false h = refl
command_selects (suc (suc (suc (suc (suc (suc (suc (suc n)))))))) b h = absurd (omega arith)

module _ (F : Float) where
  open F use {Double, of_int}

  -- If the command was sent and two bytes came back, then the three devices, set up by their
  -- `init`, ask the converter at 0x48 for the channels 0, 1 and 2, with the reference switched off,
  -- and form their values from the 16 bits read.
  pub channels_read :
      (b : Bus) (stale first second : ℕ) (accepted : Bool) (written : ℤ)
      → first < 256
      → second < 256
      → pos 1 ≤ℤ written
      → let a : Answer = record {
        accepted = accepted;
        written = written;
        read_count = pos 2;
        bytes = first ∷ second ∷ [];
      } in
        (read_aoa F b init stale a
          ≡ ((read_u16_be b 0x48 0x84 a).0, centred F (first * 256 + second)))
        × (read_side_slip F b init stale a
            ≡ ((read_u16_be b 0x48 0xc4 a).0, centred F (first * 256 + second)))
        × (measure_agl F b init stale a
            ≡ ((read_u16_be b 0x48 0x94 a).0, of_int (pos (first * 256 + second))))
  unfolding read_aoa read_side_slip measure_agl read_single_channel init ads7828_command
  channels_read b stale first second accepted written h1 h2 w =
      let a : Answer = record {
        accepted = accepted;
        written = written;
        read_count = pos 2;
        bytes = first ∷ second ∷ [];
      } in
      let value : (reg : ℕ)
          → (elim (read_u16_be b 0x48 reg a).1 [ none ↦ stale | some v ↦ v ])
            ≡ first * 256 + second =
        λ reg.
          ap (λ (o : Option ℕ). elim o [ none ↦ stale | some v ↦ v ])
            (words_read b 0x48 reg first second accepted written h1 h2 w).0 in
      (
        ap (λ v. ((read_u16_be b 0x48 0x84 a).0, centred F v)) (value 0x84),
        ap (λ v. ((read_u16_be b 0x48 0xc4 a).0, centred F v)) (value 0xc4),
        ap (λ v. ((read_u16_be b 0x48 0x94 a).0, of_int (pos v))) (value 0x94),
      )
