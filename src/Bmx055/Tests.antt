-- ===== src/Bmx055/Tests.antt =====
-- Runs of chicken/device/driver/bmx055_driver.cpp.
use cooboc.Base.{ℕ, ◌<◌, ◌≡◌, refl, true, false, [], ◌∷◌, ◌⊎◌, arith}
use cooboc.Base.Int.{ℤ, pos, negsuc}
use cooboc.Iic.{Answer, s16_le_bits}
use cooboc.Iic.Transactions.{start_bus}
use cooboc.Bmx055.{Axes, AxisReads, read_acc, read_gyro, read_mag, gyro_axis, acc_axis}
use cooboc.Bmx055.Reads.{answered, IsRead, AllRead, all_three, both_answered, axes_read}
use cooboc.Bmx055.Failures.{gyro_value, acc_value, field_value, failures_reported}
use cooboc.Bmx055.Magnetic.{IsUnanswered, IsInt16, Within, mag_reads, failed_reads_forget}

abbrev gives : ℕ → Answer
gives byte = record { accepted = true; written = pos 1; read_count = pos 1; bytes = byte ∷ [] }

abbrev fails : Answer
fails = record { accepted = true; written = negsuc 0; read_count = negsuc 0; bytes = [] }

abbrev sent : Answer
sent = record { accepted = true; written = pos 2; read_count = pos 0; bytes = [] }

abbrev axis : ℕ → ℕ → AxisReads
axis first second = record {
  first = gives first;
  second = gives second;
  stale_msb = pos 9;
  stale_lsb = 9;
}

abbrev reads : Axes AxisReads
reads = record { x = axis 255 254; y = axis 1 2; z = axis 0x80 0 }

axes_read_example :
    ((read_gyro start_bus reads).1 ≡ record { x = negsuc 1; y = pos 258; z = negsuc 32767 })
    × ((read_acc start_bus reads).1 ≡ record { x = negsuc 16; y = pos 32; z = pos 8 })
unfolding AllRead IsRead answered
axes_read_example = axes_read start_bus reads (
  one 255 254 (omega arith) (omega arith),
  one 1 2 (omega arith) (omega arith),
  one 0x80 0 (omega arith) (omega arith),
)
  where
    one : (first second : ℕ) → first < 256 → second < 256 → IsRead (axis first second)
    one first second h k = unfold IsRead answered in (refl, refl, h, k)

abbrev unanswered : Axes Answer
unanswered = record { x = fails; y = fails; z = fails }

-- The first byte of the y axis is lost, and the z axis is read all the same.
abbrev broken : Axes AxisReads
broken = record reads {
  y = record { first = fails; second = gives 2; stale_msb = pos 9; stale_lsb = 9 };
}

abbrev reads_before : Axes ℤ
reads_before = record { x = pos 8; y = pos 0; z = negsuc 0 }

abbrev fields : Axes Answer
fields = record {
  x = fails;
  y = record { accepted = true; written = pos 1; read_count = pos 2; bytes = 0xf0 ∷ 0xff ∷ [] };
  z = fails;
}

failures_reported_example :
    ((read_gyro start_bus broken).2 ≡ false)
    × ((read_gyro start_bus broken).1 ≡ record { x = negsuc 1; y = pos 2306; z = negsuc 32767 })
    × ((read_acc start_bus broken).2 ≡ false)
    × ((read_acc start_bus broken).1 ≡ record { x = negsuc 16; y = pos 32; z = pos 8 })
    × ((read_mag start_bus reads_before fields).2 ≡ false)
    × ((read_mag start_bus reads_before fields).1
        ≡ record { x = pos 1; y = negsuc 1; z = negsuc 0 })
unfolding all_three both_answered answered gyro_value acc_value field_value gyro_axis acc_axis
    s16_le_bits
failures_reported_example = failures_reported start_bus broken reads_before fields

abbrev field : Axes ℤ
field = record { x = pos 1000; y = negsuc 2000; z = pos 50 }

failed_reads_forget_example :
    let last =
      mag_reads start_bus field
        (unanswered ∷ unanswered ∷ unanswered ∷ unanswered ∷ unanswered ∷ []) in
    ((last.x ≡ pos 0) ⊎ (last.x ≡ negsuc 0)) × ((last.y ≡ pos 0) ⊎ (last.y ≡ negsuc 0))
failed_reads_forget_example =
    failed_reads_forget start_bus field unanswered unanswered unanswered unanswered unanswered
      in_range silent silent silent silent silent
  where
    in_range : IsInt16 field
    in_range = unfold IsInt16 Within in omega arith

    silent : IsUnanswered unanswered
    silent = unfold IsUnanswered answered in (refl, refl, refl)
