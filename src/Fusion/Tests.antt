-- ===== src/Fusion/Tests.antt =====
-- Runs of chicken/device/imu.cpp.
use cooboc.Base.{ℕ, true, ◌+◌, ◌*◌, ◌≡◌, refl, false, Option, none, some, [], ◌∷◌}
use cooboc.Base.Int.{pos}
use cooboc.Float.Sample.{with_nan, binary, less}
use cooboc.Filters.{fol_filter, new_fol_filter}
use cooboc.Iic.{Answer, read_u8, read_s8, read_with, select_device, send_reg_addr}
use cooboc.Iic.Transactions.{start_bus}
use cooboc.Bmx055.{AxisReads, Axes, read_acc, read_acc_axis, acc_axis}
use cooboc.Fusion.{
  Imu, Sample, new_imu, update, updates, get_attitude, read_data, fix_data, fusion_attitude,
  fusion_magnet, fused, normalized, confidence,
}
use cooboc.Fusion.Lost.{NanLaws, IsLost, estimate_stays_lost}

abbrev gives : ℕ → Answer
gives byte = record { accepted = true; written = pos 1; read_count = pos 1; bytes = byte ∷ [] }

abbrev axis : ℕ → ℕ → AxisReads
axis first second = record {
  first = gives first;
  second = gives second;
  stale_msb = pos 0;
  stale_lsb = 0;
}

abbrev word : ℕ → ℕ → Answer
word first second = record {
  accepted = true;
  written = pos 1;
  read_count = pos 2;
  bytes = first ∷ second ∷ [];
}

abbrev silent_axes : Axes AxisReads
silent_axes = record { x = axis 0 0; y = axis 0 0; z = axis 0 0 }

abbrev still : Sample
still = record {
  acc = silent_axes;
  gyro = silent_axes;
  mag = record { x = word 0 0; y = word 0 0; z = word 0 0 };
}

right_none : (f : ℕ → ℕ → Option ℕ) (x : Option ℕ) → binary f x none ≡ none
right_none f none = refl
right_none f (some x) = refl

nan_not_less : (x : Option ℕ) → less x none ≡ false
nan_not_less none = refl
nan_not_less (some x) = refl

abbrev nan_laws : NanLaws with_nan none
nan_laws = record {
  add_left = λ x. refl;
  add_right = right_none (λ x y. some (x + y));
  mul_left = λ x. refl;
  mul_right = right_none (λ x y. some (x * y));
  div_left = λ x. refl;
  acos_nan = refl;
  lt_left = λ x. refl;
  lt_right = nan_not_less;
}

-- The first sample reads no acceleration at all, and its length is divided by.
abbrev after_still : Imu with_nan
after_still = (update with_nan (new_imu with_nan) start_bus still).0

after_still-IsLost : IsLost with_nan none after_still.est
unfolding IsLost update read_data fix_data fusion_attitude fusion_magnet new_imu new_fol_filter
    fol_filter fused normalized read_acc read_acc_axis read_u8 read_s8 read_with acc_axis
    select_device send_reg_addr confidence
after_still-IsLost = (refl, refl, refl)

estimate_stays_lost_example :
    let (i', b') = updates with_nan after_still start_bus (still ∷ []) in
    let a = get_attitude with_nan (update with_nan i' b' still).0 in
    (a.pitch ≡ none) × (a.roll ≡ none) × (a.heading ≡ none)
estimate_stays_lost_example =
    estimate_stays_lost with_nan none nan_laws after_still start_bus (still ∷ []) still
      after_still-IsLost
