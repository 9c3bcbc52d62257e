-- ===== src/Bmx055/Failures.antt =====
-- What failed calls on the bus leave of the reads of chicken/device/driver/bmx055_driver.cpp.
use cooboc.Base.{ℕ, ◌≡◌, ap₂, ◌&&◌, if◌then◌else◌, ap}
use cooboc.Base.Int.{ℤ, pos, signed16}
use cooboc.Iic.{Bus, Answer, byte_at, s16_le_bits, read_s16_le, read_u8, read_s8, signed8}
use cooboc.Bmx055.{
  Axes, AxisReads, variable, shift_right, int16, gyro_axis, acc_axis, read_gyro_axis, read_gyro,
  read_acc_axis, read_acc, read_mag,
}
use cooboc.Bmx055.Reads.{
  answered, byte, read_with_lem, all_three, both_answered, gyro_axis_ok, acc_axis_ok, axes, axes_ap,
}

gyro_ok :
    (b : Bus) (r : Axes AxisReads)
    → (read_gyro b r).2 ≡ all_three (both_answered r.x) (both_answered r.y) (both_answered r.z)
unfolding read_gyro all_three
gyro_ok b r =
    ap₂ (λ h k. h && k)
      (ap₂ (λ h k. h && k) (gyro_axis_ok b 3 2 r.x)
        (gyro_axis_ok (read_gyro_axis b 3 2 r.x).0 5 4 r.y))
      (gyro_axis_ok (read_gyro_axis (read_gyro_axis b 3 2 r.x).0 5 4 r.y).0 7 6 r.z)

acc_ok :
    (b : Bus) (r : Axes AxisReads)
    → (read_acc b r).2 ≡ all_three (both_answered r.x) (both_answered r.y) (both_answered r.z)
unfolding read_acc all_three
acc_ok b r =
    ap₂ (λ h k. h && k)
      (ap₂ (λ h k. h && k) (acc_axis_ok b 3 2 r.x)
        (acc_axis_ok (read_acc_axis b 3 2 r.x).0 5 4 r.y))
      (acc_axis_ok (read_acc_axis (read_acc_axis b 3 2 r.x).0 5 4 r.y).0 7 6 r.z)

mag_ok :
    (b : Bus) (value : Axes ℤ) (a : Axes Answer)
    → (read_mag b value a).2 ≡ all_three (answered 2 a.x) (answered 2 a.y) (answered 2 a.z)
unfolding read_mag read_s16_le all_three
mag_ok b value a =
    ap₂ (λ h k. h && k)
      (ap₂ (λ h k. h && k)
        (read_with_lem 2 (λ bytes. signed16 (s16_le_bits bytes)) b 16 0x42 a.x (pos 0)).1
        (read_with_lem 2 (λ bytes. signed16 (s16_le_bits bytes)) (read_s16_le b 16 0x42 a.x).0 16
          0x44 a.y (pos 0)).1)
      (read_with_lem 2 (λ bytes. signed16 (s16_le_bits bytes))
        (read_s16_le (read_s16_le b 16 0x42 a.x).0 16 0x44 a.y).0 16 0x46 a.z (pos 0)).1

-- An axis, with what the variables held before in place of the bytes that did not come.
unfoldable pub gyro_value : AxisReads → ℤ
gyro_value r =
    gyro_axis (if answered 1 r.first then signed8 (byte r.first) else r.stale_msb)
      (if answered 1 r.second then byte r.second else r.stale_lsb)

unfoldable pub acc_value : AxisReads → ℤ
acc_value r =
    acc_axis (if answered 1 r.second then signed8 (byte r.second) else r.stale_msb)
      (if answered 1 r.first then byte r.first else r.stale_lsb)

-- The new value of an axis of the field, of the one before.
unfoldable pub field_value : ℕ → ℤ → Answer → ℤ
field_value n before a =
    shift_right (if answered 2 a then signed16 (s16_le_bits a.bytes) else int16 before) n

gyro_axis_value :
    (b : Bus) (msb lsb : ℕ) (r : AxisReads) → (read_gyro_axis b msb lsb r).1 ≡ gyro_value r
unfolding read_gyro_axis read_u8 read_s8 gyro_value
gyro_axis_value b msb lsb r =
    ap₂ gyro_axis
      (read_with_lem 1 (λ bytes. signed8 (byte_at bytes 0)) b 0x68 msb r.first r.stale_msb).0
      (read_with_lem 1 (λ bytes. byte_at bytes 0) (read_s8 b 0x68 msb r.first).0 0x68 lsb r.second
        r.stale_lsb).0

acc_axis_value :
    (b : Bus) (msb lsb : ℕ) (r : AxisReads) → (read_acc_axis b msb lsb r).1 ≡ acc_value r
unfolding read_acc_axis read_u8 read_s8 acc_value
acc_axis_value b msb lsb r =
    ap₂ acc_axis
      (read_with_lem 1 (λ bytes. signed8 (byte_at bytes 0)) (read_u8 b 0x18 lsb r.first).0 0x18 msb
        r.second r.stale_msb).0
      (read_with_lem 1 (λ bytes. byte_at bytes 0) b 0x18 lsb r.first r.stale_lsb).0

field_axis_value :
    (b : Bus) (reg n : ℕ) (before : ℤ) (a : Answer)
    → shift_right (variable (int16 before) (read_s16_le b 16 reg a).1) n ≡ field_value n before a
unfolding read_s16_le field_value
field_axis_value b reg n before a =
    ap (λ v. shift_right v n)
      (read_with_lem 2 (λ bytes. signed16 (s16_le_bits bytes)) b 16 reg a (int16 before)).0

gyro_axes :
    (b : Bus) (r : Axes AxisReads)
    → (read_gyro b r).1 ≡ axes (gyro_value r.x) (gyro_value r.y) (gyro_value r.z)
unfolding read_gyro
gyro_axes b r =
    let b1 = (read_gyro_axis b 3 2 r.x).0 in
    let b2 = (read_gyro_axis b1 5 4 r.y).0 in
    axes_ap (gyro_axis_value b 3 2 r.x) (gyro_axis_value b1 5 4 r.y) (gyro_axis_value b2 7 6 r.z)

acc_axes :
    (b : Bus) (r : Axes AxisReads)
    → (read_acc b r).1 ≡ axes (acc_value r.x) (acc_value r.y) (acc_value r.z)
unfolding read_acc
acc_axes b r =
    let b1 = (read_acc_axis b 3 2 r.x).0 in
    let b2 = (read_acc_axis b1 5 4 r.y).0 in
    axes_ap (acc_axis_value b 3 2 r.x) (acc_axis_value b1 5 4 r.y) (acc_axis_value b2 7 6 r.z)

mag_axes :
    (b : Bus) (value : Axes ℤ) (a : Axes Answer)
    → (read_mag b value a).1
      ≡ axes (field_value 3 value.x a.x) (field_value 3 value.y a.y) (field_value 1 value.z a.z)
unfolding read_mag
mag_axes b value a =
    let b1 = (read_s16_le b 16 0x42 a.x).0 in
    let b2 = (read_s16_le b1 16 0x44 a.y).0 in
    axes_ap (field_axis_value b 0x42 3 value.x a.x) (field_axis_value b1 0x44 3 value.y a.y)
      (field_axis_value b2 0x46 1 value.z a.z)

-- Each of the three reads returns true if and only if all its registers were read, and a failure
-- anywhere keeps no later register from being read: each axis is formed of those of its own bytes
-- that came, whichever of the others failed, and of what the variable held before in place of a
-- byte, or of a word of the field, that did not come.
pub failures_reported :
    (b : Bus) (r : Axes AxisReads) (value : Axes ℤ) (a : Axes Answer)
    → ((read_gyro b r).2 ≡ all_three (both_answered r.x) (both_answered r.y) (both_answered r.z))
      × ((read_gyro b r).1 ≡ axes (gyro_value r.x) (gyro_value r.y) (gyro_value r.z))
      × ((read_acc b r).2 ≡ all_three (both_answered r.x) (both_answered r.y) (both_answered r.z))
      × ((read_acc b r).1 ≡ axes (acc_value r.x) (acc_value r.y) (acc_value r.z))
      × ((read_mag b value a).2 ≡ all_three (answered 2 a.x) (answered 2 a.y) (answered 2 a.z))
      × ((read_mag b value a).1
          ≡ axes
              (field_value 3 value.x a.x)
              (field_value 3 value.y a.y)
              (field_value 1 value.z a.z))
failures_reported b r value a =
    (gyro_ok b r, gyro_axes b r, acc_ok b r, acc_axes b r, mag_ok b value a, mag_axes b value a)
