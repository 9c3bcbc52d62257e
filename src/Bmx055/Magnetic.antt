-- ===== src/Bmx055/Magnetic.antt =====
-- `readMag` of chicken/device/driver/bmx055_driver.cpp where the bus does not answer.
use cooboc.Base.{
  ℕ, ◌*◌, ◌^◌, ◌<◌, ◌≡◌, ap, ◌∙◌, sym, subst, false, List, [], ◌∷◌, if◌then◌else◌, inl, inr, ◌⊎◌,
  arith,
}
use cooboc.Base.Int.{ℤ, pos, negsuc, signed16}
use cooboc.Iic.{Bus, Answer, read_s16_le, s16_le_bits}
use cooboc.Bmx055.{Axes, read_mag, shift_right, variable, int16}
use cooboc.Bmx055.Reads.{answered, read_with_lem}

-- No register of an axis could be read.
unfoldable pub IsUnanswered : Axes Answer → Type 0
IsUnanswered a = (answered 2 a.x ≡ false) × (answered 2 a.y ≡ false) × (answered 2 a.z ≡ false)

-- -m to m - 1
unfoldable pub Within : ℕ → ℤ → Type 0
Within m (pos n) = n < m
Within m (negsuc n) = n < m

unfoldable pub IsInt16 : Axes ℤ → Type 0
unfolding Within
IsInt16 v = Within (2 ^ 15) v.x × Within (2 ^ 15) v.y × Within (2 ^ 15) v.z

int16_lem : (v : ℤ) → Within (2 ^ 15) v → int16 v ≡ v
unfolding Within
int16_lem (pos n) h = ground arith
int16_lem (negsuc n) h = ground arith

axis_left :
    (b : Bus) (reg : ℕ) (a : Answer) (v : ℤ)
    → Within (2 ^ 15) v
    → answered 2 a ≡ false
    → variable (int16 v) (read_s16_le b 16 reg a).1 ≡ v
unfolding read_s16_le
axis_left b reg a v h u =
    let decode : List ℕ → ℤ = λ bytes. signed16 (s16_le_bits bytes) in
    (read_with_lem 2 decode b 16 reg a (int16 v)).0
    ∙ ap (λ k. if k then decode a.bytes else int16 v) u
    ∙ int16_lem v h

-- A failed read divides the value that was there by 8, or on the z axis by 2, rounding down,
-- though the value is of an earlier time, and returns false.
failed_read_shifts :
    (b : Bus) (v : Axes ℤ) (a : Axes Answer)
    → IsInt16 v
    → IsUnanswered a
    → (read_mag b v a).1
      ≡ record { x = shift_right v.x 3; y = shift_right v.y 3; z = shift_right v.z 1 }
unfolding read_mag IsInt16 IsUnanswered
failed_read_shifts b v a (hx, hy, hz) (ux, uy, uz) i =
    let b1 = (read_s16_le b 16 0x42 a.x).0 in
    let b2 = (read_s16_le b1 16 0x44 a.y).0 in
    record {
      x = shift_right (axis_left b 0x42 a.x v.x hx ux i) 3;
      y = shift_right (axis_left b1 0x44 a.y v.y hy uy i) 3;
      z = shift_right (axis_left b2 0x46 a.z v.z hz uz i) 1;
    }

pub mag_reads : Bus → Axes ℤ → List (Axes Answer) → Axes ℤ
mag_reads b v [] = v
mag_reads b v (a ∷ rest) = mag_reads (read_mag b v a).0 (read_mag b v a).1 rest

shift_right-Within : (m : ℕ) (v : ℤ) → Within (8 * m) v → Within m (shift_right v 3)
unfolding Within
shift_right-Within m (pos n) h = omega arith
shift_right-Within m (negsuc n) h = omega arith

widened : (m : ℕ) (v : ℤ) → m < 2 ^ 15 → Within m v → Within (2 ^ 15) v
unfolding Within
widened m (pos n) l h = omega arith
widened m (negsuc n) l h = omega arith

halved-Within : (v : ℤ) → Within (2 ^ 15) v → Within (2 ^ 15) (shift_right v 1)
unfolding Within
halved-Within (pos n) h = omega arith
halved-Within (negsuc n) h = omega arith

zero_or_minus_one : (v : ℤ) → Within 1 v → (v ≡ pos 0) ⊎ (v ≡ negsuc 0)
unfolding Within
zero_or_minus_one (pos n) h = inl (ap pos (omega arith))
zero_or_minus_one (negsuc n) h = inr (ap negsuc (omega arith))

-- The first two axes lie in this range, and all three in that of 16 bits.
Near : ℕ → Axes ℤ → Type 0
unfolding IsInt16 Within
Near m v = IsInt16 v × Within m v.x × Within m v.y

failed_read-Near :
    (m : ℕ) (b : Bus) (v : Axes ℤ) (a : Axes Answer)
    → m < 2 ^ 15
    → Near (8 * m) v
    → IsUnanswered a
    → Near m (read_mag b v a).1
unfolding Near IsInt16
failed_read-Near m b v a lm ((hx, hy, hz), nx, ny) u =
    subst (λ w. Near m w) (sym (failed_read_shifts b v a (hx, hy, hz) u))
      (
        (
          widened m (shift_right v.x 3) lm (shift_right-Within m v.x nx),
          widened m (shift_right v.y 3) lm (shift_right-Within m v.y ny),
          halved-Within v.z hz,
        ),
        shift_right-Within m v.x nx,
        shift_right-Within m v.y ny,
      )

-- After five reads in a row of which no axis was answered, the first two axes are 0 or -1,
-- whatever field of 16-bit values was measured before.
pub failed_reads_forget :
    (b : Bus) (v : Axes ℤ) (a1 a2 a3 a4 a5 : Axes Answer)
    → IsInt16 v
    → IsUnanswered a1
    → IsUnanswered a2
    → IsUnanswered a3
    → IsUnanswered a4
    → IsUnanswered a5
    → let last = mag_reads b v (a1 ∷ a2 ∷ a3 ∷ a4 ∷ a5 ∷ []) in
      ((last.x ≡ pos 0) ⊎ (last.x ≡ negsuc 0)) × ((last.y ≡ pos 0) ⊎ (last.y ≡ negsuc 0))
unfolding IsInt16 Near mag_reads
failed_reads_forget b v a1 a2 a3 a4 a5 (hx, hy, hz) u1 u2 u3 u4 u5 =
    let read : Bus × Axes ℤ → Axes Answer → Bus × Axes ℤ =
      λ (b', w) a. ((read_mag b' w a).0, (read_mag b' w a).1) in
    let s1 = read (b, v) a1 in
    let s2 = read s1 a2 in
    let s3 = read s2 a3 in
    let s4 = read s3 a4 in
    let n1 = failed_read-Near 4096 b v a1 (omega arith) ((hx, hy, hz), hx, hy) u1 in
    let n2 = failed_read-Near 512 s1.0 s1.1 a2 (omega arith) n1 u2 in
    let n3 = failed_read-Near 64 s2.0 s2.1 a3 (omega arith) n2 u3 in
    let n4 = failed_read-Near 8 s3.0 s3.1 a4 (omega arith) n3 u4 in
    let (h, nx, ny) = failed_read-Near 1 s4.0 s4.1 a5 (omega arith) n4 u5 in
    (zero_or_minus_one _ nx, zero_or_minus_one _ ny)
