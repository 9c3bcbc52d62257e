-- ===== src/Bmx055/Reads.antt =====
-- `readGyro`, `readAcc` and `readMag` of chicken/device/driver/bmx055_driver.cpp.
use cooboc.Base.{
  ℕ, ◌+◌, ◌*◌, ◌/◌, ◌<◌, ◌≡◌, refl, ap, ap₂, ◌∙◌, Bool, true, ◌&&◌, if◌then◌else◌, get_or,
  Bool-cases, inl, inr, List,
}
use cooboc.Base.Int.{signed16}
use cooboc.Iic.{Bus, Answer, at_least, equals, read_with, byte_at, read_u8, read_s8, signed8}
use cooboc.Bmx055.{
  Axes, AxisReads, variable, read_ok, read_gyro_axis, read_gyro, read_acc_axis, read_acc, gyro_axis,
  acc_axis,
}
use cooboc.Bmx055.Values.{gyro_axis_lem, acc_axis_lem, signed12}

-- The register's address was sent, and as many bytes came back as were asked for.
unfoldable pub answered : ℕ → Answer → Bool
answered count a = at_least a.written 1 && equals a.read_count count

abbrev pub byte : Answer → ℕ
byte a = get_or a.bytes 0 0

-- Both bytes of an axis came.
unfoldable pub IsRead : AxisReads → Type 0
unfolding answered
IsRead r =
    (answered 1 r.first ≡ true)
    × (answered 1 r.second ≡ true)
    × (byte r.first < 256)
    × (byte r.second < 256)

unfoldable pub AllRead : Axes AxisReads → Type 0
unfolding IsRead
AllRead r = IsRead r.x × IsRead r.y × IsRead r.z

pub read_with_lem {ℓ} :
    {A : Type ℓ}
    → (count : ℕ) (decode : List ℕ → A) (b : Bus) (device reg : ℕ) (a : Answer) (stale : A)
    → (variable stale (read_with count decode b device reg a).1
        ≡ (if answered count a then decode a.bytes else stale))
      × (read_ok (read_with count decode b device reg a).1 ≡ answered count a)
unfolding read_with answered
read_with_lem count decode b device reg a stale =
    elim (Bool-cases (at_least a.written 1 && equals a.read_count count)) [
      | inl k ↦ simp k (refl, refl)
      | inr k ↦ simp k (refl, refl)
    ]

variable_read {ℓ} :
    {A : Type ℓ}
    → (count : ℕ) (decode : List ℕ → A) (b : Bus) (device reg : ℕ) (a : Answer) (stale : A)
    → answered count a ≡ true
    → variable stale (read_with count decode b device reg a).1 ≡ decode a.bytes
variable_read count decode b device reg a stale h =
    (read_with_lem count decode b device reg a stale).0
    ∙ ap (λ k. if k then decode a.bytes else stale) h

-- What the reads of three axes return, of what those of each axis return.
unfoldable pub all_three : Bool → Bool → Bool → Bool
all_three x y z = (x && y) && z

unfoldable pub both_answered : AxisReads → Bool
both_answered r = answered 1 r.first && answered 1 r.second

pub gyro_axis_ok :
    (b : Bus) (msb lsb : ℕ) (r : AxisReads) → (read_gyro_axis b msb lsb r).2 ≡ both_answered r
unfolding read_gyro_axis read_u8 read_s8 both_answered
gyro_axis_ok b msb lsb r =
    ap₂ (λ h k. h && k)
      (read_with_lem 1 (λ bytes. signed8 (byte_at bytes 0)) b 0x68 msb r.first r.stale_msb).1
      (read_with_lem 1 (λ bytes. byte_at bytes 0) (read_s8 b 0x68 msb r.first).0 0x68 lsb r.second
        r.stale_lsb).1

pub acc_axis_ok :
    (b : Bus) (msb lsb : ℕ) (r : AxisReads) → (read_acc_axis b msb lsb r).2 ≡ both_answered r
unfolding read_acc_axis read_u8 read_s8 both_answered
acc_axis_ok b msb lsb r =
    ap₂ (λ h k. h && k)
      (read_with_lem 1 (λ bytes. byte_at bytes 0) b 0x18 lsb r.first r.stale_lsb).1
      (read_with_lem 1 (λ bytes. signed8 (byte_at bytes 0)) (read_u8 b 0x18 lsb r.first).0 0x18 msb
        r.second r.stale_msb).1

gyro_axis_read :
    (b : Bus) (msb lsb : ℕ) (r : AxisReads)
    → IsRead r
    → (read_gyro_axis b msb lsb r).1 ≡ signed16 (byte r.first * 256 + byte r.second)
unfolding read_gyro_axis read_u8 read_s8 IsRead
gyro_axis_read b msb lsb r (h1, h2, k1, k2) =
    ap₂ gyro_axis
      (variable_read 1 (λ bytes. signed8 (byte_at bytes 0)) b 0x68 msb r.first r.stale_msb h1)
      (variable_read 1 (λ bytes. byte_at bytes 0) (read_s8 b 0x68 msb r.first).0 0x68 lsb r.second
        r.stale_lsb h2)
    ∙ gyro_axis_lem (byte r.first) (byte r.second) k1 k2

acc_axis_read :
    (b : Bus) (msb lsb : ℕ) (r : AxisReads)
    → IsRead r
    → (read_acc_axis b msb lsb r).1 ≡ signed12 (byte r.second * 16 + byte r.first / 16)
unfolding read_acc_axis read_u8 read_s8 IsRead
acc_axis_read b msb lsb r (h1, h2, k1, k2) =
    ap₂ acc_axis
      (variable_read 1 (λ bytes. signed8 (byte_at bytes 0)) (read_u8 b 0x18 lsb r.first).0 0x18 msb
        r.second r.stale_msb h2)
      (variable_read 1 (λ bytes. byte_at bytes 0) b 0x18 lsb r.first r.stale_lsb h1)
    ∙ acc_axis_lem (byte r.second) (byte r.first) k2 k1

abbrev pub axes {ℓ} : {A : Type ℓ} → A → A → A → Axes A
axes x y z = record { x = x; y = y; z = z }

pub axes_ap {ℓ} :
    {A : Type ℓ} {x y z x' y' z' : A} → x ≡ x' → y ≡ y' → z ≡ z' → axes x y z ≡ axes x' y' z'
axes_ap p q r i = axes (p i) (q i) (r i)

gyro_axes :
    (b : Bus) (r : Axes AxisReads)
    → (IsRead r.x → (read_gyro b r).1.x ≡ signed16 (byte r.x.first * 256 + byte r.x.second))
      × (IsRead r.y → (read_gyro b r).1.y ≡ signed16 (byte r.y.first * 256 + byte r.y.second))
      × (IsRead r.z → (read_gyro b r).1.z ≡ signed16 (byte r.z.first * 256 + byte r.z.second))
unfolding read_gyro
gyro_axes b r = (
  gyro_axis_read b 3 2 r.x,
  gyro_axis_read (read_gyro_axis b 3 2 r.x).0 5 4 r.y,
  gyro_axis_read (read_gyro_axis (read_gyro_axis b 3 2 r.x).0 5 4 r.y).0 7 6 r.z,
)

acc_axes :
    (b : Bus) (r : Axes AxisReads)
    → (IsRead r.x → (read_acc b r).1.x ≡ signed12 (byte r.x.second * 16 + byte r.x.first / 16))
      × (IsRead r.y → (read_acc b r).1.y ≡ signed12 (byte r.y.second * 16 + byte r.y.first / 16))
      × (IsRead r.z → (read_acc b r).1.z ≡ signed12 (byte r.z.second * 16 + byte r.z.first / 16))
unfolding read_acc
acc_axes b r = (
  acc_axis_read b 3 2 r.x,
  acc_axis_read (read_acc_axis b 3 2 r.x).0 5 4 r.y,
  acc_axis_read (read_acc_axis (read_acc_axis b 3 2 r.x).0 5 4 r.y).0 7 6 r.z,
)

-- If all six bytes came, `readGyro` gives the axes as 16-bit two's complement numbers, whose high
-- bytes it read first, and `readAcc` as 12-bit ones, whose low bytes it read first.
pub axes_read :
    (b : Bus) (r : Axes AxisReads)
    → AllRead r
    → ((read_gyro b r).1 ≡ record {
      x = signed16 (byte r.x.first * 256 + byte r.x.second);
      y = signed16 (byte r.y.first * 256 + byte r.y.second);
      z = signed16 (byte r.z.first * 256 + byte r.z.second);
    })
      × ((read_acc b r).1 ≡ record {
        x = signed12 (byte r.x.second * 16 + byte r.x.first / 16);
        y = signed12 (byte r.y.second * 16 + byte r.y.first / 16);
        z = signed12 (byte r.z.second * 16 + byte r.z.first / 16);
      })
unfolding AllRead
axes_read b r (hx, hy, hz) =
    let (gx, gy, gz) = gyro_axes b r in
    let (ax, ay, az) = acc_axes b r in
    (axes_ap (gx hx) (gy hy) (gz hz), axes_ap (ax hx) (ay hy) (az hz))
