-- ===== src/Bmx055.antt =====
-- The acceleration, turn and magnetic sensors BMX055 (chicken/device/driver/bmx055_driver.cpp) on
-- the bus.
--
-- What the bus answers to each call is an argument, and so is what an uninitialised variable holds.
pub mod Values
pub mod Reads
pub mod Failures
pub mod Start
pub mod Magnetic
pub mod Sample
mod Tests
use cooboc.Base.{
  ℕ, ◌+◌, ◌-◌, ◌*◌, ◌/◌, ◌%◌, ◌^◌, Bool, true, false, Option, none, some, bit_or, ◌==◌, ltb, leb,
  if◌then◌else◌, ◌&&◌,
}
use cooboc.Base.Bits.{◌<<<◌}
use cooboc.Base.Int.{ℤ, pos, negsuc, signed16}
use cooboc.Iic.{Bus, Answer, read_u8, read_s8, read_s16_le, write_byte}

abbrev acc_addr : ℕ
acc_addr = 0x18

abbrev gyro_addr : ℕ
gyro_addr = 0x68

abbrev mag_addr : ℕ
mag_addr = 0x10

-- What the registers hold of the three axes, and RawGyroValue, RawAccValue and RawMagValue.
pub record Axes {ℓ} (A : Type ℓ) : Type ℓ where
  pub x : A
  pub y : A
  pub z : A

-- The answers to the first and to the second read of an axis, and what `msb` and `lsb` hold before.
pub record AxisReads : Type 0 where
  pub first : Answer
  pub second : Answer
  pub stale_msb : ℤ
  pub stale_lsb : ℕ

-- The variable that a read is to set, after it, and what the read returns.
abbrev pub variable {ℓ} : {A : Type ℓ} → A → Option A → A
variable before none = before
variable before (some a) = a

abbrev pub read_ok {ℓ} : {A : Type ℓ} → Option A → Bool
read_ok none = false
read_ok (some a) = true

-- x >> k of a negative number rounds down.
abbrev pub shift_right : ℤ → ℕ → ℤ
shift_right (pos n) k = pos (n / 2 ^ k)
shift_right (negsuc n) k = negsuc (n / 2 ^ k)

-- A 32-bit `int` from its bit pattern.
abbrev signed32 : ℕ → ℤ
signed32 w = if ltb w (2 ^ 31) then pos w else negsuc (2 ^ 32 - w - 1)

-- The bit pattern of a 32-bit `int`.
abbrev pub bits32 : ℤ → ℕ
bits32 (pos n) = n
bits32 (negsuc n) = 2 ^ 32 - 1 - n

-- `ret = msb; ret <<= 8; ret |= lsb;`
abbrev joined : ℤ → ℕ → ℕ
joined msb lsb = bit_or ((bits32 msb <<< 8) % 2 ^ 32) lsb

pub gyro_axis : ℤ → ℕ → ℤ
gyro_axis msb lsb = signed32 (joined msb lsb)

-- `readAccAxis` keeps the upper 12 bits.
unfoldable pub acc_axis : ℤ → ℕ → ℤ
acc_axis msb lsb = shift_right (signed32 (joined msb lsb)) 4

-- `readGyroAxis` of the registers of these addresses. The value is set whatever the reads returned.
pub read_gyro_axis : Bus → ℕ → ℕ → AxisReads → Bus × ℤ × Bool
unfolding read_s8 read_u8 gyro_axis
read_gyro_axis b msb_addr lsb_addr r =
    let (b1, msb) = read_s8 b gyro_addr msb_addr r.first in
    let (b2, lsb) = read_u8 b1 gyro_addr lsb_addr r.second in
    (
      b2,
      gyro_axis (variable r.stale_msb msb) (variable r.stale_lsb lsb),
      read_ok msb && read_ok lsb,
    )

pub read_gyro : Bus → Axes AxisReads → Bus × Axes ℤ × Bool
unfolding read_gyro_axis
read_gyro b r =
    let (b1, x, ok_x) = read_gyro_axis b 0x03 0x02 r.x in
    let (b2, y, ok_y) = read_gyro_axis b1 0x05 0x04 r.y in
    let (b3, z, ok_z) = read_gyro_axis b2 0x07 0x06 r.z in
    (b3, record { x = x; y = y; z = z }, (ok_x && ok_y) && ok_z)

-- `readAccAxis` reads the low byte first.
unfoldable pub read_acc_axis : Bus → ℕ → ℕ → AxisReads → Bus × ℤ × Bool
unfolding read_s8 read_u8 acc_axis
read_acc_axis b msb_addr lsb_addr r =
    let (b1, lsb) = read_u8 b acc_addr lsb_addr r.first in
    let (b2, msb) = read_s8 b1 acc_addr msb_addr r.second in
    (b2, acc_axis (variable r.stale_msb msb) (variable r.stale_lsb lsb), read_ok lsb && read_ok msb)

unfoldable pub read_acc : Bus → Axes AxisReads → Bus × Axes ℤ × Bool
unfolding read_acc_axis
read_acc b r =
    let (b1, x, ok_x) = read_acc_axis b 0x03 0x02 r.x in
    let (b2, y, ok_y) = read_acc_axis b1 0x05 0x04 r.y in
    let (b3, z, ok_z) = read_acc_axis b2 0x07 0x06 r.z in
    (b3, record { x = x; y = y; z = z }, (ok_x && ok_y) && ok_z)

-- (int16_t)value
abbrev pub int16 : ℤ → ℤ
int16 v = signed16 (bits32 v % 2 ^ 16)

-- `readMag`: each axis starts from the value that it had.
pub read_mag : Bus → Axes ℤ → Axes Answer → Bus × Axes ℤ × Bool
unfolding read_s16_le
read_mag b value a =
    let (b1, x) = read_s16_le b mag_addr 0x42 a.x in
    let (b2, y) = read_s16_le b1 mag_addr 0x44 a.y in
    let (b3, z) = read_s16_le b2 mag_addr 0x46 a.z in
    (
      b3,
      record {
        x = shift_right (variable (int16 value.x) x) 3;
        y = shift_right (variable (int16 value.y) y) 3;
        z = shift_right (variable (int16 value.z) z) 1;
      },
      (read_ok x && read_ok y) && read_ok z,
    )

-- The answers to the five calls of `wakeupMag`.
pub record WakeAnswers : Type 0 where
  pub power : Answer
  pub chip_id : Answer
  pub op : Answer
  pub rep_xy : Answer
  pub rep_z : Answer

pub wakeup_mag : Bus → WakeAnswers → Bus × Bool
unfolding read_u8 write_byte
wakeup_mag b a =
    let (b1, ok1) = write_byte b mag_addr 0x4b 0x01 a.power in
    let (b2, chip_id) = read_u8 b1 mag_addr 0x40 a.chip_id in
    let (b3, ok3) = write_byte b2 mag_addr 0x4c 0b00111000 a.op in
    let (b4, ok4) = write_byte b3 mag_addr 0x51 23 a.rep_xy in
    let (b5, ok5) = write_byte b4 mag_addr 0x52 41 a.rep_z in
    (b5, ((((ok1 && read_ok chip_id) && ok3) && ok4) && ok5) && (variable 0 chip_id == 0x32))

-- `resetAcc` and `resetGyro`: what the two writes return is not used.
reset_acc : Bus → Answer → Answer → Bus
unfolding write_byte
reset_acc b first second =
    (write_byte (write_byte b acc_addr 0x14 0xb6 first).0 acc_addr 0x0f 0b00001100 second).0

reset_gyro : Bus → Answer → Answer → Bus
unfolding write_byte
reset_gyro b first second =
    (write_byte (write_byte b gyro_addr 0x14 0xb6 first).0 gyro_addr 0x0f 0b0000001 second).0

pub record StartAnswers : Type 0 where
  pub acc_id : Answer
  pub gyro_id : Answer
  pub wake : WakeAnswers
  pub reset_acc_first : Answer
  pub reset_acc_second : Answer
  pub reset_gyro_first : Answer
  pub reset_gyro_second : Answer

-- What the constructor prints of each sensor: good or bad.
pub record Health : Type 0 where
  pub acc : Bool
  pub gyro : Bool
  pub mag : Bool

-- The constructor. A `chipId` that was not read counts only after `iicOk`.
pub new_bmx055_driver : Bus → StartAnswers → Bus × Health
unfolding read_u8 wakeup_mag reset_acc reset_gyro
new_bmx055_driver b a =
    let (b1, acc_id) = read_u8 b acc_addr 0x00 a.acc_id in
    let (b2, gyro_id) = read_u8 b1 gyro_addr 0x00 a.gyro_id in
    let (b3, mag) = wakeup_mag b2 a.wake in
    let b4 = reset_acc b3 a.reset_acc_first a.reset_acc_second in
    let b5 = reset_gyro b4 a.reset_gyro_first a.reset_gyro_second in
    (
      b5,
      record {
        acc = read_ok acc_id && (variable 0 acc_id == 0xfa);
        gyro = read_ok gyro_id && (variable 0 gyro_id == 0x0f);
        mag = mag;
      },
    )
