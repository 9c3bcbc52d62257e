-- ===== src/Iic.antt =====
-- The I2C bus handler `IicHandler` (chicken/device/driver/io/iic_handler.cpp).
--
-- A call of `read` or `write` is the kernel's: what it returns is given. The handler's calls are a
-- list of effects. The mutex is held through each operation, so an operation is one step.
pub mod Registers
pub mod Transactions
pub mod Served
mod Tests
use cooboc.Base.{
  ℕ, zero, suc, ◌+◌, ◌-◌, ◌*◌, ◌/◌, ◌%◌, ◌^◌, Bool, true, false, Option, none, some, List, [], ◌∷◌,
  ◌++◌, bit_or, ◌==◌, ltb, leb, if◌then◌else◌, ◌&&◌, get_or,
}
use cooboc.Base.Bits.{◌<<<◌}
use cooboc.Base.Int.{ℤ, pos, negsuc, signed16}

-- `select` is `ioctl(I2C_SLAVE)` with what it returned: `false` for a failure.
pub data Effect : Type 0 where
  select : ℕ → Bool → Effect
  write : List ℕ → Effect
  read : ℕ → Effect

-- `mCurrentDeviceAddr`, and the calls made.
pub record Bus : Type 0 where
  pub current_device_addr : ℕ
  pub effects : List Effect

-- What the kernel answers: whether `ioctl` succeeds, where it is called, the count that `write`
-- returns, and the count and bytes of `read`.
pub record Answer : Type 0 where
  pub accepted : Bool
  pub written : ℤ
  pub read_count : ℤ
  pub bytes : List ℕ

-- `ioctl(I2C_SLAVE)`, only where the device changes. What it returns is dropped.
unfoldable pub select_device : Bus → ℕ → Bool → Bus
select_device b device accepted = if device == b.current_device_addr then b else record {
  current_device_addr = device;
  effects = b.effects ++ (select device accepted ∷ []);
}

abbrev pub at_least : ℤ → ℕ → Bool
at_least (pos n) k = leb k n
at_least (negsuc n) k = false

abbrev pub equals : ℤ → ℕ → Bool
equals (pos n) k = n == k
equals (negsuc n) k = false

unfoldable pub send_reg_addr : Bus → ℕ → ℕ → Answer → Bus × Bool
unfolding select_device
send_reg_addr b device reg a =
    let b' = select_device b device a.accepted in
    (record b' { effects = b'.effects ++ (write (reg ∷ []) ∷ []) }, at_least a.written 1)

unfoldable pub write_byte : Bus → ℕ → ℕ → ℕ → Answer → Bus × Bool
unfolding select_device
write_byte b device reg value a =
    let b' = select_device b device a.accepted in
    (record b' { effects = b'.effects ++ (write (reg ∷ value ∷ []) ∷ []) }, at_least a.written 2)

-- The reads have one shape: `count` bytes are read, and `decode` is what is stored. `none` leaves
-- the caller's variable as it was.
unfoldable pub read_with {ℓ} :
    {A : Type ℓ} → ℕ → (List ℕ → A) → Bus → ℕ → ℕ → Answer → Bus × Option A
unfolding send_reg_addr
read_with count decode b device reg a =
    let (b', ok) = send_reg_addr b device reg a in
    (
      if ok then record b' { effects = b'.effects ++ (read count ∷ []) } else b',
      if ok && equals a.read_count count then some (decode a.bytes) else none,
    )

abbrev pub byte_at : List ℕ → ℕ → ℕ
byte_at bytes i = get_or bytes i 0

-- (int8_t) of a byte
abbrev pub signed8 : ℕ → ℤ
signed8 b = if ltb b 128 then pos b else negsuc (256 - b - 1)

unfoldable pub read_u8 : Bus → ℕ → ℕ → Answer → Bus × Option ℕ
unfolding read_with
read_u8 = read_with 1 (λ bytes. byte_at bytes 0)

unfoldable pub read_s8 : Bus → ℕ → ℕ → Answer → Bus × Option ℤ
unfolding read_with
read_s8 = read_with 1 (λ bytes. signed8 (byte_at bytes 0))

-- Big endian.
pub u16_be : List ℕ → ℕ
u16_be bytes = bit_or ((byte_at bytes 0 <<< 8) % 2 ^ 16) (byte_at bytes 1)

unfoldable pub read_u16_be : Bus → ℕ → ℕ → Answer → Bus × Option ℕ
unfolding read_with u16_be
read_u16_be = read_with 2 u16_be

-- Little endian: the bit pattern of the int16_t, whose `<<= 8` keeps 16 bits.
unfoldable pub s16_le_bits : List ℕ → ℕ
s16_le_bits bytes = bit_or ((byte_at bytes 1 <<< 8) % 2 ^ 16) (byte_at bytes 0)

unfoldable pub read_s16_le : Bus → ℕ → ℕ → Answer → Bus × Option ℤ
unfolding read_with s16_le_bits
read_s16_le = read_with 2 (λ bytes. signed16 (s16_le_bits bytes))
