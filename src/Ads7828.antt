-- ===== src/Ads7828.antt =====
-- The converter ADS7828 (chicken/device/driver/ads7828_driver.cpp) and the devices that read it: `Aoa`
-- (chicken/device/aoa.cpp) and `Agl` (chicken/device/agl.cpp).
pub mod Channel
mod Tests
use cooboc.Base.{
  ℕ, Bool, true, false, Option, none, some, List, [], ◌∷◌, bit_or, get_or, if◌then◌else◌,
}
use cooboc.Base.Int.{pos}
use cooboc.Float.{Float}
use cooboc.Iic.{Bus, Answer, read_u16_be}

-- ADS7828_CHANNEL_BITS
abbrev ads7828_channel_bits : List ℕ
ads7828_channel_bits =
    0b00000000 ∷ 0b01000000 ∷ 0b00010000 ∷ 0b01010000 ∷ 0b00100000 ∷ 0b01100000 ∷ 0b00110000
    ∷ 0b01110000 ∷ []

-- The address, and `mUsingInternalRef`.
pub record Ads7828Driver : Type 0 where
  pub address : ℕ
  pub using_internal_ref : Bool

new_ads7828_driver : ℕ → Ads7828Driver
new_ads7828_driver address = record { address = address; using_internal_ref = true }

use_internal_ref : Ads7828Driver → Ads7828Driver
use_internal_ref d = record d { using_internal_ref = true }

use_external_ref : Ads7828Driver → Ads7828Driver
use_external_ref d = record d { using_internal_ref = false }

pub ads7828_command : ℕ → Bool → ℕ
ads7828_command id using_internal_ref =
    let command = bit_or (bit_or 0b10000000 (get_or ads7828_channel_bits id 0)) 0b00000100 in
    if using_internal_ref then bit_or command 0b00001000 else command

-- `readSingleChannel`; `stale` is what the variable holds that a failed read leaves as it was.
pub read_single_channel : Bus → Ads7828Driver → ℕ → ℕ → Answer → Bus × ℕ
unfolding read_u16_be ads7828_command
read_single_channel b d id stale a =
    let (b', value) = read_u16_be b d.address (ads7828_command id d.using_internal_ref) a in
    (b', elim value [ none ↦ stale | some v ↦ v ])

-- `init` of both devices.
pub init : Ads7828Driver
unfolding new_ads7828_driver use_external_ref
init = use_external_ref (new_ads7828_driver 0x48)

module _ (F : Float) where
  open F use {Double, sub, div, of_int, decimal}

  -- `(ad / 2048.0) - 1.0`
  pub centred : ℕ → Double
  centred ad = sub (div (of_int (pos ad)) (decimal 20480 1)) (decimal 10 1)

  pub read_aoa : Bus → Ads7828Driver → ℕ → Answer → Bus × Double
  unfolding read_single_channel centred
  read_aoa b d stale a = let (b', ad) = read_single_channel b d 0 stale a in (b', centred ad)

  pub read_side_slip : Bus → Ads7828Driver → ℕ → Answer → Bus × Double
  unfolding read_single_channel centred
  read_side_slip b d stale a = let (b', ad) = read_single_channel b d 1 stale a in (b', centred ad)

  pub measure_agl : Bus → Ads7828Driver → ℕ → Answer → Bus × Double
  unfolding read_single_channel
  measure_agl b d stale a =
      let (b', ad) = read_single_channel b d 2 stale a in (b', of_int (pos ad))
