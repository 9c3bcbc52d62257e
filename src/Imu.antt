-- ===== src/Imu.antt =====
-- The attitude that the flight controllers read: `VirtualImu` (chicken/device/virtual_imu.cpp), an
-- attitude received by radio that goes out of service after 500 ms, and `ADI`
-- (chicken/instruments/adi.cpp), which falls back to the sensors.
--
-- `unsigned long` has 32 bits on the target. Each call is given what `millis()` returns.
pub mod Service
mod Tests
use cooboc.Base.{ℕ, ◌-◌, ◌^◌, Bool, true, false, Option, none, some, ltb, if◌then◌else◌}
use cooboc.Float.{Float}
use cooboc.Modem.{elapsed}

abbrev virtual_imu_timeout : ℕ
virtual_imu_timeout = 500

module _ (F : Float) where
  open F use {Double}

  pub record ImuAttitude : Type 0 where
    pub pitch : Double
    pub roll : Double
    pub heading : Double

  pub record VirtualImu : Type 0 where
    pub in_service : Bool
    pub last_valid_data_time : ℕ
    pub attitude : ImuAttitude

  new_virtual_imu : ImuAttitude → VirtualImu
  new_virtual_imu zero_attitude = record {
    in_service = false;
    last_valid_data_time = 0;
    attitude = zero_attitude;
  }

  unfoldable pub update_attitude : VirtualImu → ImuAttitude → ℕ → VirtualImu
  update_attitude v attitude now = record {
    in_service = true;
    last_valid_data_time = now;
    attitude = attitude;
  }

  -- `isInService` puts the device out of service itself.
  pub is_in_service : VirtualImu → ℕ → VirtualImu × Bool
  is_in_service v now =
      if v.in_service
      then (let v' =
            if ltb virtual_imu_timeout (elapsed v.last_valid_data_time now)
            then record v { in_service = false }
            else v in
          (v', v'.in_service))
      else (v, false)

  -- `ADI::getAttitude`; `none` is the NULL of `mVirtualImu`, and `sensed` what `Imu` gives.
  unfoldable pub get_attitude :
      Option VirtualImu → ImuAttitude → ℕ → Option VirtualImu × ImuAttitude
  unfolding is_in_service
  get_attitude none sensed now = (none, sensed)
  get_attitude (some v) sensed now =
      let (v', in_service) = is_in_service v now in
      (some v', if in_service then v'.attitude else sensed)
