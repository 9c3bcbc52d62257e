-- ===== src/Imu/Service.antt =====
-- The choice of the attitude by chicken/device/virtual_imu.cpp and chicken/instruments/adi.cpp.
use cooboc.Base.{refl, none, if◌then◌else◌, leb, ℕ, ◌≤◌, ◌≡◌, true, false, some, arith}
use cooboc.Float.{Float}
use cooboc.Modem.{elapsed}
use cooboc.Imu.{VirtualImu, ImuAttitude, update_attitude, is_in_service, get_attitude}

module _ (F : Float) where
  -- If the time since the update, as the clock of 32 bits shows it, is 500 ms or less, the received
  -- attitude is given, and else the sensors' one.
  pub received_until_timeout :
      (v : VirtualImu F) (received sensed : ImuAttitude F) (at now : ℕ)
      → (get_attitude F (some (update_attitude F v received at)) sensed now).1
        ≡ (if leb (elapsed at now) 500 then received else sensed)
  unfolding update_attitude get_attitude
  received_until_timeout v received sensed at now = ground arith

  -- A device that was found out of service at one time is out of service at the next question, at
  -- whatever time, also where the clock has come round, if it was not updated between.
  pub timeout_is_final :
      (v : VirtualImu F) (now later : ℕ)
      → (is_in_service F v now).1 ≡ false
      → (is_in_service F (is_in_service F v now).0 later).1 ≡ false
  unfolding is_in_service
  timeout_is_final v now later h = ground arith

  -- A device in service whose attitude is at most 500 ms old gives it, and stays in service.
  pub get_attitude_young :
      (v : VirtualImu F) (sensed : ImuAttitude F) (now : ℕ)
      → v.in_service ≡ true
      → elapsed v.last_valid_data_time now ≤ 500
      → get_attitude F (some v) sensed now ≡ (some v, v.attitude)
  unfolding get_attitude is_in_service
  get_attitude_young v sensed now on young = ground arith

  -- A device out of service has no part in the attitude, and stays out of it.
  pub get_attitude_out :
      (v : VirtualImu F) (sensed : ImuAttitude F) (now : ℕ)
      → v.in_service ≡ false
      → get_attitude F (some v) sensed now ≡ (some v, sensed)
  unfolding get_attitude is_in_service
  get_attitude_out v sensed now off = ground arith

  pub get_attitude-none :
      (sensed : ImuAttitude F) (now : ℕ) → get_attitude F none sensed now ≡ (none, sensed)
  unfolding get_attitude
  get_attitude-none sensed now = refl
