-- ===== src/Devices/Setup.antt =====
-- The devices that `setupDevice` (chicken/chicken.cpp) makes.
use cooboc.Base.{ℕ, ◌≡◌, ◌≢◌, refl, true, List}
use cooboc.Devices.{
  DeviceType, radio, imu, servo_controller, aoa, beeper, agl, hr, virtual_imu, code, Device,
  get_device, after_requests, setup_device, new_device_manager, find_first_device_by_type,
}
use cooboc.Devices.Once.{Has, get_device_of_Has, Has-after_requests}

-- The place of each in the order of set-up.
unfoldable pub place : DeviceType → ℕ
place radio = 0
place imu = 1
place servo_controller = 2
place aoa = 3
place beeper = 4
place agl = 5
place virtual_imu = 6
place hr = 7

unfoldable pub set_up : DeviceType → Device
unfolding place
set_up t = record { device_type = code t; serial = place t; inited = true }

setup_device-Has : (t : DeviceType) → t ≢ hr → Has setup_device t (set_up t)
unfolding setup_device set_up after_requests new_device_manager get_device find_first_device_by_type
setup_device-Has radio h = refl
setup_device-Has imu h = refl
setup_device-Has servo_controller h = refl
setup_device-Has aoa h = refl
setup_device-Has beeper h = refl
setup_device-Has agl h = refl
setup_device-Has virtual_imu h = refl
setup_device-Has hr h = absurd (h refl)

-- After `setupDevice` and any later requests, each of the seven devices that it asks for is given as
-- the one object that it made then, in the order of its requests and with `init` called, and the
-- request makes nothing new.
setup_devices_kept :
    (t : DeviceType) (later : List DeviceType)
    → t ≢ hr
    → get_device (after_requests setup_device later) t
      ≡ (after_requests setup_device later, set_up t)
setup_devices_kept t later h =
    get_device_of_Has (after_requests setup_device later) t (set_up t)
      (Has-after_requests setup_device later t (set_up t) (setup_device-Has t h))
