-- ===== src/Devices.antt =====
-- The device manager (chicken/device_manager.cpp): each device of a type is made once, when it is
-- first asked for. A device is known here by its type and by the order in which it was made.
pub mod Once
pub mod Count
pub mod Setup
mod Tests
use cooboc.Base.{
  ℕ, zero, suc, ◌+◌, Bool, true, false, Option, none, some, List, [], ◌∷◌, ◌++◌, length, ◌==◌,
  if◌then◌else◌,
}

-- The types that a getter asks for; DEVICE_TYPE_UNDEFINED and DEVICE_TYPE_HR_DISPLAY are of none.
pub data DeviceType : Type 0 where
  radio imu servo_controller aoa beeper agl hr virtual_imu : DeviceType

-- device_types.h
abbrev pub code : DeviceType → ℕ
code radio = 0x01
code imu = 0x02
code servo_controller = 0x03
code aoa = 0x04
code beeper = 0x05
code agl = 0x06
code hr = 0x20
code virtual_imu = 0x80

abbrev device_type_hr_display : ℕ
device_type_hr_display = 0x21

-- An object; `inited` says that `init` was called.
pub record Device : Type 0 where
  pub device_type : ℕ
  pub serial : ℕ
  pub inited : Bool

-- `running_devices` are the first `mNumRunningDevices` entries of the array; `made` counts the
-- objects made, the displays among them, which the manager does not keep.
pub record DeviceManager : Type 0 where
  pub running_devices : List Device
  pub made : ℕ

pub new_device_manager : DeviceManager
new_device_manager = record { running_devices = []; made = 0 }

pub find_first_device_by_type : ℕ → List Device → Option Device
find_first_device_by_type t [] = none
find_first_device_by_type t (d ∷ ds) =
    let rest = find_first_device_by_type t ds in if d.device_type == t then some d else rest

abbrev pub fresh_device : DeviceManager → ℕ → Device
fresh_device m t = record { device_type = t; serial = m.made; inited = true }

-- `new`, `init`, and the entry at the end of the array.
start_device : DeviceManager → ℕ → DeviceManager × Device
start_device m t = (
  record { running_devices = m.running_devices ++ (fresh_device m t ∷ []); made = m.made + 1 },
  fresh_device m t,
)

-- `getImu`, `getRadio` and the six others alike.
pub get_device : DeviceManager → DeviceType → DeviceManager × Device
unfolding start_device
get_device m t = elim (find_first_device_by_type (code t) m.running_devices) [
  | none ↦ start_device m (code t)
  | some d ↦ (m, d)
]

-- `getHrDisplay` makes a new display at each call.
get_hr_display : DeviceManager → DeviceManager × Device
get_hr_display m = (
  record m { made = m.made + 1 },
  record { device_type = device_type_hr_display; serial = m.made; inited = true },
)

-- The manager after a sequence of requests.
pub after_requests : DeviceManager → List DeviceType → DeviceManager
after_requests m [] = m
after_requests m (t ∷ ts) = after_requests (get_device m t).0 ts

-- `setupDevice` (chicken/chicken.cpp) asks a new manager for these, in this order.
abbrev device_order : List DeviceType
device_order = radio ∷ imu ∷ servo_controller ∷ aoa ∷ beeper ∷ agl ∷ virtual_imu ∷ []

pub setup_device : DeviceManager
unfolding new_device_manager after_requests
setup_device = after_requests new_device_manager device_order
