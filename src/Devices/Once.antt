-- ===== src/Devices/Once.antt =====
-- The devices that chicken/device_manager.cpp keeps, over a sequence of requests.
use cooboc.Base.{ℕ, ◌≡◌, none, some, List, [], ◌∷◌, ◌++◌, arith}
use cooboc.Devices.{
  DeviceType, code, Device, DeviceManager, find_first_device_by_type, fresh_device, get_device,
  after_requests,
}

pub find-append_none :
    (t : ℕ) (ds : List Device) (d : Device)
    → find_first_device_by_type t ds ≡ none
    → d.device_type ≡ t
    → find_first_device_by_type t (ds ++ (d ∷ [])) ≡ some d
unfolding find_first_device_by_type
find-append_none t [] d h e = ground arith
find-append_none t (x ∷ ds) d h e = ground (arith, find-append_none t ds d)

find-append_some :
    (t : ℕ) (ds : List Device) (d found : Device)
    → find_first_device_by_type t ds ≡ some found
    → find_first_device_by_type t (ds ++ (d ∷ [])) ≡ some found
unfolding find_first_device_by_type
find-append_some t [] d found h = cc
find-append_some t (x ∷ ds) d found h = ground (arith, find-append_some t ds d found)

-- What a device is, once it has been asked for, at every later time.
abbrev pub Has : DeviceManager → DeviceType → Device → Type 0
Has m t d = find_first_device_by_type (code t) m.running_devices ≡ some d

get_device-Has : (m : DeviceManager) (t : DeviceType) → Has (get_device m t).0 t (get_device m t).1
unfolding get_device
get_device-Has m t =
    ground (arith, find-append_none (code t) m.running_devices (fresh_device m (code t)))

Has-get_device :
    (m : DeviceManager) (t u : DeviceType) (d : Device) → Has m t d → Has (get_device m u).0 t d
unfolding get_device
Has-get_device m t u d h =
    ground (arith, find-append_some (code t) m.running_devices (fresh_device m (code u)) d)

pub get_device_of_Has :
    (m : DeviceManager) (t : DeviceType) (d : Device) → Has m t d → get_device m t ≡ (m, d)
unfolding get_device
get_device_of_Has m t d h = rw (h, get_device)

pub Has-after_requests :
    (m : DeviceManager) (ts : List DeviceType) (t : DeviceType) (d : Device)
    → Has m t d
    → Has (after_requests m ts) t d
unfolding after_requests
Has-after_requests m [] t d h = h
Has-after_requests m (u ∷ ts) t d h =
    Has-after_requests (get_device m u).0 ts t d (Has-get_device m t u d h)

-- A device that was asked for is given again, the same object, at every later request for its
-- type, whatever was asked for between; and that request changes nothing.
same_device_again :
    (m : DeviceManager) (t : DeviceType) (between : List DeviceType)
    → let (m', d) = get_device m t in
      get_device (after_requests m' between) t ≡ (after_requests m' between, d)
same_device_again m t between =
    let (m', d) = get_device m t in
    get_device_of_Has (after_requests m' between) t d
      (Has-after_requests m' between t d (get_device-Has m t))
