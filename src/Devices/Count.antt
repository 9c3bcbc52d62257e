-- ===== src/Devices/Count.antt =====
-- How many devices chicken/device_manager.cpp keeps, over a sequence of requests.
use cooboc.Base.{
  ℕ, ◌+◌, ◌≤◌, ◌≡◌, ◌≢◌, refl, sym, ap, ◌∙◌, inl, inr, false, Option, none, some, List, [], ◌∷◌,
  ◌++◌, arith, length, length-append, Bool-cases, ==_iff, ◌==◌, if◌then◌else◌,
}
use cooboc.Devices.{
  DeviceType, radio, imu, servo_controller, aoa, beeper, agl, hr, virtual_imu, code, Device,
  DeviceManager, new_device_manager, find_first_device_by_type, fresh_device, get_device,
  after_requests,
}
use cooboc.Devices.Once.{find-append_none}

find-append_ne :
    (t : ℕ) (ds : List Device) (d : Device)
    → d.device_type ≢ t
    → find_first_device_by_type t (ds ++ (d ∷ [])) ≡ find_first_device_by_type t ds
unfolding find_first_device_by_type
find-append_ne t [] d h = ground arith
find-append_ne t (x ∷ ds) d h = ground (arith, find-append_ne t ds d h)

abbrev is_held : Option Device → ℕ
is_held none = 0
is_held (some d) = 1

abbrev held : List Device → DeviceType → ℕ
held ds t = is_held (find_first_device_by_type (code t) ds)

-- How many of the eight types have a device.
types_held : List Device → ℕ
types_held ds =
    held ds radio
    + held ds imu
    + held ds servo_controller
    + held ds aoa
    + held ds beeper
    + held ds agl
    + held ds hr
    + held ds virtual_imu

types_held-le : (ds : List Device) → types_held ds ≤ 8
unfolding types_held
types_held-le ds = omega (
  arith,
  le_one (find_first_device_by_type (code radio) ds),
  le_one (find_first_device_by_type (code imu) ds),
  le_one (find_first_device_by_type (code servo_controller) ds),
  le_one (find_first_device_by_type (code aoa) ds),
  le_one (find_first_device_by_type (code beeper) ds),
  le_one (find_first_device_by_type (code agl) ds),
  le_one (find_first_device_by_type (code hr) ds),
  le_one (find_first_device_by_type (code virtual_imu) ds),
)
  where
    le_one : (o : Option Device) → is_held o ≤ 1
    le_one none = omega arith
    le_one (some d) = omega arith

abbrev is_same : DeviceType → DeviceType → ℕ
is_same t u = if code t == code u then 1 else 0

module _ (ds : List Device) (d : Device) where
  held_same :
      (t : DeviceType) → d.device_type ≡ code t → held ds t ≡ 0 → held (ds ++ (d ∷ [])) t ≡ 1
  held_same t e h = go (find_first_device_by_type (code t) ds) refl
    where
      go :
          (o : Option Device)
          → find_first_device_by_type (code t) ds ≡ o
          → held (ds ++ (d ∷ [])) t ≡ 1
      go none k = ap is_held (find-append_none (code t) ds d k e)
      go (some x) k = ground (arith, h, k)

  held_other : (t : DeviceType) → d.device_type ≢ code t → held (ds ++ (d ∷ [])) t ≡ held ds t
  held_other t ne = ap is_held (find-append_ne (code t) ds d ne)

  held_after :
      (t u : DeviceType)
      → d.device_type ≡ code t
      → held ds t ≡ 0
      → held (ds ++ (d ∷ [])) u ≡ held ds u + is_same t u
  held_after t u e h = elim (Bool-cases (code t == code u)) [
    | inl k ↦ rw k (
        held_same u (e ∙ (==_iff _ _).0 k) (none_held ((==_iff _ _).0 k))
        ∙ omega (arith, none_held ((==_iff _ _).0 k)))
    | inr k ↦ rw k (held_other u (λ q. differ k (sym e ∙ q)) ∙ omega arith)
  ]
    where
      none_held : code t ≡ code u → held ds u ≡ 0
      none_held k = ap (λ c. is_held (find_first_device_by_type c ds)) (sym k) ∙ h

      differ : (code t == code u) ≡ false → code t ≢ code u
      differ k q = ground arith

  types_held-append :
      (t : DeviceType)
      → d.device_type ≡ code t
      → held ds t ≡ 0
      → types_held (ds ++ (d ∷ [])) ≡ types_held ds + 1
  unfolding types_held
  types_held-append t e h = omega (
    arith,
    held_after t radio e h,
    held_after t imu e h,
    held_after t servo_controller e h,
    held_after t aoa e h,
    held_after t beeper e h,
    held_after t agl e h,
    held_after t hr e h,
    held_after t virtual_imu e h,
    one_of_eight t,
  )
    where
      one_of_eight :
          (t : DeviceType)
          → is_same t radio
              + is_same t imu
              + is_same t servo_controller
              + is_same t aoa
              + is_same t beeper
              + is_same t agl
              + is_same t hr
              + is_same t virtual_imu
            ≡ 1
      one_of_eight radio = refl
      one_of_eight imu = refl
      one_of_eight servo_controller = refl
      one_of_eight aoa = refl
      one_of_eight beeper = refl
      one_of_eight agl = refl
      one_of_eight hr = refl
      one_of_eight virtual_imu = refl

-- The array holds one device of each type that it holds.
abbrev IsCounted : DeviceManager → Type 0
IsCounted m = length m.running_devices ≡ types_held m.running_devices

get_device-IsCounted :
    (m : DeviceManager) (t : DeviceType) → IsCounted m → IsCounted (get_device m t).0
unfolding get_device
get_device-IsCounted m t c = go (find_first_device_by_type (code t) m.running_devices) refl
  where
    go :
        (o : Option Device)
        → find_first_device_by_type (code t) m.running_devices ≡ o
        → IsCounted (get_device m t).0
    go none k =
        rw (k, get_device)
          (length-append m.running_devices (fresh_device m (code t) ∷ [])
            ∙ omega (
              arith,
              c,
              types_held-append m.running_devices (fresh_device m (code t)) t refl (ap is_held k),
            ))
    go (some d) k = rw (k, get_device) c

after_requests-IsCounted :
    (m : DeviceManager) (ts : List DeviceType) → IsCounted m → IsCounted (after_requests m ts)
unfolding after_requests
after_requests-IsCounted m [] c = c
after_requests-IsCounted m (t ∷ ts) c =
    after_requests-IsCounted (get_device m t).0 ts (get_device-IsCounted m t c)

-- Any number of requests to a new manager leaves at most eight devices in its array of 256.
at_most_eight_devices :
    (ts : List DeviceType) → length (after_requests new_device_manager ts).running_devices ≤ 8
unfolding new_device_manager
at_most_eight_devices ts = omega (
  arith,
  after_requests-IsCounted new_device_manager ts
      (unfold types_held find_first_device_by_type in refl),
  types_held-le (after_requests new_device_manager ts).running_devices,
)
