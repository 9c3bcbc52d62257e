-- ===== src/Cockpit/Received.antt =====
-- The flight side of chicken/chicken.cpp while the radio's attitudes are in service.
use cooboc.Base.{
  ℕ, ◌≤◌, ◌≡◌, refl, sym, subst, ap, ◌∙◌, Bool, true, false, Bool-cases, inl, inr, if◌then◌else◌,
  Option, none, some, List, [], ◌∷◌,
}
use cooboc.Float.{Float}
use cooboc.Modem.{elapsed}
use cooboc.Imu.{ImuAttitude, VirtualImu, get_attitude}
use cooboc.Imu.Service.{get_attitude_young}
use cooboc.Servo.{Mavlink}
use cooboc.Radio.{AttitudeFields}
use cooboc.Iic.{Bus}
use cooboc.Fusion
use cooboc.Status.{navigates}
use cooboc.Flight.{Flight, attitude_navigator, attitude_step, controller_step}
use cooboc.Flight
use cooboc.Flight.Unasked.{status_unasked, attitude_unasked, controller_unasked}
use cooboc.Cockpit.{
  Cockpit, Turn, FlightTurn, status_turn, attitude_turn, controller_turn, manully_turn, write_turn,
  fetch_turn, tunning_turn, flight_turn, radio_turn, sense_turn, will_take_over, fly, step, run,
}

module _ (F : Float) (L : Mavlink) (fields : AttitudeFields F L) where
  -- The device is in service, and its attitude is at most 500 ms old.
  unfoldable pub IsFresh : Option (VirtualImu F) → ℕ → Type 0
  IsFresh none now = ⊥
  IsFresh (some v) now = (v.in_service ≡ true) × (elapsed v.last_valid_data_time now ≤ 500)

  -- It is so where `ADI` is asked.
  unfoldable pub IsFreshIf : Bool → Option (VirtualImu F) → ℕ → Type 0
  IsFreshIf true v now = IsFresh v now
  IsFreshIf false v now = Unit

  pub fresh_anyway :
      (asked : Bool) (v : Option (VirtualImu F)) (now : ℕ) → IsFresh v now → IsFreshIf asked v now
  unfolding IsFreshIf
  fresh_anyway true v now h = h
  fresh_anyway false v now h = tt

  -- At each question of the round to `ADI` it is so. A round of the status controller asks only where
  -- the attitude navigator takes over, one of that navigator only where it is the one that
  -- navigates, and one of the attitude controller only where it is enabled.
  unfoldable pub FreshIn : Flight F L → Option (VirtualImu F) → FlightTurn F L fields → Type 0
  unfolding IsFreshIf
  FreshIn f v (status_turn now later) =
      let asked = will_take_over F L fields f in IsFreshIf asked v now × IsFreshIf asked v later
  FreshIn f v (attitude_turn now) = IsFreshIf (navigates f.status attitude_navigator) v now
  FreshIn f v (controller_turn now) = IsFreshIf f.controller.is_enabled v now
  FreshIn f v manully_turn = Unit
  FreshIn f v write_turn = Unit
  FreshIn f v (fetch_turn chunks) = Unit
  FreshIn f v (tunning_turn p i d) = Unit

  -- At each question to `ADI` in the run it is so.
  unfoldable pub KeepsFresh : Cockpit F L fields → List (Turn F L fields) → Type 0
  KeepsFresh c [] = Unit
  KeepsFresh c (flight_turn t ∷ ts) =
      FreshIn c.flight c.radio.virtual_imu t × KeepsFresh (step F L fields c (flight_turn t)) ts
  KeepsFresh c (radio_turn chunks ∷ ts) = KeepsFresh (step F L fields c (radio_turn chunks)) ts
  KeepsFresh c (sense_turn sample ∷ ts) = KeepsFresh (step F L fields c (sense_turn sample)) ts

  -- The same turns without those of the sensors.
  unfoldable pub without_sensing : List (Turn F L fields) → List (Turn F L fields)
  without_sensing [] = []
  without_sensing (flight_turn t ∷ ts) = flight_turn t ∷ without_sensing ts
  without_sensing (radio_turn chunks ∷ ts) = radio_turn chunks ∷ without_sensing ts
  without_sensing (sense_turn sample ∷ ts) = without_sensing ts

  get_attitude-IsFresh :
      (v : VirtualImu F) (sensed : ImuAttitude F) (now : ℕ)
      → IsFresh (some v) now
      → get_attitude F (some v) sensed now ≡ (some v, v.attitude)
  unfolding IsFresh
  get_attitude-IsFresh v sensed now (on, young) = get_attitude_young F v sensed now on young

  -- A question whose answer is used only where it is asked.
  asked_fresh :
      {A : Type 0}
      → (v : Option (VirtualImu F)) (s s' : ImuAttitude F) (now : ℕ) (asked : Bool)
        (use_it : Option (VirtualImu F) × ImuAttitude F → A)
      → IsFreshIf asked v now
      → (asked ≡ false → (p q : Option (VirtualImu F) × ImuAttitude F) → use_it p ≡ use_it q)
      → use_it (get_attitude F v s now) ≡ use_it (get_attitude F v s' now)
  unfolding IsFreshIf IsFresh
  asked_fresh none s s' now true use_it h k = absurd h
  asked_fresh (some v) s s' now true use_it h k =
      ap use_it (get_attitude-IsFresh v s now h ∙ sym (get_attitude-IsFresh v s' now h))
  asked_fresh v s s' now false use_it h k = k refl _ _

  -- What is left of the device by a round that does not ask.
  unasked_device :
      {asked : Bool} (v w w' : Option (VirtualImu F))
      → asked ≡ false
      → (if asked then w else v) ≡ (if asked then w' else v)
  unasked_device v w w' off =
      ap (λ b. if b then w else v) off ∙ sym (ap (λ b. if b then w' else v) off)

  fly_asked :
      (f : Flight F L) (v : Option (VirtualImu F)) (s s' : ImuAttitude F) (now later : ℕ)
      → IsFreshIf true v now
      → IsFreshIf true v later
      → fly F L fields f v s (status_turn now later) ≡ fly F L fields f v s' (status_turn now later)
  unfolding fly IsFreshIf IsFresh
  fly_asked f none s s' now later h k = absurd h
  fly_asked f (some v) s s' now later h k = rw (
    get_attitude-IsFresh v s now h,
    get_attitude-IsFresh v s' now h,
    get_attitude-IsFresh v s later k,
    get_attitude-IsFresh v s' later k,
  )

  fly_unasked :
      (f : Flight F L) (v : Option (VirtualImu F)) (s s' : ImuAttitude F) (now later : ℕ)
      → will_take_over F L fields f ≡ false
      → fly F L fields f v s (status_turn now later) ≡ fly F L fields f v s' (status_turn now later)
  unfolding fly
  fly_unasked f v s s' now later off i =
      let (v1, a) = get_attitude F v s now in
      let (v2, current) = get_attitude F v1 s later in
      let (v1', a') = get_attitude F v s' now in
      let (v2', current') = get_attitude F v1' s' later in
      (
        status_unasked F L a current a' current' f (unfold will_take_over in off) i,
        unasked_device v v2 v2' off i,
      )

  -- Then the sensors have no part in the round.
  fly-FreshIn :
      (f : Flight F L) (v : Option (VirtualImu F)) (s s' : ImuAttitude F)
      (t : FlightTurn F L fields)
      → FreshIn f v t
      → fly F L fields f v s t ≡ fly F L fields f v s' t
  unfolding FreshIn fly
  fly-FreshIn f v s s' (status_turn now later) (h, k) =
      elim (Bool-cases (will_take_over F L fields f)) [
        | inl on ↦
            fly_asked f v s s' now later (subst (λ b. IsFreshIf b v now) on h)
              (subst (λ b. IsFreshIf b v later) on k)
        | inr off ↦ fly_unasked f v s s' now later off
      ]
  fly-FreshIn f v s s' (attitude_turn now) h =
      asked_fresh v s s' now (navigates f.status attitude_navigator)
        (λ p. (
          Flight.step F L f (attitude_step p.1),
          if navigates f.status attitude_navigator then p.0 else v,
        ))
        h (λ off p q i. (attitude_unasked F L p.1 q.1 f off i, unasked_device v p.0 q.0 off i))
  fly-FreshIn f v s s' (controller_turn now) h =
      asked_fresh v s s' now f.controller.is_enabled
        (λ p. (Flight.step F L f (controller_step p.1), if f.controller.is_enabled then p.0 else v))
        h (λ off p q i. (controller_unasked F L p.1 q.1 f off i, unasked_device v p.0 q.0 off i))
  fly-FreshIn f v s s' manully_turn h = refl
  fly-FreshIn f v s s' write_turn h = refl
  fly-FreshIn f v s s' (fetch_turn chunks) h = refl
  fly-FreshIn f v s s' (tunning_turn p i d) h = refl

  -- As long as the device is in service and its attitude at most 500 ms old at every question that a
  -- thread puts to `ADI`, where rounds that put none need no device: the flight side comes to the same
  -- state from any other estimate and bus of the sensors, with their updates left out of the run.
  pub received_attitudes_suffice :
      (c : Cockpit F L fields) (imu : Fusion.Imu F) (bus : Bus) (ts : List (Turn F L fields))
      → KeepsFresh c ts
      → (run F L fields c ts).flight
        ≡ (run F L fields (record c { imu = imu; bus = bus }) (without_sensing ts)).flight
  unfolding KeepsFresh without_sensing run
  received_attitudes_suffice c imu bus [] k = refl
  received_attitudes_suffice c imu bus (flight_turn t ∷ ts) (h, k) =
      received_attitudes_suffice (step F L fields c (flight_turn t)) imu bus ts k
      ∙ ap (λ (q : Cockpit F L fields). (run F L fields q (without_sensing ts)).flight) same_turn
    where
      same_turn :
          record (step F L fields c (flight_turn t)) { imu = imu; bus = bus }
          ≡ step F L fields (record c { imu = imu; bus = bus }) (flight_turn t)
      same_turn =
          unfold step in
          ap
            (λ (p : Flight F L × Option (VirtualImu F)). record {
              flight = p.0;
              radio = record (c.radio) { virtual_imu = p.1 };
              imu = imu;
              bus = bus;
            })
            (fly-FreshIn c.flight c.radio.virtual_imu (Fusion.get_attitude F c.imu)
              (Fusion.get_attitude F imu) t h)
  received_attitudes_suffice c imu bus (radio_turn chunks ∷ ts) k =
      received_attitudes_suffice (step F L fields c (radio_turn chunks)) imu bus ts k
      ∙ ap (λ (q : Cockpit F L fields). (run F L fields q (without_sensing ts)).flight)
          (unfold step in refl)
  received_attitudes_suffice c imu bus (sense_turn sample ∷ ts) k =
      received_attitudes_suffice (step F L fields c (sense_turn sample)) imu bus ts k
      ∙ ap (λ (q : Cockpit F L fields). (run F L fields q (without_sensing ts)).flight)
          (unfold step in refl)
