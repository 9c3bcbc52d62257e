-- ===== src/Cockpit/Sensed.antt =====
-- The flight side of chicken/chicken.cpp once the radio's attitudes are out of service.
use cooboc.Base.{
  ◌≡◌, refl, sym, ap, ap₂, ◌∙◌, if_same, false, Option, none, some, List, [], ◌∷◌, until_empty,
}
use cooboc.Float.{Float}
use cooboc.Imu.{ImuAttitude, VirtualImu}
use cooboc.Imu.Service.{get_attitude_out, get_attitude-none}
use cooboc.Servo.{Mavlink}
use cooboc.Radio.{AttitudeFields}
use cooboc.Radio.Shown.{last_attitude, updated, virtual_imu-fetch_data}
use cooboc.Radio
use cooboc.Fusion
use cooboc.Flight.{Flight}
use cooboc.Cockpit.{
  Cockpit, Turn, FlightTurn, status_turn, attitude_turn, controller_turn, manully_turn, write_turn,
  fetch_turn, tunning_turn, flight_turn, radio_turn, sense_turn, fly, step, run,
}

module _ (F : Float) (L : Mavlink) (fields : AttitudeFields F L) where
  -- None of the turns of the radio receives an attitude.
  unfoldable pub NoneReceived : Cockpit F L fields → List (Turn F L fields) → Type 0
  NoneReceived c [] = Unit
  NoneReceived c (flight_turn t ∷ ts) = NoneReceived (step F L fields c (flight_turn t)) ts
  NoneReceived c (radio_turn chunks ∷ ts) =
      (last_attitude F L fields c.radio.receiver (until_empty chunks) ≡ none)
      × NoneReceived (step F L fields c (radio_turn chunks)) ts
  NoneReceived c (sense_turn sample ∷ ts) = NoneReceived (step F L fields c (sense_turn sample)) ts

  -- The same turns without those of the radio.
  unfoldable pub without_radio : List (Turn F L fields) → List (Turn F L fields)
  without_radio [] = []
  without_radio (flight_turn t ∷ ts) = flight_turn t ∷ without_radio ts
  without_radio (radio_turn chunks ∷ ts) = without_radio ts
  without_radio (sense_turn sample ∷ ts) = sense_turn sample ∷ without_radio ts

  -- What a round makes with a device out of service, of which nothing becomes.
  fly_out :
      (f : Flight F L) (v : VirtualImu F) (s : ImuAttitude F) (t : FlightTurn F L fields)
      → v.in_service ≡ false
      → fly F L fields f (some v) s t ≡ ((fly F L fields f none s t).0, some v)
  unfolding fly
  fly_out f v s (status_turn now later) off = rw (
    get_attitude_out F v s now off,
    get_attitude_out F v s later off,
    get_attitude-none F s now,
    get_attitude-none F s later,
    if_same,
  )
  fly_out f v s (attitude_turn now) off =
      rw (get_attitude_out F v s now off, get_attitude-none F s now, if_same)
  fly_out f v s (controller_turn now) off =
      rw (get_attitude_out F v s now off, get_attitude-none F s now, if_same)
  fly_out f v s manully_turn off = refl
  fly_out f v s write_turn off = refl
  fly_out f v s (fetch_turn chunks) off = refl
  fly_out f v s (tunning_turn p i d) off = refl

  -- A round makes no device.
  fly-none :
      (f : Flight F L) (s : ImuAttitude F) (t : FlightTurn F L fields)
      → (fly F L fields f none s t).1 ≡ none
  unfolding fly
  fly-none f s (status_turn now later) =
      rw (get_attitude-none F s now, get_attitude-none F s later) (if_same _ none)
  fly-none f s (attitude_turn now) = rw (get_attitude-none F s now) (if_same _ none)
  fly-none f s (controller_turn now) = rw (get_attitude-none F s now) (if_same _ none)
  fly-none f s manully_turn = refl
  fly-none f s write_turn = refl
  fly-none f s (fetch_turn chunks) = refl
  fly-none f s (tunning_turn p i d) = refl

  -- The same cockpit with a radio that has no device.
  unfoldable pub without_device : Cockpit F L fields → Radio.Radio F L fields → Cockpit F L fields
  without_device c r = record c { radio = record r { virtual_imu = none } }

  -- From a device that is out of service, and as long as the radio receives no attitude: the
  -- flight side comes to the same state with any radio that has no device, and with the radio's
  -- rounds left out of the run.
  pub sensed_attitudes_suffice :
      (c : Cockpit F L fields) (v : VirtualImu F) (r : Radio.Radio F L fields)
      (ts : List (Turn F L fields))
      → c.radio.virtual_imu ≡ some v
      → v.in_service ≡ false
      → NoneReceived c ts
      → (run F L fields c ts).flight
        ≡ (run F L fields (without_device c r) (without_radio ts)).flight
  unfolding NoneReceived without_radio run
  sensed_attitudes_suffice c v r [] e off n = unfold without_device in refl
  sensed_attitudes_suffice c v r (flight_turn t ∷ ts) e off n =
      sensed_attitudes_suffice (step F L fields c (flight_turn t)) v r ts
        (unfold step in ap (λ p. p.1) out) off n
      ∙ ap (λ (q : Cockpit F L fields). (run F L fields q (without_radio ts)).flight) same_turn
    where
      sensed : ImuAttitude F
      sensed = Fusion.get_attitude F c.imu

      out :
          fly F L fields c.flight c.radio.virtual_imu sensed t
          ≡ ((fly F L fields c.flight none sensed t).0, some v)
      out = ap (λ o. fly F L fields c.flight o sensed t) e ∙ fly_out c.flight v sensed t off

      same_turn :
          without_device (step F L fields c (flight_turn t)) r
          ≡ step F L fields (without_device c r) (flight_turn t)
      same_turn =
          unfold step without_device in
          ap₂
            (λ (f : Flight F L) (o : Option (VirtualImu F)). record {
              flight = f;
              radio = record r { virtual_imu = o };
              imu = c.imu;
              bus = c.bus;
            })
            (ap (λ p. p.0) out) (sym (fly-none c.flight sensed t))
  sensed_attitudes_suffice c v r (radio_turn chunks ∷ ts) e off (nothing, n) =
      sensed_attitudes_suffice (step F L fields c (radio_turn chunks)) v r ts
        (unfold step in
          virtual_imu-fetch_data F L fields c.radio v chunks e
          ∙ unfold updated in ap (λ m. some (updated F L fields v m)) nothing)
        off n
      ∙ ap (λ (q : Cockpit F L fields). (run F L fields q (without_radio ts)).flight)
          (unfold step without_device in refl)
  sensed_attitudes_suffice c v r (sense_turn sample ∷ ts) e off n =
      sensed_attitudes_suffice (step F L fields c (sense_turn sample)) v r ts (unfold step in e) off
        n
      ∙ ap (λ (q : Cockpit F L fields). (run F L fields q (without_radio ts)).flight)
          (unfold step without_device in refl)
