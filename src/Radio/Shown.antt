-- ===== src/Radio/Shown.antt =====
-- The attitude that chicken/instruments/adi.cpp shows of what chicken/device/radio.cpp receives.
use cooboc.Base.{
  ℕ, ◌≡◌, refl, sym, ap, ◌∙◌, Bool-cases, inl, inr, Option, none, some, List, [], ◌∷◌, ◌++◌,
  until_empty, ◌==◌, leb, if◌then◌else◌,
}
use cooboc.Float.{Float}
use cooboc.Modem.{elapsed}
use cooboc.Imu.{ImuAttitude, VirtualImu, update_attitude, get_attitude}
use cooboc.Imu.Service.{received_until_timeout}
use cooboc.Servo.{Mavlink}
use cooboc.Radio
use cooboc.Radio.{AttitudeFields, Tick, msg_id_attitude}

module _ (F : Float) (L : Mavlink) (fields : AttitudeFields F L) where
  open L use {Channel, Message, msgid, parse_char}

  -- An attitude message that the parser completes, and when.
  pub record Received : Type 0 where
    pub attitude : ImuAttitude F
    pub at : ℕ

  found : Option Message → ℕ → Option Received → Option Received
  found none now later = later
  found (some m) now none =
      if msgid m == msg_id_attitude
      then some (record {
        attitude = record { pitch = fields.pitch m; roll = fields.roll m; heading = fields.yaw m };
        at = now;
      })
      else none
  found (some m) now (some later) = some later

  -- The last attitude message in the bytes.
  unfoldable pub last_attitude : Channel → List Tick → Option Received
  unfolding found
  last_attitude c [] = none
  last_attitude c (t ∷ ts) =
      found (parse_char c t.byte).1 t.now (last_attitude (parse_char c t.byte).0 ts)

  -- What it makes of a device that was set.
  unfoldable pub updated : VirtualImu F → Option Received → VirtualImu F
  updated v none = v
  updated v (some m) = update_attitude F v m.attitude m.at

  with_imu : Radio.Radio F L fields → Channel → VirtualImu F → Radio.Radio F L fields
  with_imu r c v = record r { receiver = c; virtual_imu = some v }

  take_message-with_imu :
      (r : Radio.Radio F L fields) (c : Channel) (v : VirtualImu F) (o : Option Message) (now : ℕ)
      → Radio.take_message F L fields (with_imu r c v) o now
        ≡ with_imu r c (updated v (found o now none))
  unfolding Radio.take_message Radio.update_virtual_imu Radio.attitude_of with_imu updated found
  take_message-with_imu r c v none now = refl
  take_message-with_imu r c v (some m) now = elim (Bool-cases (msgid m == msg_id_attitude)) [
    | inl k ↦ simp k refl
    | inr k ↦ simp k refl
  ]

  -- The later of two attitudes counts.
  updated-found :
      (v : VirtualImu F) (o : Option Message) (now : ℕ) (later : Option Received)
      → updated (updated v (found o now none)) later ≡ updated v (found o now later)
  unfolding updated found
  updated-found v none now later = refl
  updated-found v (some m) now none = refl
  updated-found v (some m) now (some later) = elim (Bool-cases (msgid m == msg_id_attitude)) [
    | inl k ↦ simp k (overwritten v _ now later)
    | inr k ↦ simp k refl
  ]
    where
      overwritten :
          (v : VirtualImu F) (a : ImuAttitude F) (now : ℕ) (later : Received)
          → update_attitude F (update_attitude F v a now) later.attitude later.at
            ≡ update_attitude F v later.attitude later.at
      overwritten v a now later = unfold update_attitude in refl

  fetch_bytes-with_imu :
      (r : Radio.Radio F L fields) (c : Channel) (v : VirtualImu F) (ts : List Tick)
      → (Radio.fetch_bytes F L fields (with_imu r c v) ts).virtual_imu
        ≡ some (updated v (last_attitude c ts))
  unfolding Radio.fetch_bytes Radio.fetch_byte with_imu updated last_attitude
  fetch_bytes-with_imu r c v [] = refl
  fetch_bytes-with_imu r c v (t ∷ ts) =
      let c' = (parse_char c t.byte).0 in
      let o = (parse_char c t.byte).1 in
      ap (λ q. (Radio.fetch_bytes F L fields q ts).virtual_imu)
        (take_message-with_imu r c' v o t.now)
      ∙ fetch_bytes-with_imu r c' (updated v (found o t.now none)) ts
      ∙ ap some (updated-found v o t.now (last_attitude c' ts))

  fetch_bytes-append :
      (r : Radio.Radio F L fields) (bs cs : List Tick)
      → Radio.fetch_bytes F L fields r (bs ++ cs)
        ≡ Radio.fetch_bytes F L fields (Radio.fetch_bytes F L fields r bs) cs
  unfolding Radio.fetch_bytes
  fetch_bytes-append r [] cs = refl
  fetch_bytes-append r (b ∷ bs) cs = fetch_bytes-append (Radio.fetch_byte F L fields r b) bs cs

  fetch_data-until_empty :
      (r : Radio.Radio F L fields) (cs : List (List Tick))
      → Radio.fetch_data F L fields r cs ≡ Radio.fetch_bytes F L fields r (until_empty cs)
  unfolding Radio.fetch_data Radio.fetch_bytes
  fetch_data-until_empty r [] = refl
  fetch_data-until_empty r ([] ∷ cs) = refl
  fetch_data-until_empty r ((b ∷ bs) ∷ cs) =
      fetch_data-until_empty (Radio.fetch_bytes F L fields r (b ∷ bs)) cs
      ∙ sym (fetch_bytes-append r (b ∷ bs) (until_empty cs))

  -- A device that was set has the last attitude of the bytes up to the first `recv` without any.
  pub virtual_imu-fetch_data :
      (r : Radio.Radio F L fields) (v : VirtualImu F) (cs : List (List Tick))
      → r.virtual_imu ≡ some v
      → (Radio.fetch_data F L fields r cs).virtual_imu
        ≡ some (updated v (last_attitude r.receiver (until_empty cs)))
  unfolding with_imu
  virtual_imu-fetch_data r v cs e =
      ap (λ o. (Radio.fetch_data F L fields (record r { virtual_imu = o }) cs).virtual_imu) e
      ∙ ap (λ (q : Radio.Radio F L fields). q.virtual_imu)
          (fetch_data-until_empty (record r { virtual_imu = some v }) cs)
      ∙ fetch_bytes-with_imu r r.receiver v (until_empty cs)

  -- What the instrument shows: the last attitude received for 500 ms, and then the sensors' one.
  unfoldable pub shown : VirtualImu F → Option Received → ImuAttitude F → ℕ → ImuAttitude F
  shown v none sensed now = (get_attitude F (some v) sensed now).1
  shown v (some m) sensed now = if leb (elapsed m.at now) 500 then m.attitude else sensed

  -- With a device set: after `fetchData` the instrument shows the last attitude message that
  -- the parser found in the bytes up to the first `recv` without any, for 500 ms from its
  -- arrival, and then what the sensors give; without such a message it shows what it would
  -- have shown.
  pub radio_attitude_shown :
      (r : Radio.Radio F L fields) (v : VirtualImu F) (cs : List (List Tick))
      (sensed : ImuAttitude F) (now : ℕ)
      → (get_attitude F
          (Radio.fetch_data F L fields (record r { virtual_imu = some v }) cs).virtual_imu
          sensed
          now).1
        ≡ shown v (last_attitude r.receiver (until_empty cs)) sensed now
  radio_attitude_shown r v cs sensed now =
      ap (λ (o : Option (VirtualImu F)). (get_attitude F o sensed now).1)
        (virtual_imu-fetch_data (record r { virtual_imu = some v }) v cs refl)
      ∙ by_arrival (last_attitude r.receiver (until_empty cs))
    where
      by_arrival :
          (o : Option Received)
          → (get_attitude F (some (updated v o)) sensed now).1 ≡ shown v o sensed now
      by_arrival none = unfold shown updated in refl
      by_arrival (some m) =
          unfold shown updated in received_until_timeout F v m.attitude sensed m.at now
