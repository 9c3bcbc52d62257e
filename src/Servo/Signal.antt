-- ===== src/Servo/Signal.antt =====
-- The signals that chicken/device/driver/serial_servo_driver.cpp holds and sends.
use cooboc.Base.{
  ℕ, ◌≡◌, refl, sym, ap, ◌∙◌, Bool, true, false, Option, none, some, List, [], ◌∷◌, ◌++◌, map,
  until_empty, ◌==◌, if◌then◌else◌, arith,
}
use cooboc.Base.Int.{ℤ, pos}
use cooboc.Servo
use cooboc.Servo.{Mavlink, ServoSignal, ServoDriver, msg_id_rc_channels_raw, output_mode_disable}
use cooboc.Servo.{override_channels, output_mode_manully, output_mode_continuos}

module _ (L : Mavlink) where
  open L use {Channel, Message, msgid, parse_char, chan_raw, pack_override}

  prepend : Option Message → List Message → List Message
  prepend none ms = ms
  prepend (some m) ms = m ∷ ms

  -- The messages that the parser finds in the bytes.
  unfoldable pub messages : Channel → List ℕ → List Message
  unfolding prepend
  messages c [] = []
  messages c (b ∷ bs) = prepend (parse_char c b).1 (messages (parse_char c b).0 bs)

  -- The channels of the last message with raw channels, from `chan1_raw` to `chan8_raw`, or else
  -- those held before.
  unfoldable pub last_channels : List ℤ → List Message → List ℤ
  last_channels held [] = held
  last_channels held (m ∷ ms) =
      last_channels
        (if msg_id_rc_channels_raw == msgid m
          then map (λ i. pos (chan_raw m i)) (1 ∷ 2 ∷ 3 ∷ 4 ∷ 5 ∷ 6 ∷ 7 ∷ 8 ∷ [])
          else held)
        ms

  channels_of_test :
      (b : Bool) (d : ServoDriver L) (m : Message)
      → override_channels
          (if b then record d { raw_servo_signal = Servo.rc_channels L m } else d).raw_servo_signal
        ≡ (if b
            then map (λ i. pos (chan_raw m i)) (1 ∷ 2 ∷ 3 ∷ 4 ∷ 5 ∷ 6 ∷ 7 ∷ 8 ∷ [])
            else override_channels d.raw_servo_signal)
  unfolding Servo.rc_channels
  channels_of_test true d m = refl
  channels_of_test false d m = refl

  last_channels-take_message :
      (d : ServoDriver L) (o : Option Message) (ms : List Message)
      → last_channels (override_channels (Servo.take_message L d o).raw_servo_signal) ms
        ≡ last_channels (override_channels d.raw_servo_signal) (prepend o ms)
  unfolding last_channels prepend Servo.take_message
  last_channels-take_message d none ms = refl
  last_channels-take_message d (some m) ms =
      ap (λ h. last_channels h ms) (channels_of_test (msg_id_rc_channels_raw == msgid m) d m)

  receiver-take_message :
      (d : ServoDriver L) (o : Option Message) → (Servo.take_message L d o).receiver ≡ d.receiver
  unfolding Servo.take_message
  receiver-take_message d none = refl
  receiver-take_message d (some m) = ground arith

  fetch_bytes-channels :
      (d : ServoDriver L) (bs : List ℕ)
      → override_channels (Servo.fetch_bytes L d bs).raw_servo_signal
        ≡ last_channels (override_channels d.raw_servo_signal) (messages d.receiver bs)
  unfolding Servo.fetch_bytes messages Servo.fetch_byte
  fetch_bytes-channels d [] = unfold last_channels in refl
  fetch_bytes-channels d (b ∷ bs) =
      let d' = record d { receiver = (parse_char d.receiver b).0 } in
      let o = (parse_char d.receiver b).1 in
      fetch_bytes-channels (Servo.take_message L d' o) bs
      ∙ ap
          (λ c.
            last_channels (override_channels (Servo.take_message L d' o).raw_servo_signal)
              (messages c bs))
          (receiver-take_message d' o)
      ∙ last_channels-take_message d' o (messages (parse_char d.receiver b).0 bs)

  fetch_bytes-append :
      (d : ServoDriver L) (bs cs : List ℕ)
      → Servo.fetch_bytes L d (bs ++ cs) ≡ Servo.fetch_bytes L (Servo.fetch_bytes L d bs) cs
  unfolding Servo.fetch_bytes
  fetch_bytes-append d [] cs = refl
  fetch_bytes-append d (b ∷ bs) cs = fetch_bytes-append (Servo.fetch_byte L d b) bs cs

  fetch_servos-until_empty :
      (d : ServoDriver L) (cs : List (List ℕ))
      → Servo.fetch_servos L d cs ≡ Servo.fetch_bytes L d (until_empty cs)
  unfolding Servo.fetch_servos Servo.fetch_bytes
  fetch_servos-until_empty d [] = refl
  fetch_servos-until_empty d ([] ∷ cs) = refl
  fetch_servos-until_empty d ((b ∷ bs) ∷ cs) =
      fetch_servos-until_empty (Servo.fetch_bytes L d (b ∷ bs)) cs
      ∙ sym (fetch_bytes-append d (b ∷ bs) (until_empty cs))

  -- What an override message would send of the signal that `fetchServos` leaves are the raw channels
  -- 1 to 8, in this order, of the last RC_CHANNELS_RAW message that the parser finds in the bytes
  -- received up to the first `recv` without any, however they are spread over the calls of `recv`,
  -- and if there is none, what it would send of the signal held before.
  pub fetch_servos-channels :
      (d : ServoDriver L) (cs : List (List ℕ))
      → override_channels (Servo.fetch_servos L d cs).raw_servo_signal
        ≡ last_channels
            (override_channels d.raw_servo_signal)
            (messages d.receiver (until_empty cs))
  fetch_servos-channels d cs =
      ap (λ (r : ServoDriver L). override_channels r.raw_servo_signal)
        (fetch_servos-until_empty d cs)
      ∙ fetch_bytes-channels d (until_empty cs)

  -- `setOverrideServoSignal` keeps the signal in every mode, and sends it at once in the manual
  -- mode only; `writeServos` sends the signal that is held in the continuous mode only, and else
  -- changes nothing.
  sent_by_mode :
      (d : ServoDriver L) (s : ServoSignal)
      → ((Servo.set_override_servo_signal L d s).override_servo_signal ≡ s)
        × ((Servo.set_override_servo_signal L d s).sent ≡ (
            if d.output_mode == output_mode_manully
            then d.sent ++ (pack_override 250 0 250 0 (override_channels s) d.transmitter).1
            else d.sent))
        × ((Servo.write_servos L d).sent ≡ (
            if d.output_mode == output_mode_continuos
            then d.sent
              ++ (pack_override 250 0 250 0
                  (override_channels d.override_servo_signal)
                  d.transmitter).1
            else d.sent))
  unfolding Servo.set_override_servo_signal Servo.write_servos
  sent_by_mode d s = (ground arith, ground arith, ground arith)
