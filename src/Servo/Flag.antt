-- ===== src/Servo/Flag.antt =====
-- The flag of the reading thread under the operations of chicken/device/driver/serial_servo_driver.cpp.
use cooboc.Base.{ℕ, ◌≡◌, refl, ◌∙◌, Bool-cases, inl, inr, Option, none, some, List, [], ◌∷◌, ◌==◌}
use cooboc.Servo.{Mavlink, ServoDriver, write_servos, output_mode_continuos, msg_id_rc_channels_raw}
use cooboc.Servo

module _ (L : Mavlink) where
  open L use {Message, msgid, parse_char}

  take_message-flag :
      (d : ServoDriver L) (o : Option Message)
      → (Servo.take_message L d o).is_read_thread_running ≡ d.is_read_thread_running
  unfolding Servo.take_message
  take_message-flag d none = refl
  take_message-flag d (some m) = elim (Bool-cases (msg_id_rc_channels_raw == msgid m)) [
    | inl e ↦ simp e refl
    | inr e ↦ simp e refl
  ]

  fetch_bytes-flag :
      (d : ServoDriver L) (bs : List ℕ)
      → (Servo.fetch_bytes L d bs).is_read_thread_running ≡ d.is_read_thread_running
  unfolding Servo.fetch_bytes Servo.fetch_byte
  fetch_bytes-flag d [] = refl
  fetch_bytes-flag d (b ∷ bs) =
      fetch_bytes-flag (Servo.fetch_byte L d b) bs
      ∙ take_message-flag (record d { receiver = (parse_char d.receiver b).0 })
          (parse_char d.receiver b).1

  pub fetch_servos-flag :
      (d : ServoDriver L) (cs : List (List ℕ))
      → (Servo.fetch_servos L d cs).is_read_thread_running ≡ d.is_read_thread_running
  unfolding Servo.fetch_servos
  fetch_servos-flag d [] = refl
  fetch_servos-flag d ([] ∷ cs) = refl
  fetch_servos-flag d ((b ∷ bs) ∷ cs) =
      fetch_servos-flag (Servo.fetch_bytes L d (b ∷ bs)) cs ∙ fetch_bytes-flag d (b ∷ bs)

  pub write_servos-flag :
      (d : ServoDriver L) → (write_servos L d).is_read_thread_running ≡ d.is_read_thread_running
  unfolding write_servos
  write_servos-flag d = elim (Bool-cases (d.output_mode == output_mode_continuos)) [
    | inl e ↦ simp e refl
    | inr e ↦ simp e refl
  ]
