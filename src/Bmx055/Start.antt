-- ===== src/Bmx055/Start.antt =====
-- The constructor of `Bmx055Driver` (chicken/device/driver/bmx055_driver.cpp), with `wakeupMag`,
-- `resetAcc` and `resetGyro`.
use cooboc.Base.{
  ℕ, ◌<◌, ◌≡◌, refl, ap, ap₂, ◌∙◌, sym, Bool, true, false, ◌&&◌, ◌==◌, List, [], ◌∷◌, if◌then◌else◌,
  Bool-cases, inl, inr, arith,
}
use cooboc.Iic.{Bus, Answer, at_least, read_u8, write_byte, byte_at}
use cooboc.Iic.Transactions.{
  Request, write_request, read_request, served, perform, perform_all, wanted_all, AllAccepted,
  start_bus,
}
use cooboc.Iic.Served.{perform_all-served}
use cooboc.Bmx055.{
  StartAnswers, WakeAnswers, wakeup_mag, reset_acc, reset_gyro, new_bmx055_driver, read_ok,
  variable,
}
use cooboc.Bmx055.Reads.{answered, byte, read_with_lem}

-- The calls that set the sensors up, each with its answer.
start_calls : StartAnswers → List (Request × Answer)
start_calls a =
    (read_request 1 0x18 0x00, a.acc_id)
    ∷ (read_request 1 0x68 0x00, a.gyro_id)
    ∷ (write_request 0x10 0x4b 1, a.wake.power)
    ∷ (read_request 1 0x10 0x40, a.wake.chip_id)
    ∷ (write_request 0x10 0x4c 56, a.wake.op)
    ∷ (write_request 0x10 0x51 23, a.wake.rep_xy)
    ∷ (write_request 0x10 0x52 41, a.wake.rep_z)
    ∷ (write_request 0x18 0x14 0xb6, a.reset_acc_first)
    ∷ (write_request 0x18 0x0f 12, a.reset_acc_second)
    ∷ (write_request 0x68 0x14 0xb6, a.reset_gyro_first)
    ∷ (write_request 0x68 0x0f 1, a.reset_gyro_second)
    ∷ []

-- On a new bus the constructor makes all eleven calls, in this order and each to the device that it
-- is for, if every selection of a device succeeds, and whatever else is answered: no other failure stops it, and none is tried again.
start_calls_made :
    (a : StartAnswers)
    → AllAccepted start_bus (start_calls a)
    → served 0 (new_bmx055_driver start_bus a).0.effects ≡ wanted_all (start_calls a)
start_calls_made a h = ap (λ b. served 0 b.effects) same ∙ perform_all-served (start_calls a) h
  where
    same : (new_bmx055_driver start_bus a).0 ≡ perform_all start_bus (start_calls a)
    same =
        unfold new_bmx055_driver wakeup_mag reset_acc reset_gyro read_u8 write_byte perform_all
          perform start_calls in
        refl

absorbed : (k : Bool) (n e : ℕ) → 0 < e → (k && ((if k then n else 0) == e)) ≡ (k && (n == e))
absorbed true n e h = refl
absorbed false n e h = refl

-- A number is compared only where it was read.
id_found :
    (b : Bus) (device reg e : ℕ) (a : Answer)
    → 0 < e
    → (read_ok (read_u8 b device reg a).1 && (variable 0 (read_u8 b device reg a).1 == e))
      ≡ (answered 1 a && (byte a == e))
unfolding read_u8
id_found b device reg e a h =
    let (value, ok) = read_with_lem 1 (λ bytes. byte_at bytes 0) b device reg a 0 in
    ap₂ (λ k n. k && (n == e)) ok value ∙ absorbed (answered 1 a) (byte a) e h

pulled :
    (p k q r s t : Bool)
    → (((((p && k) && q) && r) && s) && t) ≡ ((((p && q) && r) && s) && (k && t))
pulled true true q r s t = refl
pulled true false q r s t = elim (Bool-cases ((q && r) && s)) [
  | inl k ↦ simp k refl
  | inr k ↦ simp k refl
]
pulled false k q r s t = refl

wakeup_mag_ok :
    (b : Bus) (a : WakeAnswers)
    → (wakeup_mag b a).1
      ≡ ((((at_least a.power.written 2 && answered 1 a.chip_id) && at_least a.op.written 2)
            && at_least a.rep_xy.written 2)
          && at_least a.rep_z.written 2)
        && (byte a.chip_id == 0x32)
unfolding wakeup_mag write_byte
wakeup_mag_ok b a =
    let b1 = (write_byte b 0x10 0x4b 1 a.power).0 in
    let sent = at_least a.power.written 2 in
    pulled sent (read_ok (read_u8 b1 0x10 0x40 a.chip_id).1) (at_least a.op.written 2)
      (at_least a.rep_xy.written 2) (at_least a.rep_z.written 2) _
    ∙ ap
        (λ k.
          (((sent && at_least a.op.written 2) && at_least a.rep_xy.written 2)
            && at_least a.rep_z.written 2)
          && k)
        (id_found b1 0x10 0x40 0x32 a.chip_id (omega arith))
    ∙ sym (
        pulled sent (answered 1 a.chip_id) (at_least a.op.written 2) (at_least a.rep_xy.written 2)
          (at_least a.rep_z.written 2) _)

-- Each sensor is called good if and only if its number was read and is the expected one, and the
-- magnetic sensor, besides, if all four writes of its set-up were sent whole.
sensors_found :
    (b : Bus) (a : StartAnswers)
    → (new_bmx055_driver b a).1 ≡ record {
      acc = answered 1 a.acc_id && (byte a.acc_id == 0xfa);
      gyro = answered 1 a.gyro_id && (byte a.gyro_id == 0x0f);
      mag =
          ((((at_least a.wake.power.written 2 && answered 1 a.wake.chip_id)
                && at_least a.wake.op.written 2)
              && at_least a.wake.rep_xy.written 2)
            && at_least a.wake.rep_z.written 2)
          && (byte a.wake.chip_id == 0x32);
    }
unfolding new_bmx055_driver
sensors_found b a i =
    let b1 = (read_u8 b 0x18 0 a.acc_id).0 in
    let b2 = (read_u8 b1 0x68 0 a.gyro_id).0 in
    record {
      acc = id_found b 0x18 0 0xfa a.acc_id (omega arith) i;
      gyro = id_found b1 0x68 0 0x0f a.gyro_id (omega arith) i;
      mag = wakeup_mag_ok b2 a.wake i;
    }
