-- ===== src/Servo/Threads/Flag.antt =====
-- The flag that ends the threads of chicken/device/driver/serial_servo_driver.cpp.
use cooboc.Base.{ℕ, ◌≡◌, refl, sym, subst, Bool, false, List, [], ◌∷◌}
use cooboc.Servo.{Mavlink, ServoDriver}
use cooboc.Servo.Flag.{fetch_servos-flag, write_servos-flag}
use cooboc.Servo.Threads.{
  Place, testing, working, waiting, ended, Owner, living, clearing, joining_writer, joining_reader,
  destroyed, Move, set_signal, set_mode, destroy, read, write, interval_read_servo,
  interval_write_servo, join,
}
use cooboc.Servo.Threads

-- Both assignments of the destructor are made.
unfoldable pub IsPast : Owner → Type 0
IsPast living = ⊥
IsPast clearing = ⊥
IsPast joining_writer = Unit
IsPast joining_reader = Unit
IsPast destroyed = Unit

-- The flag is cleared where both assignments are made.
unfoldable pub IsCleared : Owner → Bool → Type 0
IsCleared living b = Unit
IsCleared clearing b = Unit
IsCleared joining_writer b = b ≡ false
IsCleared joining_reader b = b ≡ false
IsCleared destroyed b = b ≡ false

pub joining_writer-IsPast : IsPast joining_writer
joining_writer-IsPast = unfold IsPast in tt

joining_reader-IsPast : IsPast joining_reader
joining_reader-IsPast = unfold IsPast in tt

off_of : (o : Owner) (b : Bool) → IsPast o → IsCleared o b → b ≡ false
unfolding IsPast IsCleared
off_of living b h c = absurd h
off_of clearing b h c = absurd h
off_of joining_writer b h c = c
off_of joining_reader b h c = c
off_of destroyed b h c = c

join_clear :
    (p : Place) (b : Bool)
    → b ≡ false
    → IsCleared (join p joining_reader joining_writer) b
      × IsCleared (join p destroyed joining_reader) b
unfolding Threads.join IsCleared
join_clear testing b h = (h, h)
join_clear working b h = (h, h)
join_clear waiting b h = (h, h)
join_clear ended b h = (h, h)

join-IsPast :
    (p : Place)
    → IsPast (join p joining_reader joining_writer) × IsPast (join p destroyed joining_reader)
unfolding Threads.join IsPast
join-IsPast testing = (tt, tt)
join-IsPast working = (tt, tt)
join-IsPast waiting = (tt, tt)
join-IsPast ended = (tt, tt)

module _ (L : Mavlink) where
  -- The owner's place and the flag, together.
  unfoldable pub IsSound : Threads.Threads L → Type 0
  IsSound s = IsCleared s.owner s.driver.is_read_thread_running

  read_step-IsSound :
      (p : Place) (now : ℕ) (cs : List (List ℕ)) (s : Threads.Threads L)
      → IsSound s
      → IsSound (Threads.read_step L p now cs s)
  unfolding IsSound Threads.read_step
  read_step-IsSound testing now cs s h = h
  read_step-IsSound working now cs s h =
      subst (IsCleared s.owner) (sym (fetch_servos-flag L s.driver cs)) h
  read_step-IsSound waiting now cs s h = h
  read_step-IsSound ended now cs s h = h

  write_step-IsSound :
      (p : Place) (now : ℕ) (s : Threads.Threads L)
      → IsSound s
      → IsSound (Threads.write_step L p now s)
  unfolding IsSound Threads.write_step
  write_step-IsSound testing now s h = h
  write_step-IsSound working now s h =
      subst (IsCleared s.owner) (sym (write_servos-flag L s.driver)) h
  write_step-IsSound waiting now s h = h
  write_step-IsSound ended now s h = h

  destroy_step-IsSound :
      (o : Owner) (s : Threads.Threads L)
      → s.owner ≡ o
      → IsSound s
      → IsSound (Threads.destroy_step L o s)
  unfolding IsSound Threads.destroy_step
  destroy_step-IsSound living s at h = unfold IsCleared in tt
  destroy_step-IsSound clearing s at h = unfold IsCleared in refl
  destroy_step-IsSound joining_writer s at h =
      (join_clear s.writer _ (
        off_of joining_writer _ joining_writer-IsPast
          (subst (λ o. IsCleared o s.driver.is_read_thread_running) at h))).0
  destroy_step-IsSound joining_reader s at h =
      (join_clear s.reader _ (
        off_of joining_reader _ joining_reader-IsPast
          (subst (λ o. IsCleared o s.driver.is_read_thread_running) at h))).1
  destroy_step-IsSound destroyed s at h = h

  owner_call-IsSound :
      (o : Owner) (d : ServoDriver L) (s : Threads.Threads L)
      → s.owner ≡ o
      → IsSound s
      → IsSound (Threads.owner_call L o d s)
  unfolding IsSound Threads.owner_call
  owner_call-IsSound living d s at h =
      subst (λ o. IsCleared o d.is_read_thread_running) (sym at) (unfold IsCleared in tt)
  owner_call-IsSound clearing d s at h = h
  owner_call-IsSound joining_writer d s at h = h
  owner_call-IsSound joining_reader d s at h = h
  owner_call-IsSound destroyed d s at h = h

  pub step-IsSound : (m : Move) (s : Threads.Threads L) → IsSound s → IsSound (Threads.step L m s)
  unfolding Threads.step
  step-IsSound (set_signal v) s h = owner_call-IsSound s.owner _ s refl h
  step-IsSound (set_mode mode) s h = owner_call-IsSound s.owner _ s refl h
  step-IsSound destroy s h = destroy_step-IsSound s.owner s refl h
  step-IsSound (read now cs) s h = read_step-IsSound s.reader now cs s h
  step-IsSound (write now) s h = write_step-IsSound s.writer now s h

  pub steps-IsSound :
      (ms : List Move) (s : Threads.Threads L) → IsSound s → IsSound (Threads.steps L ms s)
  unfolding Threads.steps
  steps-IsSound [] s h = h
  steps-IsSound (m ∷ ms) s h = steps-IsSound ms (Threads.step L m s) (step-IsSound m s h)

  read_step-owner :
      (p : Place) (now : ℕ) (cs : List (List ℕ)) (s : Threads.Threads L)
      → (Threads.read_step L p now cs s).owner ≡ s.owner
  unfolding Threads.read_step
  read_step-owner testing now cs s = refl
  read_step-owner working now cs s = refl
  read_step-owner waiting now cs s = refl
  read_step-owner ended now cs s = refl

  write_step-owner :
      (p : Place) (now : ℕ) (s : Threads.Threads L) → (Threads.write_step L p now s).owner ≡ s.owner
  unfolding Threads.write_step
  write_step-owner testing now s = refl
  write_step-owner working now s = refl
  write_step-owner waiting now s = refl
  write_step-owner ended now s = refl

  owner_call-owner :
      (o : Owner) (d : ServoDriver L) (s : Threads.Threads L)
      → (Threads.owner_call L o d s).owner ≡ s.owner
  unfolding Threads.owner_call
  owner_call-owner living d s = refl
  owner_call-owner clearing d s = refl
  owner_call-owner joining_writer d s = refl
  owner_call-owner joining_reader d s = refl
  owner_call-owner destroyed d s = refl

  destroy_step-IsPast :
      (o : Owner) (s : Threads.Threads L)
      → IsPast o
      → IsPast s.owner
      → IsPast (Threads.destroy_step L o s).owner
  unfolding Threads.destroy_step
  destroy_step-IsPast living s h k = unfold IsPast in absurd h
  destroy_step-IsPast clearing s h k = unfold IsPast in absurd h
  destroy_step-IsPast joining_writer s h k = (join-IsPast s.writer).0
  destroy_step-IsPast joining_reader s h k = (join-IsPast s.reader).1
  destroy_step-IsPast destroyed s h k = k

  pub step-IsPast :
      (m : Move) (s : Threads.Threads L) → IsPast s.owner → IsPast (Threads.step L m s).owner
  unfolding Threads.step
  step-IsPast (set_signal v) s h = subst IsPast (sym (owner_call-owner s.owner _ s)) h
  step-IsPast (set_mode mode) s h = subst IsPast (sym (owner_call-owner s.owner _ s)) h
  step-IsPast destroy s h = destroy_step-IsPast s.owner s h h
  step-IsPast (read now cs) s h = subst IsPast (sym (read_step-owner s.reader now cs s)) h
  step-IsPast (write now) s h = subst IsPast (sym (write_step-owner s.writer now s)) h

  pub sound_off :
      (s : Threads.Threads L) → IsSound s → IsPast s.owner → s.driver.is_read_thread_running ≡ false
  unfolding IsSound
  sound_off s h past = off_of s.owner s.driver.is_read_thread_running past h
