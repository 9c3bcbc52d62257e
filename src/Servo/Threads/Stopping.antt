-- ===== src/Servo/Threads/Stopping.antt =====
-- How the destructor of chicken/device/driver/serial_servo_driver.cpp stops the driver's threads.
use cooboc.Base.{suc, ◌≤◌, ◌≡◌, refl, sym, subst, ap, ◌∙◌, List, [], ◌∷◌, ◌++◌, arith}
use cooboc.Servo.{Mavlink, ServoDriver, write_servos, output_mode_continuos, msg_id_rc_channels_raw}
use cooboc.Servo
use cooboc.Servo.Threads.{
  Place, testing, working, waiting, ended, Owner, living, clearing, joining_writer, joining_reader,
  destroyed, Move, set_signal, set_mode, destroy, read, write, interval_read_servo,
  interval_write_servo, join,
}
use cooboc.Servo.Threads
use cooboc.Servo.Threads.Flag.{
  IsPast, IsCleared, joining_writer-IsPast, IsSound, step-IsSound, steps-IsSound, step-IsPast,
  sound_off,
}
use cooboc.Servo.Threads.Progress.{
  rank, owed, read_chances, write_chances, ReaderGoes, WriterGoes, step-reader, step-writer,
  ReaderGoes-trans, WriterGoes-trans, reader_at_start, writer_at_start,
}

rank_zero : (p : Place) → rank p ≤ 0 → p ≡ ended
unfolding rank
rank_zero ended h = refl
rank_zero testing h = absurd (omega arith)
rank_zero waiting h = absurd (omega arith)
rank_zero working h = absurd (omega arith)

rank_least : (p : Place) → rank p ≤ 3
unfolding rank
rank_least ended = omega arith
rank_least testing = omega arith
rank_least waiting = omega arith
rank_least working = omega arith

owed_least : (p : Place) → owed p ≤ 1
unfolding owed
owed_least ended = omega arith
owed_least testing = omega arith
owed_least waiting = omega arith
owed_least working = omega arith

module _ (L : Mavlink) where
  open L use {Channel}

  -- What a run does once the flag is cleared.
  Winds : Threads.Threads L → Threads.Threads L → List Move → Type 0
  Winds s t ms =
      IsPast t.owner × ReaderGoes L s t (read_chances ms) × WriterGoes L s t (write_chances ms)

  steps_wind :
      (ms : List Move) (s : Threads.Threads L)
      → IsSound L s
      → IsPast s.owner
      → Winds s (Threads.steps L ms s) ms
  unfolding Threads.steps Winds
  steps_wind [] s h past = (past, reader_at_start L s, writer_at_start L s)
  steps_wind (m ∷ ms) s h past =
      let t = Threads.step L m s in
      let u = Threads.steps L ms t in
      let off = sound_off L s h past in
      let (past', r, w) = steps_wind ms t (step-IsSound L m s h) (step-IsPast L m s past) in
      (
        past',
        ReaderGoes-trans L s t u m ms (step-reader L m s off) r,
        WriterGoes-trans L s t u m ms (step-writer L m s off) w,
      )

  -- Both threads have ended and the owner has joined them.
  IsOver : Threads.Threads L → Type 0
  IsOver s = (s.owner ≡ destroyed) × (s.reader ≡ ended) × (s.writer ≡ ended)

  destroy_again : Threads.Threads L → Threads.Threads L
  destroy_again s = Threads.destroy_step L s.owner s

  destroys_twice :
      (s : Threads.Threads L)
      → Threads.steps L (destroy ∷ destroy ∷ []) s
        ≡ destroy_again (Threads.destroy_step L s.owner s)
  unfolding Threads.steps Threads.step destroy_again
  destroys_twice s = refl

  destroyed_twice :
      (o : Owner) (s : Threads.Threads L)
      → s.owner ≡ o
      → IsPast o
      → s.reader ≡ ended
      → s.writer ≡ ended
      → IsOver (destroy_again (Threads.destroy_step L o s))
  unfolding destroy_again Threads.destroy_step IsOver join
  destroyed_twice living s at past r w = unfold IsPast in absurd past
  destroyed_twice clearing s at past r w = unfold IsPast in absurd past
  destroyed_twice joining_writer s at past r w =
      subst
        (λ p. IsOver (destroy_again (record s { owner = join p joining_reader joining_writer })))
        (sym w) (ap (λ p. join p destroyed joining_reader) r, r, w)
  destroyed_twice joining_reader s at past r w =
      subst (λ p. IsOver (destroy_again (record s { owner = join p destroyed joining_reader })))
        (sym r) (refl, r, w)
  destroyed_twice destroyed s at past r w =
      subst (λ o. IsOver (Threads.destroy_step L o s)) (sym at) (at, r, w)

  step_over : (m : Move) (s : Threads.Threads L) → IsOver s → Threads.step L m s ≡ s
  unfolding Threads.step IsOver Threads.owner_call Threads.destroy_step Threads.read_step
  step_over (set_signal v) s (o, r, w) =
      ap (λ k. Threads.owner_call L k (Servo.set_override_servo_signal L s.driver v) s) o
  step_over (set_mode mode) s (o, r, w) =
      ap (λ k. Threads.owner_call L k (Servo.set_output_mode L s.driver mode) s) o
  step_over destroy s (o, r, w) = ap (λ k. Threads.destroy_step L k s) o
  step_over (read now cs) s (o, r, w) = ap (λ k. Threads.read_step L k now cs s) r
  step_over (write now) s (o, r, w) =
      unfold Threads.write_step in ap (λ k. Threads.write_step L k now s) w

  steps_over : (ms : List Move) (s : Threads.Threads L) → IsOver s → Threads.steps L ms s ≡ s
  unfolding Threads.steps
  steps_over [] s h = refl
  steps_over (m ∷ ms) s h = ap (Threads.steps L ms) (step_over m s h) ∙ steps_over ms s h

  steps-append :
      (xs ys : List Move) (s : Threads.Threads L)
      → Threads.steps L (xs ++ ys) s ≡ Threads.steps L ys (Threads.steps L xs s)
  unfolding Threads.steps
  steps-append [] ys s = refl
  steps-append (x ∷ xs) ys s = steps-append xs ys (Threads.step L x s)

  -- The driver of the first state has come to its end in the second one.
  pub HasStopped : Threads.Threads L → Threads.Threads L → Type 0
  HasStopped s t =
      (t.owner ≡ destroyed)
      × (t.fetches ≤ suc s.fetches)
      × (t.writes ≤ suc s.writes)
      × ((later : List Move) → Threads.steps L later t ≡ t)

  new-IsSound :
      (receiver transmitter : Channel) → IsSound L (Threads.new_threads L receiver transmitter)
  unfolding IsSound Threads.new_threads IsCleared
  new-IsSound receiver transmitter = tt

  wound_ends :
      (s t : Threads.Threads L) (ms : List Move)
      → Winds s t ms
      → 3 ≤ read_chances ms
      → 3 ≤ write_chances ms
      → (t.reader ≡ ended)
        × (t.writer ≡ ended)
        × (t.fetches ≤ suc s.fetches)
        × (t.writes ≤ suc s.writes)
  unfolding Winds ReaderGoes WriterGoes
  wound_ends s t ms (past, (r, f), (w, v)) hr hw = (
    rank_zero t.reader (omega (arith, rank_least s.reader)),
    rank_zero t.writer (omega (arith, rank_least s.writer)),
    omega (arith, owed_least s.reader),
    omega (arith, owed_least s.writer),
  )

  destroy_step-counts :
      (o : Owner) (s : Threads.Threads L)
      → ((Threads.destroy_step L o s).fetches ≡ s.fetches)
        × ((Threads.destroy_step L o s).writes ≡ s.writes)
  unfolding Threads.destroy_step
  destroy_step-counts living s = (refl, refl)
  destroy_step-counts clearing s = (refl, refl)
  destroy_step-counts joining_writer s = (refl, refl)
  destroy_step-counts joining_reader s = (refl, refl)
  destroy_step-counts destroyed s = (refl, refl)

  stopped_twice :
      (s t : Threads.Threads L) (ms : List Move)
      → Winds s t ms
      → 3 ≤ read_chances ms
      → 3 ≤ write_chances ms
      → HasStopped s (Threads.steps L (destroy ∷ destroy ∷ []) t)
  unfolding HasStopped Winds
  stopped_twice s t ms wound hr hw =
      let (r, w, f, v) = wound_ends s t ms wound hr hw in
      let over = destroyed_twice t.owner t refl wound.0 r w in
      let first = destroy_step-counts t.owner t in
      let t' = Threads.destroy_step L t.owner t in
      let second = destroy_step-counts t'.owner t' in
      subst (HasStopped s) (sym (destroys_twice t)) (
        unfold IsOver in over.0,
        unfold destroy_again in omega (arith, f, first.0, second.0),
        unfold destroy_again in omega (arith, v, first.1, second.1),
        λ later. steps_over later _ over,
      )

  -- In any run from the constructor on: where the destructor has cleared both flags, and from then on
  -- each thread takes three steps or more at which the clock would let it out of its waiting, two
  -- further steps of the destructor complete it. By then each thread has made at most one more call,
  -- and no later step of anyone changes anything.
  pub destructor_stops_threads :
      (receiver transmitter : Channel) (before after : List Move)
      → (Threads.steps L before (Threads.new_threads L receiver transmitter)).owner ≡ joining_writer
      → 3 ≤ read_chances after
      → 3 ≤ write_chances after
      → HasStopped (Threads.steps L before (Threads.new_threads L receiver transmitter)) (
          Threads.steps L
            (before ++ (after ++ (destroy ∷ destroy ∷ [])))
            (Threads.new_threads L receiver transmitter))
  destructor_stops_threads receiver transmitter before after at hr hw =
      let n = Threads.new_threads L receiver transmitter in
      let s = Threads.steps L before n in
      let wound =
        steps_wind after s (steps-IsSound L before n (new-IsSound receiver transmitter))
          (subst IsPast (sym at) joining_writer-IsPast) in
      subst (HasStopped s)
        (sym (
          steps-append before (after ++ (destroy ∷ destroy ∷ [])) n
          ∙ steps-append after (destroy ∷ destroy ∷ []) s))
        (stopped_twice s (Threads.steps L after s) after wound hr hw)
