-- ===== src/Servo/Threads/Progress.antt =====
-- The way of the threads of chicken/device/driver/serial_servo_driver.cpp to their ends.
use cooboc.Base.{
  ℕ, suc, ◌+◌, ◌-◌, ◌%◌, ◌≤◌, ◌≡◌, refl, ap, false, List, [], ◌∷◌, ◌==◌, if◌then◌else◌, arith,
}
use cooboc.Servo.{Mavlink, ServoDriver}
use cooboc.Servo.Threads.{
  Place, testing, working, waiting, ended, Owner, living, clearing, joining_writer, joining_reader,
  destroyed, Move, set_signal, set_mode, destroy, read, write, interval_read_servo,
  interval_write_servo, join,
}
use cooboc.Servo.Threads

-- How many steps a thread has to go to its end, once the flag is cleared.
unfoldable pub rank : Place → ℕ
rank ended = 0
rank testing = 1
rank waiting = 2
rank working = 3

-- The call that a thread has begun.
unfoldable pub owed : Place → ℕ
owed working = 1
owed testing = 0
owed waiting = 0
owed ended = 0

-- The steps of a thread at which the clock would let it out of its inner loop.
unfoldable pub read_chances : List Move → ℕ
read_chances [] = 0
read_chances (read now chunks ∷ ms) =
    let rest = read_chances ms in if now % interval_read_servo == 0 then suc rest else rest
read_chances (set_signal v ∷ ms) = read_chances ms
read_chances (set_mode mode ∷ ms) = read_chances ms
read_chances (destroy ∷ ms) = read_chances ms
read_chances (write now ∷ ms) = read_chances ms

unfoldable pub write_chances : List Move → ℕ
write_chances [] = 0
write_chances (write now ∷ ms) =
    let rest = write_chances ms in if now % interval_write_servo == 0 then suc rest else rest
write_chances (set_signal v ∷ ms) = write_chances ms
write_chances (set_mode mode ∷ ms) = write_chances ms
write_chances (destroy ∷ ms) = write_chances ms
write_chances (read now chunks ∷ ms) = write_chances ms

read_chances-cons :
    (m : Move) (ms : List Move) → read_chances (m ∷ ms) ≡ read_chances (m ∷ []) + read_chances ms
unfolding read_chances
read_chances-cons (set_signal v) ms = ground arith
read_chances-cons (set_mode mode) ms = ground arith
read_chances-cons destroy ms = ground arith
read_chances-cons (write now) ms = ground arith
read_chances-cons (read now cs) ms = ground arith

write_chances-cons :
    (m : Move) (ms : List Move) → write_chances (m ∷ ms) ≡ write_chances (m ∷ []) + write_chances ms
unfolding write_chances
write_chances-cons (set_signal v) ms = ground arith
write_chances-cons (set_mode mode) ms = ground arith
write_chances-cons destroy ms = ground arith
write_chances-cons (read now cs) ms = ground arith
write_chances-cons (write now) ms = ground arith

module _ (L : Mavlink) where
  -- What the owner leaves to the threads.
  IsFramed : Threads.Threads L → Threads.Threads L → Type 0
  IsFramed s t =
      (t.reader ≡ s.reader)
      × (t.writer ≡ s.writer)
      × (t.fetches ≡ s.fetches)
      × (t.writes ≡ s.writes)

  destroy_step-IsFramed :
      (o : Owner) (s : Threads.Threads L) → IsFramed s (Threads.destroy_step L o s)
  unfolding IsFramed Threads.destroy_step
  destroy_step-IsFramed living s = (refl, refl, refl, refl)
  destroy_step-IsFramed clearing s = (refl, refl, refl, refl)
  destroy_step-IsFramed joining_writer s = (refl, refl, refl, refl)
  destroy_step-IsFramed joining_reader s = (refl, refl, refl, refl)
  destroy_step-IsFramed destroyed s = (refl, refl, refl, refl)

  owner_call-IsFramed :
      (o : Owner) (d : ServoDriver L) (s : Threads.Threads L)
      → IsFramed s (Threads.owner_call L o d s)
  unfolding IsFramed Threads.owner_call
  owner_call-IsFramed living d s = (refl, refl, refl, refl)
  owner_call-IsFramed clearing d s = (refl, refl, refl, refl)
  owner_call-IsFramed joining_writer d s = (refl, refl, refl, refl)
  owner_call-IsFramed joining_reader d s = (refl, refl, refl, refl)
  owner_call-IsFramed destroyed d s = (refl, refl, refl, refl)

  -- From one state to another the reading thread came this much nearer to its end, and began no call.
  unfoldable pub ReaderGoes : Threads.Threads L → Threads.Threads L → ℕ → Type 0
  ReaderGoes s t n =
      (rank t.reader ≤ rank s.reader - n) × (t.fetches + owed t.reader ≤ s.fetches + owed s.reader)

  unfoldable pub WriterGoes : Threads.Threads L → Threads.Threads L → ℕ → Type 0
  WriterGoes s t n =
      (rank t.writer ≤ rank s.writer - n) × (t.writes + owed t.writer ≤ s.writes + owed s.writer)

  read_step_goes :
      (p : Place) (now : ℕ) (cs : List (List ℕ)) (s : Threads.Threads L)
      → s.reader ≡ p
      → s.driver.is_read_thread_running ≡ false
      → ReaderGoes s (Threads.read_step L p now cs s) (read_chances (read now cs ∷ []))
  unfolding ReaderGoes Threads.read_step read_chances rank owed
  read_step_goes testing now cs s at off = ground (arith, ap rank at, ap owed at)
  read_step_goes working now cs s at off = ground (arith, ap rank at, ap owed at)
  read_step_goes waiting now cs s at off = ground (arith, ap rank at, ap owed at)
  read_step_goes ended now cs s at off = ground (arith, ap rank at, ap owed at)

  write_step_goes :
      (p : Place) (now : ℕ) (s : Threads.Threads L)
      → s.writer ≡ p
      → s.driver.is_read_thread_running ≡ false
      → WriterGoes s (Threads.write_step L p now s) (write_chances (write now ∷ []))
  unfolding WriterGoes Threads.write_step write_chances rank owed
  write_step_goes testing now s at off = ground (arith, ap rank at, ap owed at)
  write_step_goes working now s at off = ground (arith, ap rank at, ap owed at)
  write_step_goes waiting now s at off = ground (arith, ap rank at, ap owed at)
  write_step_goes ended now s at off = ground (arith, ap rank at, ap owed at)

  reader_stays :
      (s t : Threads.Threads L) → (t.reader ≡ s.reader) × (t.fetches ≡ s.fetches) → ReaderGoes s t 0
  unfolding ReaderGoes
  reader_stays s t (e, f) = omega (arith, ap rank e, ap owed e)

  writer_stays :
      (s t : Threads.Threads L) → (t.writer ≡ s.writer) × (t.writes ≡ s.writes) → WriterGoes s t 0
  unfolding WriterGoes
  writer_stays s t (e, f) = omega (arith, ap rank e, ap owed e)

  write_step-reader :
      (p : Place) (now : ℕ) (s : Threads.Threads L)
      → ((Threads.write_step L p now s).reader ≡ s.reader)
        × ((Threads.write_step L p now s).fetches ≡ s.fetches)
  unfolding Threads.write_step
  write_step-reader testing now s = (refl, refl)
  write_step-reader working now s = (refl, refl)
  write_step-reader waiting now s = (refl, refl)
  write_step-reader ended now s = (refl, refl)

  read_step-writer :
      (p : Place) (now : ℕ) (cs : List (List ℕ)) (s : Threads.Threads L)
      → ((Threads.read_step L p now cs s).writer ≡ s.writer)
        × ((Threads.read_step L p now cs s).writes ≡ s.writes)
  unfolding Threads.read_step
  read_step-writer testing now cs s = (refl, refl)
  read_step-writer working now cs s = (refl, refl)
  read_step-writer waiting now cs s = (refl, refl)
  read_step-writer ended now cs s = (refl, refl)

  framed_reader : (s t : Threads.Threads L) → IsFramed s t → ReaderGoes s t 0
  unfolding IsFramed
  framed_reader s t (r, w, f, v) = reader_stays s t (r, f)

  framed_writer : (s t : Threads.Threads L) → IsFramed s t → WriterGoes s t 0
  unfolding IsFramed
  framed_writer s t (r, w, f, v) = writer_stays s t (w, v)

  pub step-reader :
      (m : Move) (s : Threads.Threads L)
      → s.driver.is_read_thread_running ≡ false
      → ReaderGoes s (Threads.step L m s) (read_chances (m ∷ []))
  unfolding Threads.step read_chances
  step-reader (set_signal v) s off = framed_reader s _ (owner_call-IsFramed s.owner _ s)
  step-reader (set_mode mode) s off = framed_reader s _ (owner_call-IsFramed s.owner _ s)
  step-reader destroy s off = framed_reader s _ (destroy_step-IsFramed s.owner s)
  step-reader (read now cs) s off = read_step_goes s.reader now cs s refl off
  step-reader (write now) s off = reader_stays s _ (write_step-reader s.writer now s)

  pub step-writer :
      (m : Move) (s : Threads.Threads L)
      → s.driver.is_read_thread_running ≡ false
      → WriterGoes s (Threads.step L m s) (write_chances (m ∷ []))
  unfolding Threads.step write_chances
  step-writer (set_signal v) s off = framed_writer s _ (owner_call-IsFramed s.owner _ s)
  step-writer (set_mode mode) s off = framed_writer s _ (owner_call-IsFramed s.owner _ s)
  step-writer destroy s off = framed_writer s _ (destroy_step-IsFramed s.owner s)
  step-writer (read now cs) s off = writer_stays s _ (read_step-writer s.reader now cs s)
  step-writer (write now) s off = write_step_goes s.writer now s refl off

  pub ReaderGoes-trans :
      (s t u : Threads.Threads L) (m : Move) (ms : List Move)
      → ReaderGoes s t (read_chances (m ∷ []))
      → ReaderGoes t u (read_chances ms)
      → ReaderGoes s u (read_chances (m ∷ ms))
  unfolding ReaderGoes
  ReaderGoes-trans s t u m ms (r, f) (r', f') = omega (arith, read_chances-cons m ms)

  pub WriterGoes-trans :
      (s t u : Threads.Threads L) (m : Move) (ms : List Move)
      → WriterGoes s t (write_chances (m ∷ []))
      → WriterGoes t u (write_chances ms)
      → WriterGoes s u (write_chances (m ∷ ms))
  unfolding WriterGoes
  WriterGoes-trans s t u m ms (r, f) (r', f') = omega (arith, write_chances-cons m ms)

  pub reader_at_start : (s : Threads.Threads L) → ReaderGoes s s (read_chances [])
  unfolding ReaderGoes read_chances
  reader_at_start s = omega arith

  pub writer_at_start : (s : Threads.Threads L) → WriterGoes s s (write_chances [])
  unfolding WriterGoes write_chances
  writer_at_start s = omega arith
