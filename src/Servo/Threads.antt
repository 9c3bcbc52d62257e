-- ===== src/Servo/Threads.antt =====
-- The threads of chicken/device/driver/serial_servo_driver.cpp and the owner that creates and destroys
-- them, from one step of theirs to the next: a test of the flag, a call of `fetchServos` or
-- `writeServos`, a reading of the clock, an assignment or a `pthread_join` of the destructor.
pub mod Flag
pub mod Progress
pub mod Stopping
mod Tests
use cooboc.Base.{ℕ, suc, ◌%◌, false, List, [], ◌∷◌, ◌==◌, if◌then◌else◌}
use cooboc.Servo.{Mavlink, ServoSignal, ServoDriver, write_servos, set_override_servo_signal}
use cooboc.Servo

abbrev pub interval_read_servo : ℕ
interval_read_servo = 5

abbrev pub interval_write_servo : ℕ
interval_write_servo = 20

-- Where a thread stands: before the test of its outer loop, before its call, before the clock reading
-- of its inner loop, or behind the outer loop.
pub data Place : Type 0 where
  testing working waiting ended : Place

-- Where the owner stands: it uses the driver, or it is before the second assignment of the destructor,
-- the first `pthread_join`, or the second one, or the driver is no more.
pub data Owner : Type 0 where
  living clearing joining_writer joining_reader destroyed : Owner

-- A step of one of the three: the owner's calls, its next step through the destructor, and steps of
-- the threads, with the clock's reading and what `recv` returns from call to call.
pub data Move : Type 0 where
  set_signal : ServoSignal → Move
  set_mode : ℕ → Move
  destroy : Move
  read : ℕ → List (List ℕ) → Move
  write : ℕ → Move

-- `pthread_join`: the owner goes on where the thread has ended.
pub join : Place → Owner → Owner → Owner
join ended next here = next
join testing next here = here
join working next here = here
join waiting next here = here

module _ (L : Mavlink) where
  open L use {Channel}

  -- `fetches` and `writes` count the calls of `fetchServos` and `writeServos` by the threads.
  pub record Threads : Type 0 where
    pub driver : ServoDriver L
    pub reader : Place
    pub writer : Place
    pub owner : Owner
    pub fetches : ℕ
    pub writes : ℕ

  -- What the constructor leaves, its two threads created.
  pub new_threads : Channel → Channel → Threads
  new_threads receiver transmitter = record {
    driver = Servo.new_servo_driver L receiver transmitter;
    reader = testing;
    writer = testing;
    owner = living;
    fetches = 0;
    writes = 0;
  }

  -- A step of `startReadServoThread`, from this place.
  pub read_step : Place → ℕ → List (List ℕ) → Threads → Threads
  read_step testing now chunks s = record s {
    reader = if s.driver.is_read_thread_running then working else ended;
  }
  read_step working now chunks s = record s {
    driver = Servo.fetch_servos L s.driver chunks;
    reader = waiting;
    fetches = suc s.fetches;
  }
  read_step waiting now chunks s = record s {
    reader = if now % interval_read_servo == 0 then testing else waiting;
  }
  read_step ended now chunks s = s

  -- A step of `startWriteServoThread`, which tests the flag of the other thread.
  pub write_step : Place → ℕ → Threads → Threads
  write_step testing now s = record s {
    writer = if s.driver.is_read_thread_running then working else ended;
  }
  write_step working now s = record s {
    driver = write_servos L s.driver;
    writer = waiting;
    writes = suc s.writes;
  }
  write_step waiting now s = record s {
    writer = if now % interval_write_servo == 0 then testing else waiting;
  }
  write_step ended now s = s

  -- The next step of `~SerialServoDriver`.
  pub destroy_step : Owner → Threads → Threads
  unfolding join
  destroy_step living s = record s {
    driver = record s.driver { is_write_thread_running = false };
    owner = clearing;
  }
  destroy_step clearing s = record s {
    driver = record s.driver { is_read_thread_running = false };
    owner = joining_writer;
  }
  destroy_step joining_writer s = record s { owner = join s.writer joining_reader joining_writer }
  destroy_step joining_reader s = record s { owner = join s.reader destroyed joining_reader }
  destroy_step destroyed s = s

  -- The owner calls the driver only before it destroys it.
  pub owner_call : Owner → ServoDriver L → Threads → Threads
  owner_call living d s = record s { driver = d }
  owner_call clearing d s = s
  owner_call joining_writer d s = s
  owner_call joining_reader d s = s
  owner_call destroyed d s = s

  pub step : Move → Threads → Threads
  unfolding read_step write_step destroy_step owner_call
  step (set_signal v) s = owner_call s.owner (set_override_servo_signal L s.driver v) s
  step (set_mode mode) s = owner_call s.owner (Servo.set_output_mode L s.driver mode) s
  step destroy s = destroy_step s.owner s
  step (read now chunks) s = read_step s.reader now chunks s
  step (write now) s = write_step s.writer now s

  pub steps : List Move → Threads → Threads
  unfolding step
  steps [] s = s
  steps (m ∷ ms) s = steps ms (step m s)
