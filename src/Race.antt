-- ===== src/Race.antt =====
-- How the reading thread of chicken/device/driver/hr_driver.cpp and the main loop of chicken/chicken.cpp
-- share `mDist`, `mHrPosition` and `mHasNewData`, which no lock guards: each access is a step, and
-- the two threads take their steps in any order. An access is taken to be whole and to be seen at
-- once by the other thread.
pub mod Fresh
mod Tests
use cooboc.Base.{ℕ, Bool, true, false, Option, none, some, List, [], ◌∷◌, if◌then◌else◌}
use cooboc.Base.Int.{ℤ, pos}

-- What a packet held.
pub record Packet : Type 0 where
  pub dist0 : ℕ
  pub dist1 : ℕ
  pub hr_position : ℤ

-- Where `readData` stands in the four assignments for a packet.
pub data Writer : Type 0 where
  idle : Writer
  wrote_dist0 wrote_dist1 wrote_position : Packet → Writer

-- Where the loop stands: at the test of `hasNewData`, before `getHrPosition`, before and after
-- `getDistData`, and in `sendDistance` with the first distance read.
pub data Reader : Type 0 where
  testing seen : Reader
  located : ℤ → Reader
  cleared : Reader
  took_dist0 : ℕ → Reader

-- The members, where the threads stand, the packets that the one began to write, the last first, and
-- the distances that the other sent last.
pub record Shared : Type 0 where
  pub dist0 : ℕ
  pub dist1 : ℕ
  pub hr_position : ℤ
  pub has_new_data : Bool
  pub writer : Writer
  pub reader : Reader
  pub begun : List Packet
  pub sent : Option (ℕ × ℕ)

pub new_shared : Shared
new_shared = record {
  dist0 = 0;
  dist1 = 0;
  hr_position = pos 0;
  has_new_data = false;
  writer = idle;
  reader = testing;
  begun = [];
  sent = none;
}

-- The next step of `readData`; where it is idle the next packet is this one.
pub write_step : Shared → Writer → Packet → Shared
write_step s idle p = record s { dist0 = p.dist0; writer = wrote_dist0 p; begun = p ∷ s.begun }
write_step s (wrote_dist0 q) p = record s { dist1 = q.dist1; writer = wrote_dist1 q }
write_step s (wrote_dist1 q) p = record s { hr_position = q.hr_position; writer = wrote_position q }
write_step s (wrote_position q) p = record s { has_new_data = true; writer = idle }

-- The next step of the loop. `getDistData` marks the data as read before they are.
pub read_step : Shared → Reader → Shared
read_step s testing = if s.has_new_data then record s { reader = seen } else s
read_step s seen = record s { reader = located s.hr_position }
read_step s (located position) = record s { has_new_data = false; reader = cleared }
read_step s cleared = record s { reader = took_dist0 s.dist0 }
read_step s (took_dist0 d0) = record s { sent = some (d0, s.dist1); reader = testing }

pub data Turn : Type 0 where
  write_turn : Packet → Turn
  read_turn : Turn

pub take_turn : Shared → Turn → Shared
unfolding write_step read_step
take_turn s (write_turn p) = write_step s s.writer p
take_turn s read_turn = read_step s s.reader

pub take_turns : Shared → List Turn → Shared
unfolding take_turn
take_turns s [] = s
take_turns s (t ∷ ts) = take_turns (take_turn s t) ts
