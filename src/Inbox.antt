-- ===== src/Inbox.antt =====
-- How the web socket's daemon (chicken/device/driver/io/websocket_handler.cpp) and the main loop of
-- chicken/chicken.cpp share `mReceivedMessage` and `mHasNewMessage`, which no lock guards. A step is one
-- byte copied, one access of the mark, or one call of `strcmp`; the two threads take their steps in
-- any order.
--
-- The library is taken to deliver one message after the other, each shorter than the array.
mod Copied
pub mod Obeyed
mod Tests
use cooboc.Base.{
  ℕ, zero, suc, ◌+◌, Bool, true, false, List, [], ◌∷◌, ◌++◌, ◌==◌, if◌then◌else◌, length, set,
  replicate,
}
use cooboc.Base.Texts.{same_text}
use cooboc.Websocket.{until_zero}
use cooboc.Headrest.{move_up_text, move_down_text, stop_move_text, reset_text}

pub data Command : Type 0 where
  move_up move_down stop_move reset : Command

abbrev pub command_text : Command → List ℕ
command_text move_up = move_up_text
command_text move_down = move_down_text
command_text stop_move = stop_move_text
command_text reset = reset_text

-- The four comparisons of the loop.
abbrev pub all_commands : List Command
all_commands = move_up ∷ move_down ∷ stop_move ∷ reset ∷ []

-- What `strncpy` writes of a message: zeros from its first 0 on.
pub padded : List ℕ → List ℕ
padded [] = []
padded (b ∷ bs) = let rest = padded bs in if b == 0 then 0 ∷ replicate (length bs) 0 else b ∷ rest

-- Where `onMessageReceived` stands: what is still to be copied of a message, and to which place; or
-- its end is written and the mark is not yet set.
pub data Writer : Type 0 where
  idle : Writer
  copying : List ℕ → List ℕ → ℕ → Writer
  ended : List ℕ → Writer

-- Where the loop stands: at the test of `hasNewMessage`, before the mark is taken away by the first
-- `getReceivedMessage`, before it is by the second, or with the comparisons that are left.
pub data Reader : Type 0 where
  testing seen fetched : Reader
  comparing : List Command → Reader

-- `begun` has the messages that the one thread began to write, the last first, and `obeyed` the commands
-- that the other has sent since it last fetched a message.
pub record Shared : Type 0 where
  pub buffer : List ℕ
  pub has_new_message : Bool
  pub writer : Writer
  pub reader : Reader
  pub begun : List (List ℕ)
  pub obeyed : List Command

-- The constructor leaves the array as it is.
pub new_shared : List ℕ → Shared
new_shared buffer = record {
  buffer = buffer;
  has_new_message = false;
  writer = idle;
  reader = testing;
  begun = [];
  obeyed = [];
}

-- The next step of `onMessageReceived`; where it is idle the next message is this one.
pub write_step : Shared → Writer → List ℕ → Shared
unfolding padded
write_step s idle m = record s { writer = copying m (padded m) 0; begun = m ∷ s.begun }
write_step s (copying m (b ∷ rest) i) m' = record s {
  buffer = set s.buffer i b;
  writer = copying m rest (i + 1);
}
write_step s (copying m [] i) m' = record s { buffer = set s.buffer i 0; writer = ended m }
write_step s (ended m) m' = record s { has_new_message = true; writer = idle }

-- The next step of the loop.
pub read_step : Shared → Reader → Shared
unfolding same_text until_zero
read_step s testing = if s.has_new_message then record s { reader = seen } else s
read_step s seen = record s { has_new_message = false; reader = fetched }
read_step s fetched = record s {
  has_new_message = false;
  reader = comparing all_commands;
  obeyed = [];
}
read_step s (comparing (c ∷ cs)) = record s {
  reader = comparing cs;
  obeyed =
      if same_text (until_zero s.buffer) (command_text c) then s.obeyed ++ (c ∷ []) else s.obeyed;
}
read_step s (comparing []) = record s { reader = testing }

pub data Turn : Type 0 where
  write_turn : List ℕ → Turn
  read_turn : Turn

pub take_turn : Shared → Turn → Shared
unfolding write_step read_step
take_turn s (write_turn m) = write_step s s.writer m
take_turn s read_turn = read_step s s.reader

pub take_turns : Shared → List Turn → Shared
unfolding take_turn
take_turns s [] = s
take_turns s (t ∷ ts) = take_turns (take_turn s t) ts
