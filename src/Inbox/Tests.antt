-- ===== src/Inbox/Tests.antt =====
-- Runs of the daemon and the main loop of chicken/chicken.cpp over the array of messages.
use cooboc.Base.{ℕ, ◌≡◌, refl, List, [], ◌∷◌, ◌++◌, replicate, length-replicate, arith}
use cooboc.Headrest.{move_up_text, stop_move_text}
use cooboc.Inbox.{Turn, write_turn, read_turn, move_up, new_shared, take_turns}
use cooboc.Inbox.Obeyed.{asked, Fits, last_message_obeyed}

-- The loop fetches the first message only when the second is copied, and then the mark is set again.
abbrev overtaken : List Turn
overtaken =
    replicate 11 (write_turn stop_move_text)
    ++ (read_turn
        ∷ (replicate 8 (write_turn move_up_text)
            ++ (replicate 7 read_turn ++ (write_turn [] ∷ replicate 8 read_turn))))

last_message_obeyed_example :
    (take_turns (new_shared (replicate 1024 7)) overtaken).obeyed ≡ move_up ∷ []
unfolding take_turns new_shared asked Fits
last_message_obeyed_example =
    last_message_obeyed (replicate 1024 7) overtaken move_up_text (stop_move_text ∷ [])
      (length-replicate {A = ℕ} 1024 7) (omega arith) refl refl refl refl

-- The command is sent in the pass before the mark is set, and so a second time after it. The first
-- message is never obeyed.
obeyed_before_mark :
    (take_turns (new_shared (replicate 1024 7)) (
      replicate 11 (write_turn stop_move_text)
      ++ (read_turn ∷ (replicate 8 (write_turn move_up_text) ++ replicate 7 read_turn)))).obeyed
    ≡ move_up ∷ []
unfolding take_turns new_shared
obeyed_before_mark = refl
