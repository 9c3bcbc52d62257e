-- ===== src/Handover/Stale.antt =====
-- What the attitude controller of chicken/attitude_controller.cpp still writes after its release.
use cooboc.Base.{ℕ, suc, ◌+◌, ◌≡◌, refl, ap, ◌∙◌, false, List, [], ◌∷◌, All, arith}
use cooboc.Handover.{
  Stage, testing, working, Author, controller, manual, Threads, controller_step, manual_step, Turn,
  controller_turn, manual_turn, set_controller, set_manual, take_turn, take_turns,
}

-- How many signals of the controller are among these.
unfoldable pub by_controller : List Author → ℕ
by_controller [] = 0
by_controller (controller ∷ ws) = suc (by_controller ws)
by_controller (manual ∷ ws) = by_controller ws

-- The signal that the controller is about to write.
unfoldable pub pending : Stage → ℕ
pending testing = 0
pending working = 1

-- The status thread does not give the servos back.
unfoldable pub KeepsReleased : Turn → Type 0
KeepsReleased controller_turn = Unit
KeepsReleased manual_turn = Unit
KeepsReleased (set_controller b) = b ≡ false
KeepsReleased (set_manual b) = Unit

-- What was written by the controller, with what it is about to write.
owed : Threads → ℕ
owed s = by_controller s.writes + pending s.controller_stage

-- Each step keeps the controller disabled and makes it owe nothing more.
IsSpent : Threads → Threads → Type 0
IsSpent s t = (t.controller_enabled ≡ false) × (owed t ≡ owed s)

controller_step-IsSpent :
    (s : Threads) (st : Stage)
    → s.controller_stage ≡ st
    → s.controller_enabled ≡ false
    → IsSpent s (controller_step s st)
unfolding IsSpent owed controller_step pending by_controller
controller_step-IsSpent s testing at off = ground arith
controller_step-IsSpent s working at off = (off, omega (arith, ap pending at))

manual_step-IsSpent :
    (s : Threads) (st : Stage) → s.controller_enabled ≡ false → IsSpent s (manual_step s st)
unfolding IsSpent owed manual_step by_controller
manual_step-IsSpent s testing off = ground arith
manual_step-IsSpent s working off = (off, refl)

take_turn-IsSpent :
    (s : Threads) (t : Turn)
    → s.controller_enabled ≡ false
    → KeepsReleased t
    → IsSpent s (take_turn s t)
unfolding take_turn KeepsReleased
take_turn-IsSpent s controller_turn off h = controller_step-IsSpent s s.controller_stage refl off
take_turn-IsSpent s manual_turn off h = manual_step-IsSpent s s.manual_stage off
take_turn-IsSpent s (set_controller b) off h = unfold IsSpent owed in (h, refl)
take_turn-IsSpent s (set_manual b) off h = unfold IsSpent owed in (off, refl)

take_turns-IsSpent :
    (s : Threads) (ts : List Turn)
    → s.controller_enabled ≡ false
    → All KeepsReleased ts
    → IsSpent s (take_turns s ts)
unfolding take_turns IsSpent
take_turns-IsSpent s [] off h = (off, refl)
take_turns-IsSpent s (t ∷ ts) off (h, hs) =
    let (off', same) = take_turn-IsSpent s t off h in
    let (last, rest) = take_turns-IsSpent (take_turn s t) ts off' hs in (last, rest ∙ same)

-- Once the controller is disabled, and as long as it stays so, the signals that it has written and the
-- one that it is about to write stay the same number, in whatever order the threads take their
-- steps: it writes at most the one that it had begun to compute, and none once it is back at its test.
pub at_most_one_stale :
    (s : Threads) (ts : List Turn)
    → s.controller_enabled ≡ false
    → All KeepsReleased ts
    → by_controller (take_turns s ts).writes + pending (take_turns s ts).controller_stage
      ≡ by_controller s.writes + pending s.controller_stage
at_most_one_stale s ts off h = unfold IsSpent owed in (take_turns-IsSpent s ts off h).1
