-- ===== src/Handover/Tests.antt =====
-- Runs of the threads of chicken/attitude_controller.cpp and chicken/navigator/manully_navigator.cpp.
use cooboc.Base.{◌+◌, ◌≡◌, refl, true, false, List, [], ◌∷◌, All}
use cooboc.Handover.{
  Threads, testing, working, controller, manual, Turn, controller_turn, manual_turn, set_manual,
  take_turns, take_turn, controller_step, manual_step,
}
use cooboc.Handover.Stale.{by_controller, pending, KeepsReleased, at_most_one_stale}

-- The controller is released while it computes a signal.
abbrev released : Threads
released = record {
  controller_enabled = false;
  manual_enabled = false;
  controller_stage = working;
  manual_stage = testing;
  writes = [];
}

-- The pilot's signal is written, and then the controller's.
abbrev overtaken : List Turn
overtaken = set_manual true ∷ manual_turn ∷ manual_turn ∷ controller_turn ∷ controller_turn ∷ []

last_by_controller : (take_turns released overtaken).writes ≡ controller ∷ manual ∷ []
unfolding take_turns take_turn controller_step manual_step
last_by_controller = refl

at_most_one_stale_example :
    by_controller (take_turns released overtaken).writes
      + pending (take_turns released overtaken).controller_stage
    ≡ 1
unfolding by_controller pending
at_most_one_stale_example = at_most_one_stale released overtaken refl kept
  where
    kept : All KeepsReleased overtaken
    kept = unfold KeepsReleased in (tt, (tt, (tt, (tt, (tt, tt)))))
