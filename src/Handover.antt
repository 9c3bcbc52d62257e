-- ===== src/Handover.antt =====
-- The handover of the servos between the threads of `AttitudeController` (chicken/attitude_controller.cpp)
-- and `ManullyNavigator` (chicken/navigator/manully_navigator.cpp), access by access: each of them tests
-- its mark and later writes a signal, and the thread of the status controller changes the marks
-- between any two of their steps, since no lock guards them.
pub mod Stale
mod Tests
use cooboc.Base.{ℕ, Bool, true, false, List, [], ◌∷◌, if◌then◌else◌}

-- Where `work` of a thread stands: before its test, or after it and before `writeServoSignal`.
pub data Stage : Type 0 where
  testing working : Stage

pub data Author : Type 0 where
  controller manual : Author

-- `writes` says who wrote the signals, the last first.
pub record Threads : Type 0 where
  pub controller_enabled : Bool
  pub manual_enabled : Bool
  pub controller_stage : Stage
  pub manual_stage : Stage
  pub writes : List Author

-- A step of `AttitudeController::work`.
pub controller_step : Threads → Stage → Threads
controller_step s testing =
    if s.controller_enabled then record s { controller_stage = working } else s
controller_step s working = record s { controller_stage = testing; writes = controller ∷ s.writes }

-- A step of `INavigator::work` and `ManullyNavigator::navigate`.
pub manual_step : Threads → Stage → Threads
manual_step s testing = if s.manual_enabled then record s { manual_stage = working } else s
manual_step s working = record s { manual_stage = testing; writes = manual ∷ s.writes }

-- A step of one of the threads; the two `set` steps are `setEnabled`, called by the status thread.
pub data Turn : Type 0 where
  controller_turn manual_turn : Turn
  set_controller set_manual : Bool → Turn

pub take_turn : Threads → Turn → Threads
unfolding controller_step manual_step
take_turn s controller_turn = controller_step s s.controller_stage
take_turn s manual_turn = manual_step s s.manual_stage
take_turn s (set_controller b) = record s { controller_enabled = b }
take_turn s (set_manual b) = record s { manual_enabled = b }

pub take_turns : Threads → List Turn → Threads
unfolding take_turn
take_turns s [] = s
take_turns s (t ∷ ts) = take_turns (take_turn s t) ts
