-- ===== src/Flight/Invariant.antt =====
-- The navigators and the attitude controller, over runs of the threads that `setupController`
-- (chicken/chicken.cpp) starts.
use cooboc.Base.{◌≡◌, ◌⊎◌, refl, inl, true, false, some, List, [], ◌∷◌, arith}
use cooboc.Float.{Float}
use cooboc.Imu.{ImuAttitude}
use cooboc.Servo.{Mavlink, ServoDriver}
use cooboc.Status.{Status, navigator_at}
use cooboc.Status
use cooboc.Attitude
use cooboc.Flight.{
  manully_navigator, attitude_navigator, Flight, status_step, attitude_step, manully_step,
  controller_step, fetch_step, write_step, tunning_step,
}
use cooboc.Flight

-- The status and the navigators that are enabled in it.
abbrev Matches : Status → Type 0
Matches s =
    ((s.flight_status ≡ 0)
      × (s.fleet manully_navigator ≡ false)
      × (s.fleet attitude_navigator ≡ false))
    ⊎ ((s.flight_status ≡ 1)
        × (s.fleet manully_navigator ≡ true)
        × (s.fleet attitude_navigator ≡ false))
    ⊎ ((s.flight_status ≡ 2)
        × (s.fleet manully_navigator ≡ false)
        × (s.fleet attitude_navigator ≡ true))

module _ (F : Float) (L : Mavlink) where
  -- The attitude controller is enabled exactly while its navigator is.
  pub record IsConsistent (f : Flight F L) : Type 0 where
    pub at_default : navigator_at f.status 0 ≡ some attitude_navigator
    pub at_manully : navigator_at f.status 1 ≡ some manully_navigator
    pub at_attitude : navigator_at f.status 2 ≡ some attitude_navigator
    pub matches : Matches f.status
    pub follows : f.controller.is_enabled ≡ f.status.fleet attitude_navigator

  status_work-IsConsistent :
      (f : Flight F L) (a current : ImuAttitude F)
      → IsConsistent f
      → IsConsistent (Flight.status_work F L a current f)
  unfolding Flight.status_work Status.work Attitude.on_takeover Attitude.on_release
  status_work-IsConsistent f a current h =
      ground (arith, h.at_default, h.at_manully, h.at_attitude, h.matches, h.follows)

  step-IsConsistent :
      (f : Flight F L) (s : Flight.Step F L) → IsConsistent f → IsConsistent (Flight.step F L f s)
  unfolding Flight.step Attitude.navigate Attitude.work Attitude.set_controller_tunning
  step-IsConsistent f (status_step a current) h = status_work-IsConsistent f a current h
  step-IsConsistent f (attitude_step a) h =
      ground (arith, h.at_default, h.at_manully, h.at_attitude, h.matches, h.follows)
  step-IsConsistent f manully_step h =
      ground (arith, h.at_default, h.at_manully, h.at_attitude, h.matches, h.follows)
  step-IsConsistent f (controller_step a) h =
      ground (arith, h.at_default, h.at_manully, h.at_attitude, h.matches, h.follows)
  step-IsConsistent f (fetch_step chunks) h = record {
    at_default = h.at_default;
    at_manully = h.at_manully;
    at_attitude = h.at_attitude;
    matches = h.matches;
    follows = h.follows;
  }
  step-IsConsistent f write_step h = record {
    at_default = h.at_default;
    at_manully = h.at_manully;
    at_attitude = h.at_attitude;
    matches = h.matches;
    follows = h.follows;
  }
  step-IsConsistent f (tunning_step p i d) h = record {
    at_default = h.at_default;
    at_manully = h.at_manully;
    at_attitude = h.at_attitude;
    matches = h.matches;
    follows = h.follows;
  }

  run-IsConsistent :
      (f : Flight F L) (ss : List (Flight.Step F L))
      → IsConsistent f
      → IsConsistent (Flight.run F L f ss)
  unfolding Flight.run
  run-IsConsistent f [] h = h
  run-IsConsistent f (s ∷ ss) h =
      run-IsConsistent (Flight.step F L f s) ss (step-IsConsistent f s h)

  setup_controller-IsConsistent : (d : ServoDriver L) → IsConsistent (Flight.setup_controller F L d)
  unfolding Flight.setup_controller
  setup_controller-IsConsistent d = record {
    at_default = refl;
    at_manully = refl;
    at_attitude = refl;
    matches = inl (refl, refl, refl);
    follows = refl;
  }

  -- Whatever the threads do after the start, in whatever order: the table holds the navigators that
  -- were entered, the navigator of the status and no other is enabled once the status has left its
  -- default, none before, and the attitude controller is enabled exactly while its navigator is.
  pub runs_IsConsistent :
      (d : ServoDriver L) (ss : List (Flight.Step F L))
      → IsConsistent (Flight.run F L (Flight.setup_controller F L d) ss)
  runs_IsConsistent d ss =
      run-IsConsistent (Flight.setup_controller F L d) ss (setup_controller-IsConsistent d)
