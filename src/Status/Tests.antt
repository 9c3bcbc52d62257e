-- ===== src/Status/Tests.antt =====
-- Runs of chicken/status_controller.cpp over a table of two navigators.
use cooboc.Base.{ℕ, ◌≡◌, ◌↔◌, inl, refl, true, false, none, some, List, [], ◌∷◌, ◌==◌, Option}
use cooboc.Status.{Status, navigator_at, decide_flight_status, run}
use cooboc.Status.Handover.{run_hands_over}

-- Navigator 8 for the manual and navigator 9 for the attitude status.
abbrev navigators : List (Option ℕ)
navigators = none ∷ some 8 ∷ some 9 ∷ []

abbrev started : Status
started = record { flight_status = 0; navigators = navigators; fleet = λ id. false; log = [] }

abbrev manual : Status
manual = record { flight_status = 1; navigators = navigators; fleet = λ id. id == 8; log = [] }

run_hands_over_example :
    let s' = run started (1000 ∷ 2000 ∷ []) in
    (s'.flight_status ≡ decide_flight_status 2000)
    × ((id : ℕ) → (s'.fleet id ≡ true) ↔ (navigator_at s' s'.flight_status ≡ some id))
run_hands_over_example = run_hands_over started (1000 ∷ []) 2000 refl (λ id. inl refl)
