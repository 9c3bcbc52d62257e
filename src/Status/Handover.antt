-- ===== src/Status/Handover.antt =====
-- Which navigators are enabled after runs of `work` (chicken/status_controller.cpp).
use cooboc.Base.{
  ℕ, ◌≡◌, ◌≢◌, ◌⊎◌, ◌↔◌, inl, inr, sym, ◌∙◌, append_assoc, ==_iff, Bool-cases, true, false, some,
  List, [], ◌∷◌, ◌++◌, arith, ◌==◌,
}
use cooboc.Status.{Status, on_takeover, on_release, navigator_at, decide_flight_status, work, run}

-- Only the navigator of the current status may be enabled.
abbrev IsExclusive : Status → Type 0
IsExclusive s = (id : ℕ) → s.fleet id ≡ true → navigator_at s s.flight_status ≡ some id

-- It is enabled.
abbrev IsActive : Status → Type 0
IsActive s = (id : ℕ) → navigator_at s s.flight_status ≡ some id → s.fleet id ≡ true

-- `work` never leaves a navigator enabled that is not the one of the status.
work-IsExclusive : (s : Status) (signal : ℕ) → IsExclusive s → IsExclusive (work s signal)
unfolding work
work-IsExclusive s signal h id e = ground (arith, h id)

-- After `work` the status is the one that the signal asks for.
flight_status-work :
    (s : Status) (signal : ℕ) → (work s signal).flight_status ≡ decide_flight_status signal
unfolding work
flight_status-work s signal = ground arith

work-IsActive :
    (s : Status) (signal : ℕ)
    → decide_flight_status signal ≢ s.flight_status
    → IsActive (work s signal)
unfolding work
work-IsActive s signal h id e = ground arith

keeps_IsActive :
    (s : Status) (signal : ℕ)
    → decide_flight_status signal ≡ s.flight_status
    → IsActive s
    → IsActive (work s signal)
unfolding work
keeps_IsActive s signal same h id e = ground (arith, h id)

decided_is_not_default : (signal : ℕ) → decide_flight_status signal ≢ 0
unfolding decide_flight_status
decided_is_not_default signal e = ground arith

-- The status has left its initial value, and the navigator of the status, and no other, is enabled.
record IsSettled (s : Status) : Type 0 where
  left_default : s.flight_status ≢ 0
  exclusive : IsExclusive s
  active : IsActive s

work-IsSettled :
    (s : Status) (signal : ℕ)
    → IsExclusive s
    → (s.flight_status ≡ 0) ⊎ IsActive s
    → IsSettled (work s signal)
work-IsSettled s signal x h = record {
  left_default = λ e. decided_is_not_default signal (sym (flight_status-work s signal) ∙ e);
  exclusive = work-IsExclusive s signal x;
  active = elim (Bool-cases (decide_flight_status signal == s.flight_status)) [
    | inl same ↦ keeps_IsActive s signal ((==_iff _ _).0 same) (elim h [
      | inl zero_status ↦ absurd (decided_is_not_default signal ((==_iff _ _).0 same ∙ zero_status))
      | inr a ↦ a
    ])
    | inr moved ↦ work-IsActive s signal (λ e. true_ne_false (sym ((==_iff _ _).1 e) ∙ moved))
  ];
}
  where
    true_ne_false : true ≢ false
    true_ne_false e = cc

run-IsSettled :
    (s : Status) (xs : List ℕ) (x : ℕ)
    → IsExclusive s
    → (s.flight_status ≡ 0) ⊎ IsActive s
    → IsSettled (run s (xs ++ (x ∷ [])))
      × ((run s (xs ++ (x ∷ []))).flight_status ≡ decide_flight_status x)
unfolding run
run-IsSettled s [] x e h = (work-IsSettled s x e h, flight_status-work s x)
run-IsSettled s (y ∷ ys) x e h =
    let settled = work-IsSettled s y e h in
    run-IsSettled (work s y) ys x settled.exclusive (inr settled.active)

-- A controller started in the default status, of whose navigators at most the default one is
-- enabled: after any signals, of which `x` is the last, the status is the one that `x` asks for,
-- and a navigator is enabled exactly if it is the one entered for that status.
pub run_hands_over :
    (s : Status) (xs : List ℕ) (x : ℕ)
    → s.flight_status ≡ 0
    → ((id : ℕ) → (s.fleet id ≡ false) ⊎ (navigator_at s 0 ≡ some id))
    → let s' = run s (xs ++ (x ∷ [])) in
      (s'.flight_status ≡ decide_flight_status x)
      × ((id : ℕ) → (s'.fleet id ≡ true) ↔ (navigator_at s' s'.flight_status ≡ some id))
run_hands_over s xs x start e =
    let (settled, status) = run-IsSettled s xs x exclusive (inl start) in
    (status, λ id. (settled.exclusive id, settled.active id))
  where
    exclusive : IsExclusive s
    exclusive id is_on = ground (arith, e id)

-- A change of status between two different navigators releases the old one, and then lets the new
-- one take over: these two calls, in this order, and no other.
handover_order :
    (s : Status) (signal old new : ℕ)
    → decide_flight_status signal ≢ s.flight_status
    → navigator_at s s.flight_status ≡ some old
    → navigator_at s (decide_flight_status signal) ≡ some new
    → old ≢ new
    → s.fleet old ≡ true
    → s.fleet new ≡ false
    → (work s signal).log ≡ s.log ++ (on_release old ∷ on_takeover new ∷ [])
unfolding work
handover_order s signal old new ne at_old at_new differ is_on is_off =
    ground (arith, append_assoc s.log (on_release old ∷ []) (on_takeover new ∷ []))

-- Without a change of status nothing is called.
unchanged_status_quiet :
    (s : Status) (signal : ℕ) → decide_flight_status signal ≡ s.flight_status → work s signal ≡ s
unfolding work
unchanged_status_quiet s signal e = ground arith
