-- ===== src/Interval/Tests.antt =====
-- Runs of chicken/utils/i_interval_thread.cpp.
use cooboc.Base.{◌≡◌, refl, none, [], ◌∷◌}
use cooboc.Interval.{wait}

-- Where a millisecond is left out, the waiting goes on.
multiple_missed : wait 5 (18 ∷ 19 ∷ 21 ∷ 22 ∷ []) ≡ none
unfolding wait
multiple_missed = refl
