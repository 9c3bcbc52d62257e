-- ===== src/Interval/Waking.antt =====
-- When the threads of chicken/utils/i_interval_thread.cpp wake.
use native.Mathlib.Nat.{mod-eq_of_lt, mod_self, mod-lt, mod-add-mod, add-mod-mod}
use cooboc.Base.{
  ℕ, zero, suc, ◌+◌, ◌-◌, ◌%◌, ◌≤◌, ◌<◌, ◌≡◌, refl, sym, ap, ◌∙◌, Bool-cases, inl, inr, true, false,
  Option, none, some, List, [], ◌∷◌, length, All, ◌==◌, ==_iff, if◌then◌else◌, arith,
}
use cooboc.Interval.{
  Round, wait, works, IntervalThread, start, starts, set_interval, new_interval_thread,
}

-- The clock is read at least once in each millisecond, and does not go back.
Ticks : ℕ → List ℕ → Type 0
Ticks now [] = Unit
Ticks now (next ∷ later) = (now ≤ next) × (next ≤ suc now) × Ticks next later

last_reading : ℕ → List ℕ → ℕ
last_reading now [] = now
last_reading now (next ∷ later) = last_reading next later

-- The first multiple of the interval that is not before.
next_multiple : ℕ → ℕ → ℕ
next_multiple interval now = now + (interval - now % interval) % interval

next_multiple-mod : (n now : ℕ) → 0 < n → next_multiple n now % n ≡ 0
unfolding next_multiple
next_multiple-mod n now h =
    add-mod-mod now (n - now % n) n
    ∙ sym (mod-add-mod now n (n - now % n))
    ∙ ap (λ k. k % n) (omega (arith, mod-lt now h))
    ∙ mod_self n

next_multiple_range :
    (n now : ℕ) → 0 < n → (now ≤ next_multiple n now) × (next_multiple n now < now + n)
unfolding next_multiple
next_multiple_range n now h = omega (arith, mod-lt (n - now % n) h)

-- Two multiples that are nearer than the interval are the same.
same_multiple : (n u g : ℕ) → u % n ≡ 0 → g % n ≡ 0 → u ≤ g → g < u + n → u ≡ g
same_multiple n u g hu hg le lt = omega (arith, gap)
  where
    whole : 0 + (g - u) ≡ g - u
    whole = omega arith

    back : u + (g - u) ≡ g
    back = omega arith

    small : g - u < n
    small = omega arith

    gap : g - u ≡ 0
    gap =
        sym (mod-eq_of_lt small)
        ∙ ap (λ k. k % n) (sym whole)
        ∙ ap (λ k. (k + (g - u)) % n) (sym hu)
        ∙ mod-add-mod u n (g - u)
        ∙ ap (λ k. k % n) back
        ∙ hg

-- A reading that is no multiple comes before the next multiple.
not_yet : (n u g : ℕ) → g % n ≡ 0 → (u % n == 0) ≡ false → u ≤ g → u < g
not_yet n u g hg hu le = elim (Bool-cases (u == g)) [
  | inl k ↦ absurd (ground (arith, ap (λ x. x % n) ((==_iff u g).0 k) ∙ hg))
  | inr k ↦ ground arith
]

wait-multiple :
    (n g now : ℕ) (later : List ℕ)
    → g % n ≡ 0
    → now ≤ g
    → g < now + n
    → Ticks now later
    → g ≤ last_reading now later
    → wait n (now ∷ later) ≡ some g
unfolding wait Ticks last_reading
wait-multiple n g now [] hg le lt t reached = elim (Bool-cases (now % n == 0)) [
  | inl k ↦ simp k (ap some (same_multiple n now g ((==_iff _ _).0 k) hg le lt))
  | inr k ↦ absurd (omega (arith, not_yet n now g hg k le))
]
wait-multiple n g now (next ∷ later) hg le lt (le', step, t) reached =
    elim (Bool-cases (now % n == 0)) [
      | inl k ↦ simp k (ap some (same_multiple n now g ((==_iff _ _).0 k) hg le lt))
      | inr k ↦ simp k (
          wait-multiple n g next later hg (omega (arith, not_yet n now g hg k le)) (omega arith) t
            reached)
    ]

-- If the clock is read in each millisecond of the interval's length from the first reading on, then
-- the waiting ends, at the first multiple of the interval.
wait_ends :
    (interval now : ℕ) (later : List ℕ)
    → 0 < interval
    → Ticks now later
    → now + interval ≤ last_reading now later
    → wait interval (now ∷ later) ≡ some (next_multiple interval now)
wait_ends n now later h t reached =
    let (le, lt) = next_multiple_range n now h in
    wait-multiple n (next_multiple n now) now later (next_multiple-mod n now h) le lt t
      (omega arith)

-- A round that is let begin, and in which the clock is read so for long enough.
IsPaced : Round → Type 0
IsPaced r =
    (r.is_running ≡ true)
    × (0 < r.interval)
    × Ticks r.first r.later
    × (r.first + r.interval ≤ last_reading r.first r.later)

paced_works : (r : Round) (rs : List Round) → IsPaced r → works (r ∷ rs) ≡ suc (works rs)
unfolding works IsPaced
paced_works r rs (running, h, t, reached) =
    ap
      (λ b.
        if b
        then suc (elim (wait r.interval (r.first ∷ r.later)) [ none ↦ 0 | some now ↦ works rs ])
        else 0)
      running
    ∙ ap (λ (o : Option ℕ). suc (elim o [ none ↦ 0 | some now ↦ works rs ]))
        (wait_ends r.interval r.first r.later h t reached)

-- If each round is let begin with an interval above 0, and its clock is read in every
-- millisecond, without going back, for the length of the interval from its first reading on,
-- then the thread works once in each of the rounds: no waiting goes on for ever.
works-length : (rs : List Round) → All IsPaced rs → works rs ≡ length rs
works-length [] all = unfold works in refl
works-length (r ∷ rs) (p, all) = paced_works r rs p ∙ ap suc (works-length rs all)

-- However often a thread is started, its loop is created once.
starts_once :
    (interval : ℕ) (n : ℕ)
    → (starts (suc n) (set_interval new_interval_thread interval)).threads ≡ 1
unfolding starts start new_interval_thread set_interval
starts_once interval n = still n _ refl
  where
    still : (n : ℕ) (t : IntervalThread) → t.is_running ≡ true → (starts n t).threads ≡ t.threads
    still zero t h = refl
    still (suc n) t h =
        ap
          (λ b.
            (starts n
              (if b then t else record t { is_running = true; threads = t.threads + 1 })).threads)
          h
        ∙ still n t h
