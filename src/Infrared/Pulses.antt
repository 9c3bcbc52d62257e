-- ===== src/Infrared/Pulses.antt =====
-- What arduino/ir/ir.ino prints of a transmission.
use cooboc.Base.{
  ℕ, ◌<◌, ◌≤◌, ◌≡◌, ap, ◌∙◌, Bool, true, false, some, List, [], ◌∷◌, ◌++◌, append-nil, append_assoc,
  All, arith,
}
use cooboc.Modem.{elapsed}
use cooboc.Infrared.{
  quiet, Line, on, off, blank, Receiver, Round, wait_while, wait_dark, round, rounds, loop,
}

-- Both of the round's inner loops end.
unfoldable pub Ends : Round → Type 0
Ends x = (wait_while false x.low_readings ≡ true) × (wait_dark x.dark_start x.high_readings ≡ true)

-- And so it is with a pause of less than two seconds.
unfoldable pub GoesOn : Round → Type 0
GoesOn x = Ends x × (elapsed x.dark_start x.dark_end < quiet)

-- The lights and the pauses of a transmission whose first light began at `start`.
unfoldable pub lines : ℕ → List Round → List Line
lines start [] = []
lines start (x ∷ xs) =
    on (elapsed start x.light_end) ∷ off (elapsed x.dark_start x.dark_end) ∷ lines x.light_start xs

-- When the light after these rounds began.
unfoldable pub last_start : ℕ → List Round → ℕ
last_start start [] = start
last_start start (x ∷ xs) = last_start x.light_start xs

abbrev printing : ℕ → ℕ → List Line → Receiver
printing t d printed = record { t = t; d = d; printed = printed }

round-GoesOn :
    (t d : ℕ) (done : List Line) (x : Round)
    → GoesOn x
    → round (printing t d done) x
      ≡ some (
          printing x.light_start (elapsed x.dark_start x.dark_end) (
            (done ++ (on (elapsed t x.light_end) ∷ []))
            ++ (off (elapsed x.dark_start x.dark_end) ∷ [])))
unfolding GoesOn Ends round
round-GoesOn t d done x ((low, dark), short) = ground (arith, low, dark, short)

round-Ends :
    (t d : ℕ) (done : List Line) (x : Round)
    → Ends x
    → quiet ≤ elapsed x.dark_start x.dark_end
    → round (printing t d done) x
      ≡ some (
          printing x.light_start
            (elapsed x.dark_start x.dark_end)
            ((done ++ (on (elapsed t x.light_end) ∷ [])) ++ []))
unfolding Ends round
round-Ends t d done x (low, dark) long = ground (arith, low, dark, long)

stopped :
    (t d : ℕ) (done : List Line) (more : List Round)
    → quiet ≤ d
    → rounds (printing t d done) more ≡ some (printing t d done)
unfolding rounds
stopped t d done [] long = ground (arith, long)
stopped t d done (x ∷ xs) long = ground (arith, long)

-- Of a round that is begun the outcome counts.
begun :
    (t d : ℕ) (done : List Line) (x : Round) (xs : List Round) (r : Receiver)
    → d < quiet
    → round (printing t d done) x ≡ some r
    → rounds (printing t d done) (x ∷ xs) ≡ rounds r xs
unfolding rounds
begun t d done x xs r low e = ground (arith, low, e)

rounds_printed :
    (t d : ℕ) (done : List Line) (xs : List Round) (last : Round) (more : List Round)
    → d < quiet
    → All GoesOn xs
    → Ends last
    → quiet ≤ elapsed last.dark_start last.dark_end
    → rounds (printing t d done) (xs ++ (last ∷ more))
      ≡ some (
          printing last.light_start
            (elapsed last.dark_start last.dark_end)
            (done ++ (lines t xs ++ (on (elapsed (last_start t xs) last.light_end) ∷ []))))
unfolding lines last_start
rounds_printed t d done [] last more low go end long =
    begun t d done last more _ low (round-Ends t d done last end long)
    ∙ stopped last.light_start (elapsed last.dark_start last.dark_end) _ more long
    ∙ ap (λ p. some (printing last.light_start (elapsed last.dark_start last.dark_end) p))
        (append-nil (done ++ (on (elapsed t last.light_end) ∷ [])))
rounds_printed t d done (x ∷ xs) last more low (go, gos) end long =
    begun t d done x (xs ++ (last ∷ more)) _ low (round-GoesOn t d done x go)
    ∙ rounds_printed x.light_start (elapsed x.dark_start x.dark_end)
        ((done ++ (on (elapsed t x.light_end) ∷ []))
          ++ (off (elapsed x.dark_start x.dark_end) ∷ []))
        xs last more (short go) gos end long
    ∙ ap (λ p. some (printing last.light_start (elapsed last.dark_start last.dark_end) p))
        (append_assoc (done ++ (on (elapsed t x.light_end) ∷ [])) _ _ ∙ append_assoc done _ _)
  where
    short : GoesOn x → elapsed x.dark_start x.dark_end < quiet
    short = unfold GoesOn in λ g. g.1

-- A transmission whose inner loops all end, with pauses of less than two seconds before a last
-- one of two seconds or more, whatever rounds are given behind that: `loop` ends there, and
-- prints the lights and the pauses before the long one in turn, each as the difference of two
-- readings of the 32-bit clock, also where it comes round; the long pause is not printed, and
-- three empty lines are.
pub transmission_printed :
    (before : List Bool) (start : ℕ) (xs : List Round) (last : Round) (more : List Round)
    → wait_while true before ≡ true
    → All GoesOn xs
    → Ends last
    → quiet ≤ elapsed last.dark_start last.dark_end
    → loop before start (xs ++ (last ∷ more))
      ≡ some (
          (lines start xs ++ (on (elapsed (last_start start xs) last.light_end) ∷ []))
          ++ (blank ∷ blank ∷ blank ∷ []))
unfolding loop
transmission_printed before start xs last more lit go end long =
    rw (lit, rounds_printed start 0 [] xs last more (omega arith) go end long)
