-- ===== src/Firmware/Coils/Runs.antt =====
-- The coils of the motor while arduino/hr/hr.ino runs.
use cooboc.Base.{ℕ, ◌≡◌, refl, subst, Bool, List, [], ◌∷◌, ◌++◌, Option, none, some}
use cooboc.Firmware.{Sketch, Effect, Round, read_commands, drive, loop, report, setup}
use cooboc.Firmware.Coils.{Levels, apply_all, timeline, AreOff, Walks, Walks-trans, Walks-AreOff}
use cooboc.Firmware.Coils.Rounds.{
  RoundWalks, nothing-Walks, read_commands-RoundWalks, drive-RoundWalks,
}

-- A round of `loop`, and the rounds after it: what the serial line, the switches and the two
-- distances give in each.
pub record Inputs : Type 0 where
  pub serial : List ℕ
  pub top : Bool
  pub bottom : List Bool
  pub dist0 : ℕ
  pub dist1 : ℕ

unfoldable pub loops : Sketch → List Inputs → Option (Sketch × List Effect)
loops s [] = some (s, [])
loops s (i ∷ is) = elim (loop s i.serial i.top i.bottom i.dist0 i.dist1) [
  | none ↦ none
  | some r ↦ elim (loops r.0.sketch is) [ none ↦ none | some q ↦ some (q.0, r.0.effects ++ q.1) ]
]

-- The same of a whole round, and of some rounds.
LoopWalks : Levels → ℕ → Option (Round × List ℕ) → Type 0
LoopWalks l p none = Unit
LoopWalks l p (some r) = Walks l p r.0.effects r.0.sketch.position

RunWalks : Levels → ℕ → Option (Sketch × List Effect) → Type 0
RunWalks l p none = Unit
RunWalks l p (some q) = Walks l p q.1 q.0.position

driven :
    (l : Levels) (p : ℕ) (r : Round) (d1 d2 : ℕ) (o : Option Round)
    → Walks l p r.effects r.sketch.position
    → RoundWalks (apply_all l r.effects) r.sketch.position o
    → LoopWalks l p (elim o [
      | none ↦ none
      | some q ↦
          some (record q { effects = r.effects ++ q.effects }, report q.sketch.position d1 d2)
    ])
unfolding LoopWalks RoundWalks
driven l p r d1 d2 none w v = tt
driven l p r d1 d2 (some q) w v =
    Walks-trans l p r.sketch.position q.sketch.position r.effects q.effects w v

commanded :
    (l : Levels) (p : ℕ) (top : Bool) (d1 d2 : ℕ) (o : Option Round)
    → RoundWalks l p o
    → LoopWalks l p (elim o [
      | none ↦ none
      | some r ↦ elim (drive r.sketch.status r.sketch top r.readings) [
        | none ↦ none
        | some q ↦
            some (record q { effects = r.effects ++ q.effects }, report q.sketch.position d1 d2)
      ]
    ])
unfolding RoundWalks
commanded l p top d1 d2 none w = unfold LoopWalks in tt
commanded l p top d1 d2 (some r) w =
    driven l p r d1 d2 (drive r.sketch.status r.sketch top r.readings) w (
      drive-RoundWalks (apply_all l r.effects) r.sketch.status r.sketch top r.readings
        (Walks-AreOff l p r.sketch.position r.effects w))

loop-LoopWalks :
    (l : Levels) (s : Sketch) (i : Inputs)
    → AreOff l
    → LoopWalks l s.position (loop s i.serial i.top i.bottom i.dist0 i.dist1)
unfolding loop
loop-LoopWalks l s i h =
    commanded l s.position i.top i.dist0 i.dist1 (read_commands s i.serial i.bottom)
      (read_commands-RoundWalks l s i.serial i.bottom h)

followed :
    (l : Levels) (p : ℕ) (r : Round) (o : Option (Sketch × List Effect))
    → Walks l p r.effects r.sketch.position
    → RunWalks (apply_all l r.effects) r.sketch.position o
    → RunWalks l p (elim o [ none ↦ none | some q ↦ some (q.0, r.effects ++ q.1) ])
unfolding RunWalks
followed l p r none w v = tt
followed l p r (some q) w v = Walks-trans l p r.sketch.position q.0.position r.effects q.1 w v

begun :
    (l : Levels) (p : ℕ) (is : List Inputs) (o : Option (Round × List ℕ))
    → LoopWalks l p o
    → ((k : Levels) (s : Sketch) → AreOff k → RunWalks k s.position (loops s is))
    → RunWalks l p (elim o [
      | none ↦ none
      | some r ↦ elim (loops r.0.sketch is) [
        | none ↦ none
        | some q ↦ some (q.0, r.0.effects ++ q.1)
      ]
    ])
unfolding LoopWalks
begun l p is none w ih = unfold RunWalks in tt
begun l p is (some r) w ih =
    followed l p r.0 (loops r.0.sketch is) w
      (ih (apply_all l r.0.effects) r.0.sketch (Walks-AreOff l p r.0.sketch.position r.0.effects w))

loops-RunWalks :
    (is : List Inputs) (l : Levels) (s : Sketch) → AreOff l → RunWalks l s.position (loops s is)
unfolding loops
loops-RunWalks [] l s h = unfold RunWalks in nothing-Walks l s.position h
loops-RunWalks (i ∷ is) l s h =
    begun l s.position is (loop s i.serial i.top i.bottom i.dist0 i.dist1) (loop-LoopWalks l s i h)
      (loops-RunWalks is)

setup-AreOff : (l : Levels) → AreOff (apply_all l setup.1)
unfolding setup apply_all AreOff
setup-AreOff l = (refl, refl, refl, refl)

walked :
    (l : Levels) (p : ℕ) (o : Option (Sketch × List Effect)) (q : Sketch × List Effect)
    → o ≡ some q
    → RunWalks l p o
    → Walks l p q.1 q.0.position
walked l p o q e w = unfold RunWalks in subst (RunWalks l p) e w

-- Whatever the pins are at first, `setup` turns the coils off at once. And whatever commands and
-- readings the rounds of `loop` after it are given, homing included, if the readings suffice for
-- them: what the motor goes through is put together of whole turns of the field up and down by half
-- steps, each pair of neighbouring coils for 1 ms and each single one for 4 ms, and rests of 12 ms
-- without current; the position is the number of the turns up less those down since the start or since
-- it was last set to 0, in 16 bits; and the coils are off at the end, with every other pin as `setup`
-- set it.
pub coils_switched :
    (l : Levels) (is : List Inputs) (s : Sketch) (es : List Effect)
    → loops setup.0 is ≡ some (s, es)
    → (timeline l setup.1 ≡ []) × Walks (apply_all l setup.1) 0 es s.position
coils_switched l is s es e = (
  unfold setup timeline in refl,
  walked (apply_all l setup.1) 0 (loops setup.0 is) (s, es) e
      (from_start (loops-RunWalks is (apply_all l setup.1) setup.0 (setup-AreOff l))),
)
  where
    from_start :
        RunWalks (apply_all l setup.1) setup.0.position (loops setup.0 is)
        → RunWalks (apply_all l setup.1) 0 (loops setup.0 is)
    from_start w = unfold setup in w
