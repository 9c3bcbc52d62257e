-- ===== src/Firmware/Homing.antt =====
-- The command 'r' of arduino/hr/hr.ino.
use cooboc.Base.{
  ◌≡◌, refl, ◌⊎◌, inl, inr, Bool, true, false, Option, none, some, List, [], ◌∷◌, ◌++◌, arith,
}
use cooboc.Firmware.{stop, Sketch, Effect, Round, move_down, home, reset_position}

-- One of the readings that the `while` of case 'r' makes, every second one, finds the switch pressed.
unfoldable pub finds_bottom : List Bool → Bool
finds_bottom [] = false
finds_bottom (false ∷ rest) = true
finds_bottom (true ∷ []) = false
finds_bottom (true ∷ inner ∷ rest) = finds_bottom rest

-- What is known after homing: the motor is told to stop only by `moveHrDown` at the switch.
abbrev Homed : Sketch → Option Round → Type 0
Homed s o = (r : Round) × (o ≡ some r) × ((r.sketch.status ≡ s.status) ⊎ (r.sketch.status ≡ stop))

status-move_down :
    (s : Sketch) (b : Bool)
    → ((move_down s b).0.status ≡ s.status) ⊎ ((move_down s b).0.status ≡ stop)
unfolding move_down
status-move_down s true = inl refl
status-move_down s false = inr refl

home_ends :
    (s : Sketch) (done : List Effect) (readings : List Bool)
    → finds_bottom readings ≡ true
    → Homed s (home s done readings)
unfolding home finds_bottom
home_ends s done [] h = cc
home_ends s done (false ∷ rest) h = (_, refl, inl refl)
home_ends s done (true ∷ []) h = cc
home_ends s done (true ∷ inner ∷ rest) h =
    let (r, e, status) = home_ends (move_down s inner).0 (done ++ (move_down s inner).1) rest h in
    (r, e, ground (arith, status-move_down s inner))

-- Once a reading of the loop finds the bottom switch pressed, the command 'r' ends, with the
-- position at 0 and the motor's command unchanged or `stop`.
pub reset_position_ends :
    (s : Sketch) (done : List Effect) (readings : List Bool)
    → finds_bottom readings ≡ true
    → (r : Round) × (reset_position s done readings ≡ some r)
      × (r.sketch.position ≡ 0)
      × ((r.sketch.status ≡ s.status) ⊎ (r.sketch.status ≡ stop))
unfolding reset_position
reset_position_ends s done readings h =
    let (r, e, status) = home_ends s done readings h in
    (
      record {
        sketch = record (r.sketch) { position = 0 };
        effects = r.effects;
        readings = r.readings;
      },
      rw (e, reset_position),
      refl,
      status,
    )

-- If none does, it does not end.
home_waits :
    (s : Sketch) (done : List Effect) (readings : List Bool)
    → finds_bottom readings ≡ false
    → home s done readings ≡ none
unfolding home finds_bottom
home_waits s done [] h = refl
home_waits s done (false ∷ rest) h = cc
home_waits s done (true ∷ []) h = refl
home_waits s done (true ∷ inner ∷ rest) h =
    home_waits (move_down s inner).0 (done ++ (move_down s inner).1) rest h
