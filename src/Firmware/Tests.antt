-- ===== src/Firmware/Tests.antt =====
-- Runs of the sketch arduino/hr/hr.ino on concrete readings.
use cooboc.Base.{◌≡◌, ◌⊎◌, refl, true, false, Option, none, some, List, [], ◌∷◌}
use cooboc.Firmware.{
  Sketch, Effect, Round, up, down, stop, setup, loop, read_commands, drive, report, move_up,
  move_down, coils_up, coils_down, coil_step, reset_position, home,
}
use cooboc.Firmware.Coils.{Levels, apply_all, timeline, Walks}
use cooboc.Firmware.Coils.Runs.{Inputs, loops, coils_switched}
use cooboc.Firmware.Homing.{finds_bottom, reset_position_ends}

abbrev high : Sketch
high = record { status = up; position = 65535 }

-- Up for two rounds, then down, then home.
abbrev ride : List Inputs
ride =
    record { serial = b'w' ∷ []; top = true; bottom = []; dist0 = 1; dist1 = 2 }
    ∷ record { serial = []; top = true; bottom = []; dist0 = 1; dist1 = 2 }
    ∷ record { serial = b's' ∷ []; top = true; bottom = true ∷ []; dist0 = 1; dist1 = 2 }
    ∷ record {
      serial = b'r' ∷ [];
      top = true;
      bottom = true ∷ true ∷ false ∷ true ∷ [];
      dist0 = 1;
      dist1 = 2;
    }
    ∷ []

-- The switch is found pressed by the third reading of the loop.
reset_position_ends_example :
    (r : Round) × (reset_position high [] (true ∷ true ∷ true ∷ false ∷ false ∷ []) ≡ some r)
    × (r.sketch.position ≡ 0)
    × ((r.sketch.status ≡ up) ⊎ (r.sketch.status ≡ stop))
unfolding finds_bottom
reset_position_ends_example =
    reset_position_ends high [] (true ∷ true ∷ true ∷ false ∷ false ∷ []) refl

abbrev all_high : Levels
all_high pin = true

effects_of : Option (Sketch × List Effect) → List Effect
effects_of none = []
effects_of (some q) = q.1

-- Homing takes one step down to the bottom, and the status from before it another one.
coils_switched_example :
    (timeline all_high setup.1 ≡ [])
    × Walks (apply_all all_high setup.1) 0 (effects_of (loops setup.0 ride)) 65535
unfolding effects_of loops loop setup read_commands drive report move_up move_down coils_up
    coils_down coil_step reset_position home
coils_switched_example =
    coils_switched all_high ride (record { status = down; position = 65535 })
      (effects_of (loops setup.0 ride)) refl
