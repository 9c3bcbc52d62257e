-- ===== src/Firmware/Commanded.antt =====
-- A round of `loop` of arduino/hr/hr.ino in which one motion command comes.
use cooboc.Base.{
  ℕ, ◌+◌, ◌-◌, ◌%◌, ◌^◌, ◌<◌, ◌≡◌, refl, Bool, true, false, some, List, [], ◌∷◌, arith,
}
use cooboc.Firmware.{
  Moving, stop, up, down, Sketch, Round, move_up, move_down, read_commands, drive, report, loop,
}

-- The byte on the serial line for each motion.
abbrev pub command_byte : Moving → ℕ
command_byte up = b'w'
command_byte down = b's'
command_byte stop = b' '

-- Where the head rest stands after a round with this command, if the two switches read so, `false` being
-- pressed: 16-bit numbers.
unfoldable pub moved : Moving → Bool → Bool → ℕ → ℕ
moved up true bottom position = (position + 1) % 2 ^ 16
moved up false bottom position = position
moved down top true position = (position + 2 ^ 16 - 1) % 2 ^ 16
moved down top false position = 0
moved stop top bottom position = position

pub moved-lt :
    (c : Moving) (top bottom : Bool) (position : ℕ)
    → position < 2 ^ 16
    → moved c top bottom position < 2 ^ 16
unfolding moved
moved-lt up true bottom position h = omega arith
moved-lt up false bottom position h = h
moved-lt down top true position h = omega arith
moved-lt down top false position h = omega arith
moved-lt stop top bottom position h = h

-- The round ends, with the board at its new position, which it reports.
pub loop_commanded :
    (s : Sketch) (c : Moving) (top bottom : Bool) (more : List Bool) (d1 d2 : ℕ)
    → (r : Round) × (loop s (command_byte c ∷ []) top (bottom ∷ more) d1 d2
        ≡ some (r, report (moved c top bottom s.position) d1 d2))
      × (r.sketch.position ≡ moved c top bottom s.position)
unfolding loop drive read_commands move_up move_down moved
loop_commanded s up true bottom more d1 d2 = (_, refl, refl)
loop_commanded s up false bottom more d1 d2 = (_, refl, refl)
loop_commanded s down top true more d1 d2 = (_, refl, refl)
loop_commanded s down top false more d1 d2 = (_, refl, refl)
loop_commanded s stop top bottom more d1 d2 = (_, refl, refl)
