-- ===== src/Firmware/Older.antt =====
-- The test sketch test/arduino/stepper_motor/stepper_motor.ino, an older form of arduino/hr/hr.ino.
use cooboc.Base.{
  ℕ, ◌≡◌, ◌≢◌, refl, ap, Bool, Option, none, some, List, [], ◌∷◌, ◌++◌, All, ◌==◌, if◌then◌else◌,
  arith,
}
use cooboc.Firmware.{Sketch, stop, up, down, Round, read_commands, drive, report, loop}

-- `while (Serial.available())`, without a command to go back to the start.
read_commands_older : Sketch → List ℕ → Sketch
read_commands_older s [] = s
read_commands_older s (c ∷ cs) =
    let on_up = read_commands_older (record s { status = up }) cs in
    let on_down = read_commands_older (record s { status = down }) cs in
    let on_stop = read_commands_older (record s { status = stop }) cs in
    let on_other = read_commands_older s cs in
    if c == b'w'
    then on_up
    else if c == b's'
    then on_down
    else if c == b' '
    then on_stop
    else on_other

-- One round of its `loop`.
loop_older : Sketch → List ℕ → Bool → List Bool → ℕ → ℕ → Option (Round × List ℕ)
unfolding read_commands_older drive report
loop_older s serial top bottom d1 d2 =
    let s' = read_commands_older s serial in
    elim (drive s'.status s' top bottom) [
      | none ↦ none
      | some q ↦ some (q, report q.sketch.position d1 d2)
    ]

read_commands_same :
    (s : Sketch) (serial : List ℕ) (readings : List Bool)
    → All (λ c. c ≢ b'r') serial
    → read_commands s serial readings
      ≡ some (record { sketch = read_commands_older s serial; effects = []; readings = readings })
unfolding read_commands read_commands_older
read_commands_same s [] readings h = refl
read_commands_same s (c ∷ cs) readings (h, hs) = ground (
  arith,
  h,
  read_commands_same (record s { status = up }) cs readings hs,
  read_commands_same (record s { status = down }) cs readings hs,
  read_commands_same (record s { status = stop }) cs readings hs,
  read_commands_same s cs readings hs,
)

-- Where no 'r' is on the serial line, the board's sketch and the older one do the same in a round of
-- `loop`: the same effects, state and bytes, from the same readings.
loop_same :
    (s : Sketch) (serial : List ℕ) (top : Bool) (bottom : List Bool) (d1 d2 : ℕ)
    → All (λ c. c ≢ b'r') serial
    → loop s serial top bottom d1 d2 ≡ loop_older s serial top bottom d1 d2
unfolding loop loop_older
loop_same s serial top bottom d1 d2 h =
    ap
      (λ (o : Option Round). elim o [
        | none ↦ none
        | some r ↦ elim (drive r.sketch.status r.sketch top r.readings) [
          | none ↦ none
          | some q ↦
              some (record q { effects = r.effects ++ q.effects }, report q.sketch.position d1 d2)
        ]
      ])
      (read_commands_same s serial bottom h)
