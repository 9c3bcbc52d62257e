-- ===== src/Firmware.antt =====
-- The sketch of the sensor board (arduino/hr/hr.ino): commands of the serial line move a stepper
-- motor between two limit switches, and each round of `loop` sends one packet.
--
-- An `int` has 16 bits on the board: `position` is the bit pattern of `hrPosition`. A switch reads
-- `false` when it is pressed. What the board reads is given: the bytes of the serial line, one
-- reading of the top switch, the readings of the bottom switch in order, and the two distances.
-- What the board does is a list of effects.
pub mod Motion
pub mod Coils
pub mod Homing
pub mod Report
pub mod Commanded
pub mod Older
mod Tests
use cooboc.Base.{
  ℕ, zero, suc, ◌+◌, ◌-◌, ◌*◌, ◌/◌, ◌%◌, ◌^◌, Bool, true, false, Option, none, some, List, [], ◌∷◌,
  ◌++◌, bit_xor, ◌==◌, if◌then◌else◌, get_or,
}

pub data Moving : Type 0 where
  stop up down : Moving

-- `hrMovingStatus` and `hrPosition`.
pub record Sketch : Type 0 where
  pub status : Moving
  pub position : ℕ

-- `digitalWrite` (HIGH is `true`), `delay`, `pinMode` (OUTPUT is `true`) and `Serial.begin`.
pub data Effect : Type 0 where
  digital_write : ℕ → Bool → Effect
  delay : ℕ → Effect
  pin_mode : ℕ → Bool → Effect
  serial_begin : ℕ → Effect

abbrev pub pin_ina1 : ℕ
pin_ina1 = 3

abbrev pub pin_ina2 : ℕ
pin_ina2 = 4

abbrev pub pin_inb1 : ℕ
pin_inb1 = 5

abbrev pub pin_inb2 : ℕ
pin_inb2 = 6

abbrev pin_limit_top : ℕ
pin_limit_top = 8

abbrev pin_limit_bottom : ℕ
pin_limit_bottom = 9

abbrev stepper_motor_pin : List ℕ
stepper_motor_pin = pin_ina1 ∷ pin_inb1 ∷ pin_ina2 ∷ pin_inb2 ∷ []

abbrev motor_pin : ℕ → ℕ
motor_pin i = get_or stepper_motor_pin i 0

unfoldable pub setup : Sketch × List Effect
setup = (
  record { status = stop; position = 0 },
  pin_mode pin_ina1 true
      ∷ pin_mode pin_ina2 true
      ∷ pin_mode pin_inb1 true
      ∷ pin_mode pin_inb2 true
      ∷ digital_write pin_ina1 false
      ∷ digital_write pin_ina2 false
      ∷ digital_write pin_inb1 false
      ∷ digital_write pin_inb2 false
      ∷ pin_mode pin_limit_top false
      ∷ pin_mode pin_limit_bottom false
      ∷ digital_write pin_limit_top true
      ∷ digital_write pin_limit_bottom true
      ∷ serial_begin 9600
      ∷ [],
)

-- The body of the two `for` loops: coil `i` with its neighbour `j`, MOTOR_TICK_TIME being 1.
coil_step : ℕ → ℕ → List Effect
coil_step i j =
    digital_write (motor_pin i) true
    ∷ digital_write (motor_pin j) true
    ∷ delay 1
    ∷ digital_write (motor_pin j) false
    ∷ delay 4
    ∷ digital_write (motor_pin i) false
    ∷ []

-- `for (i=0; i<4; ++i)`, with `left` rounds to go.
pub coils_up : ℕ → ℕ → List Effect
unfolding coil_step
coils_up zero i = []
coils_up (suc left) i = coil_step i ((i + 3) % 4) ++ coils_up left (i + 1)

-- `for (i=3; i>=0; --i)`: the argument is `i + 1`.
pub coils_down : ℕ → List Effect
unfolding coil_step
coils_down zero = []
coils_down (suc i) = coil_step i ((i + 1) % 4) ++ coils_down i

-- `moveHrUp`; `top` is what the top switch reads.
pub move_up : Sketch → Bool → Sketch × List Effect
unfolding coils_up
move_up s top =
    if top
    then (record s { position = (s.position + 1) % 2 ^ 16 }, coils_up 4 0)
    else (record s { status = stop }, [])

-- `moveHrDown`; `bottom` is what the bottom switch reads.
pub move_down : Sketch → Bool → Sketch × List Effect
unfolding coils_down
move_down s bottom =
    if bottom
    then (record s { position = (s.position + 2 ^ 16 - 1) % 2 ^ 16 }, coils_down 4)
    else (record s { position = 0; status = stop }, [])

-- What a part of a round leaves: the sketch, its effects, and the readings not yet used.
pub record Round : Type 0 where
  pub sketch : Sketch
  pub effects : List Effect
  pub readings : List Bool

-- `while (digitalRead(PIN_LIMIT_BOTTOM)) moveHrDown();`, which reads the switch again in
-- `moveHrDown`. `none`: the readings ended and the loop did not.
pub home : Sketch → List Effect → List Bool → Option Round
unfolding move_down
home s done [] = none
home s done (false ∷ rest) = some (record { sketch = s; effects = done; readings = rest })
home s done (true ∷ []) = none
home s done (true ∷ inner ∷ rest) =
    let (s', more) = move_down s inner in home s' (done ++ more) rest

-- case 'r': home, set the position to 0, and drop what is left on the serial line.
pub reset_position : Sketch → List Effect → List Bool → Option Round
unfolding home
reset_position s done readings = elim (home s done readings) [
  | none ↦ none
  | some r ↦ some (record {
    sketch = record (r.sketch) { position = 0 };
    effects = r.effects;
    readings = r.readings;
  })
]

-- `while (Serial.available())`.
unfoldable pub read_commands : Sketch → List ℕ → List Bool → Option Round
unfolding reset_position
read_commands s [] readings = some (record { sketch = s; effects = []; readings = readings })
read_commands s (c ∷ cs) readings =
    let on_up = read_commands (record s { status = up }) cs readings in
    let on_down = read_commands (record s { status = down }) cs readings in
    let on_stop = read_commands (record s { status = stop }) cs readings in
    let on_other = read_commands s cs readings in
    if c == b'w'
    then on_up
    else if c == b's'
    then on_down
    else if c == b' '
    then on_stop
    else if c == b'r'
    then reset_position s [] readings
    else on_other

-- The `switch` on `hrMovingStatus`.
pub drive : Moving → Sketch → Bool → List Bool → Option Round
unfolding move_up move_down
drive up s top readings =
    let (s', more) = move_up s top in
    some (record { sketch = s'; effects = more; readings = readings })
drive down s top [] = none
drive down s top (b ∷ readings) =
    let (s', more) = move_down s b in
    some (record { sketch = s'; effects = more; readings = readings })
drive stop s top readings =
    some (record { sketch = s; effects = delay 12 ∷ []; readings = readings })

-- The bytes that `loop` writes for a position and two distances: low bytes first, then `^` of all.
pub report : ℕ → ℕ → ℕ → List ℕ
report position d1 d2 =
    let p0 = position % 256 in
    let p1 = position / 256 % 256 in
    let a0 = d1 % 256 in
    let a1 = d1 / 256 % 256 in
    let b0 = d2 % 256 in
    let b1 = d2 / 256 % 256 in
    let crc = bit_xor (bit_xor (bit_xor (bit_xor (bit_xor p0 p1) a0) a1) b0) b1 in
    b'S' ∷ b'A' ∷ 6 ∷ p0 ∷ p1 ∷ a0 ∷ a1 ∷ b0 ∷ b1 ∷ crc ∷ 13 ∷ 10 ∷ []

-- One round of `loop`: what is left, and the bytes written.
pub loop : Sketch → List ℕ → Bool → List Bool → ℕ → ℕ → Option (Round × List ℕ)
unfolding read_commands drive report
loop s serial top bottom d1 d2 = elim (read_commands s serial bottom) [
  | none ↦ none
  | some r ↦ elim (drive r.sketch.status r.sketch top r.readings) [
    | none ↦ none
    | some q ↦ some (record q { effects = r.effects ++ q.effects }, report q.sketch.position d1 d2)
  ]
]
