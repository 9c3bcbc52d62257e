-- ===== src/Infrared.antt =====
-- The sketch that prints the pulses of an infrared remote control (arduino/ir/ir.ino). The receiver
-- holds its pin low while it sees light.
--
-- The readings of the pin and of `micros()` are given, loop by loop; `none` is a loop that goes on after
-- all its readings.
pub mod Pulses
mod Tests
use cooboc.Base.{
  ℕ, Bool, true, false, not, Option, none, some, List, [], ◌∷◌, ◌++◌, ltb, if◌then◌else◌,
}
use cooboc.Modem.{elapsed}
use cooboc.Firmware.{Effect, pin_mode, serial_begin}

-- The ends of the outer and of the inner loop.
abbrev pub quiet : ℕ
quiet = 2_000_000

pub data Line : Type 0 where
  on off : ℕ → Line
  blank : Line

-- `setup`: 13 is an output, and 12 the receiver's pin.
setup : List Effect
setup = serial_begin 9600 ∷ pin_mode 13 true ∷ pin_mode 12 false ∷ []

-- `t`, `d`, and what was printed.
pub record Receiver : Type 0 where
  pub t : ℕ
  pub d : ℕ
  pub printed : List Line

-- The readings of one round: of the pin while it is low, of the clock behind that loop, twice, of the
-- pin while it is high with the clock in the loop's test, and of the clock behind that loop, twice.
pub record Round : Type 0 where
  pub low_readings : List Bool
  pub light_end : ℕ
  pub dark_start : ℕ
  pub high_readings : List (Bool × ℕ)
  pub dark_end : ℕ
  pub light_start : ℕ

-- Does a loop end that goes on while the pin reads `level`?
pub wait_while : Bool → List Bool → Bool
wait_while level [] = false
wait_while true (pin ∷ pins) = let rest = wait_while true pins in if pin then rest else true
wait_while false (pin ∷ pins) = let rest = wait_while false pins in if pin then true else rest

-- The loop over a pause, which also breaks off when it has become too long.
pub wait_dark : ℕ → List (Bool × ℕ) → Bool
wait_dark t [] = false
wait_dark t ((pin, now) ∷ readings) =
    let rest = wait_dark t readings in
    if pin then (if ltb quiet (elapsed t now) then true else rest) else true

-- A round of the loop over `d < 2000000UL`.
pub round : Receiver → Round → Option Receiver
unfolding wait_while wait_dark
round r x =
    let light = elapsed r.t x.light_end in
    let dark = elapsed x.dark_start x.dark_end in
    if wait_while false x.low_readings
    then (if wait_dark x.dark_start x.high_readings
        then some (record {
          t = x.light_start;
          d = dark;
          printed =
              (r.printed ++ (on light ∷ [])) ++ (if ltb dark quiet then off dark ∷ [] else []);
        })
        else none)
    else none

pub rounds : Receiver → List Round → Option Receiver
unfolding round
rounds r [] = if ltb r.d quiet then none else some r
rounds r (x ∷ xs) = elim (ltb r.d quiet) [
  | false ↦ some r
  | true ↦ elim (round r x) [ none ↦ none | some r' ↦ rounds r' xs ]
]

-- `loop`, over the readings of the pin before the first light, the clock behind them, and the rounds: what
-- it prints.
pub loop : List Bool → ℕ → List Round → Option (List Line)
unfolding wait_while rounds
loop before start xs =
    if wait_while true before
    then (elim (rounds (record { t = start; d = 0; printed = [] }) xs) [
      | none ↦ none
      | some r ↦ some (r.printed ++ (blank ∷ blank ∷ blank ∷ []))
    ])
    else none
