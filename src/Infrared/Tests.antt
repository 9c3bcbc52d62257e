-- ===== src/Infrared/Tests.antt =====
-- A run of arduino/ir/ir.ino.
use cooboc.Base.{◌≡◌, refl, true, false, some, [], ◌∷◌, arith}
use cooboc.Infrared.{Round, on, off, blank, loop, wait_while, wait_dark}
use cooboc.Infrared.Pulses.{Ends, GoesOn, lines, last_start, transmission_printed}

-- The clock comes round in the first pause.
abbrev first : Round
first = record {
  low_readings = false ∷ true ∷ [];
  light_end = 4_294_967_200;
  dark_start = 4_294_967_204;
  high_readings = (true, 4_294_967_290) ∷ (false, 500) ∷ [];
  dark_end = 500;
  light_start = 504;
}

abbrev final : Round
final = record {
  low_readings = true ∷ [];
  light_end = 1104;
  dark_start = 1108;
  high_readings = (true, 2_001_108) ∷ (true, 2_001_112) ∷ [];
  dark_end = 2_001_116;
  light_start = 2_001_120;
}

transmission_printed_example :
    loop (true ∷ false ∷ []) 4_294_966_600 (first ∷ final ∷ [])
    ≡ some (on 600 ∷ off 592 ∷ on 600 ∷ blank ∷ blank ∷ blank ∷ [])
unfolding lines last_start GoesOn Ends wait_while wait_dark
transmission_printed_example =
    transmission_printed (true ∷ false ∷ []) 4_294_966_600 (first ∷ []) final [] refl
      (((refl, refl), omega arith), tt) (refl, refl) (omega arith)
