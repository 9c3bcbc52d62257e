-- ===== src/Beeper/Tests.antt =====
-- Runs of chicken/device/beeper.cpp.
use cooboc.Base.{◌≡◌, refl, false}
use cooboc.Beeper.{new_beeper, test}
use cooboc.Beeper.Noise.{Heard, heard, silent_after, test_beeps}

abbrev unused_pin : Heard
unused_pin = record { is_output = false; is_high = false; beeps = 0 }

three_beeps : heard 7 unused_pin (test 3 (new_beeper 7)).calls ≡ silent_after 3
three_beeps = test_beeps 7 3 unused_pin refl
