-- ===== src/Firmware/Motion.antt =====
-- `moveHrUp` and `moveHrDown` of arduino/hr/hr.ino: one step of the motor.
use cooboc.Base.{◌^◌, ◌<◌, ◌≡◌, refl, true, false, [], arith}
use cooboc.Firmware.{Sketch, stop, move_up, move_down}

-- At a pressed switch no pin is written, and the motor is to stop; at the bottom the position is 0.
limits_respected :
    (s : Sketch)
    → (move_up s false ≡ (record s { status = stop }, []))
      × (move_down s false ≡ (record { status = stop; position = 0 }, []))
unfolding move_up move_down
limits_respected s = (refl, refl)

-- Away from the switches a step up and a step down undo one another, at every 16-bit position.
move_down-move_up :
    (s : Sketch)
    → s.position < 2 ^ 16
    → ((move_down (move_up s true).0 true).0 ≡ s) × ((move_up (move_down s true).0 true).0 ≡ s)
unfolding move_up move_down
move_down-move_up s h = ground arith
