-- ===== src/Outbox/Tests.antt =====
-- Runs of `sendText` beside the daemon of chicken/device/driver/io/websocket_handler.cpp.
use cooboc.Base.{◌≡◌, refl, true, false, some, List, [], ◌∷◌, ◌++◌, replicate}
use cooboc.Outbox.{Turn, send_turn, service_turn, new_shared, take_turns}

-- The first text waits for its callback while the second is copied.
abbrev overtaken : List Turn
overtaken =
    replicate 5 (send_turn (b'a' ∷ b'b' ∷ []))
    ++ (service_turn false ∷ replicate 2 (send_turn (b'x' ∷ b'y' ∷ b'z' ∷ [])))

abbrev torn : List Turn
torn = overtaken ++ (service_turn true ∷ [])

-- A text is written that is none of the two.
mixed_written :
    (take_turns (new_shared (replicate 4096 0)) torn).written ≡ some (b'x' ∷ b'b' ∷ 0 ∷ [])
unfolding take_turns new_shared
mixed_written = refl

abbrev finished : List Turn
finished = torn ++ (replicate 4 (send_turn []) ++ (service_turn true ∷ []))
