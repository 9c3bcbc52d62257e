-- ===== src/Race/Tests.antt =====
-- Runs of the two threads of chicken/chicken.cpp and chicken/device/driver/hr_driver.cpp.
use cooboc.Base.{◌≡◌, refl, some, List, [], ◌∷◌}
use cooboc.Base.Int.{pos}
use cooboc.Race.{
  Packet, Turn, write_turn, read_turn, new_shared, take_turn, take_turns, write_step, read_step,
}
use cooboc.Race.Fresh.{last_packet_sent}

abbrev near : Packet
near = record { dist0 = 1; dist1 = 10; hr_position = pos 5 }

abbrev far : Packet
far = record { dist0 = 2; dist1 = 20; hr_position = pos 6 }

-- The second packet is written between the two distances that the loop reads.
abbrev torn : List Turn
torn =
    write_turn near
    ∷ write_turn near
    ∷ write_turn near
    ∷ write_turn near
    ∷ read_turn
    ∷ read_turn
    ∷ read_turn
    ∷ read_turn
    ∷ write_turn far
    ∷ write_turn far
    ∷ read_turn
    ∷ []

-- Distances are sent that belong to no packet.
mixed_sent : (take_turns new_shared torn).sent ≡ some (1, 20)
unfolding take_turns take_turn write_step read_step new_shared
mixed_sent = refl

-- Both packets are written before the loop comes round.
abbrev late : List Turn
late =
    write_turn near
    ∷ write_turn near
    ∷ write_turn near
    ∷ write_turn near
    ∷ read_turn
    ∷ read_turn
    ∷ write_turn far
    ∷ write_turn far
    ∷ write_turn far
    ∷ write_turn far
    ∷ read_turn
    ∷ read_turn
    ∷ read_turn
    ∷ []

last_packet_sent_example : (take_turns new_shared late).sent ≡ some (2, 20)
unfolding take_turns take_turn write_step read_step new_shared
last_packet_sent_example = last_packet_sent late far (near ∷ []) refl refl refl refl
