-- ===== src/Io/Tests.antt =====
-- Requests to chicken/device/driver/io/io.cpp.
use cooboc.Base.{ℕ, ◌≡◌, ◌≢◌, ◌⊎◌, ◌↔◌, refl, [], ◌∷◌}
use cooboc.Base.Texts.{same_text}
use cooboc.Io.{Name, get_handler, after_requests}
use cooboc.Io.Cache.{port_handlers}

abbrev one : Name
one = b'1' ∷ []

abbrev two : Name
two = b'2' ∷ []

abbrev first_place : ℕ
first_place = 0

abbrev second_place : ℕ
second_place = 1

kept_handler :
    ((first_place ≡ second_place) ↔ (one ≡ two)) × ((one ≢ two) ⊎ ((one ∷ two ∷ []) ≡ (one ∷ [])))
unfolding get_handler after_requests same_text
kept_handler =
    port_handlers [] (one ∷ []) (one ∷ []) (one ∷ two ∷ []) (one ∷ []) one two first_place
      second_place refl refl refl
