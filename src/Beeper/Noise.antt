-- ===== src/Beeper/Noise.antt =====
-- What is heard of chicken/device/beeper.cpp.
use cooboc.Base.{
  ℕ, zero, suc, ◌+◌, ◌≡◌, refl, ap, ◌∙◌, Bool, true, false, List, [], ◌∷◌, ◌++◌, append_assoc, ◌==◌,
  if◌then◌else◌, arith,
}
use cooboc.Beeper.{
  Direction, output, low, high, GpioCall, export_pin, set_direction, set_value, GpioHandler,
  new_beeper, make_noise, shut_up, test,
}

-- The pin as the calls leave it: whether it is an output, whether it is high, and how often it went
-- from low to high as an output.
pub record Heard : Type 0 where
  pub is_output : Bool
  pub is_high : Bool
  pub beeps : ℕ

hear_call : ℕ → Heard → GpioCall → Heard
hear_call pin s (export_pin p) = s
hear_call pin s (set_direction p output) = if p == pin then record s { is_output = true } else s
hear_call pin s (set_direction p Direction.input) =
    if p == pin then record s { is_output = false } else s
hear_call pin s (set_value p low) = if p == pin then record s { is_high = false } else s
hear_call pin s (set_value p high) =
    if p == pin
    then (if s.is_output
        then (if s.is_high then s else record s { is_high = true; beeps = s.beeps + 1 })
        else s)
    else s

pub heard : ℕ → Heard → List GpioCall → Heard
unfolding hear_call
heard pin s [] = s
heard pin s (c ∷ cs) = heard pin (hear_call pin s c) cs

heard-append :
    (pin : ℕ) (s : Heard) (cs ds : List GpioCall)
    → heard pin s (cs ++ ds) ≡ heard pin (heard pin s cs) ds
unfolding heard
heard-append pin s [] ds = refl
heard-append pin s (c ∷ cs) ds = heard-append pin (hear_call pin s c) cs ds

-- An output that is low, after so many beeps.
abbrev pub silent_after : ℕ → Heard
silent_after n = record { is_output = true; is_high = false; beeps = n }

round_from_silence :
    (pin n : ℕ)
    → heard pin (silent_after n) (set_value pin high ∷ set_value pin low ∷ [])
      ≡ silent_after (suc n)
unfolding heard hear_call
round_from_silence pin n = ground arith

round_heard :
    (h : GpioHandler) (s : Heard) (n : ℕ)
    → heard h.gpio_pin s h.calls ≡ silent_after n
    → heard h.gpio_pin s (shut_up (make_noise h)).calls ≡ silent_after (suc n)
unfolding make_noise shut_up
round_heard h s n e =
    let on = set_value h.gpio_pin high in
    let off = set_value h.gpio_pin low in
    ap (heard h.gpio_pin s) (append_assoc h.calls (on ∷ []) (off ∷ []))
    ∙ heard-append h.gpio_pin s h.calls (on ∷ off ∷ [])
    ∙ ap (λ s'. heard h.gpio_pin s' (on ∷ off ∷ [])) e
    ∙ round_from_silence h.gpio_pin n

rounds_heard :
    (rounds : ℕ) (h : GpioHandler) (s : Heard) (n : ℕ)
    → heard h.gpio_pin s h.calls ≡ silent_after n
    → heard h.gpio_pin s (test rounds h).calls ≡ silent_after (n + rounds)
unfolding test make_noise shut_up
rounds_heard zero h s n e = e ∙ ap silent_after (omega arith)
rounds_heard (suc rounds) h s n e =
    rounds_heard rounds (shut_up (make_noise h)) s (suc n) (round_heard h s n e)
    ∙ ap silent_after (omega arith)

set_up_heard :
    (pin : ℕ) (s : Heard)
    → s.is_high ≡ false
    → heard pin s (new_beeper pin).calls ≡ silent_after s.beeps
unfolding heard hear_call new_beeper
set_up_heard pin s h = ground arith

-- On a pin that is low, whether an output or not, so many rounds of the beeper's test, from its set-up
-- on, make so many beeps, and leave the pin an output and silent.
pub test_beeps :
    (pin rounds : ℕ) (s : Heard)
    → s.is_high ≡ false
    → heard pin s (test rounds (new_beeper pin)).calls ≡ silent_after (s.beeps + rounds)
test_beeps pin rounds s h = same (rounds_heard rounds (new_beeper pin) s s.beeps)
  where
    same :
        (heard (new_beeper pin).gpio_pin s (new_beeper pin).calls ≡ silent_after s.beeps
          → heard (new_beeper pin).gpio_pin s (test rounds (new_beeper pin)).calls
            ≡ silent_after (s.beeps + rounds))
        → heard pin s (test rounds (new_beeper pin)).calls ≡ silent_after (s.beeps + rounds)
    same f = unfold new_beeper in f (set_up_heard pin s h)
