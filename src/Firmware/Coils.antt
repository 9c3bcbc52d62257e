-- ===== src/Firmware/Coils.antt =====
-- The coils of the motor under `setup`, `loop`, `moveHrUp` and `moveHrDown` of arduino/hr/hr.ino.
pub mod Rounds
pub mod Runs
use cooboc.Base.{
  ℕ, ◌+◌, ◌-◌, ◌%◌, ◌^◌, ◌≡◌, refl, sym, ap, ap₂, ◌∙◌, subst, Bool, true, false, Bool-cases, inl,
  inr, ◌||◌, List, [], ◌∷◌, ◌++◌, append_assoc, append-nil, ◌==◌, ==_iff, if◌then◌else◌, arith,
}
use cooboc.Firmware.{
  Sketch, Effect, digital_write, delay, pin_mode, serial_begin, pin_ina1, pin_ina2, pin_inb1,
  pin_inb2,
}

abbrev pub Levels : Type 0
Levels = ℕ → Bool

-- The levels of the pins after an effect.
apply : Levels → Effect → Levels
apply levels (digital_write pin level) = λ p. if p == pin then level else levels p
apply levels (delay n) = levels
apply levels (pin_mode pin out) = levels
apply levels (serial_begin baud) = levels

pub apply_all : Levels → List Effect → Levels
unfolding apply
apply_all levels [] = levels
apply_all levels (e ∷ es) = apply_all (apply levels e) es

-- The four coils, round the motor, and for how many milliseconds they are so.
pub record Phase : Type 0 where
  pub a1 : Bool
  pub b1 : Bool
  pub a2 : Bool
  pub b2 : Bool
  pub time : ℕ

abbrev phase : Levels → ℕ → Phase
phase l n = record { a1 = l pin_ina1; b1 = l pin_inb1; a2 = l pin_ina2; b2 = l pin_inb2; time = n }

-- What the motor goes through: the coils in each delay.
pub timeline : Levels → List Effect → List Phase
unfolding apply
timeline levels [] = []
timeline levels (delay n ∷ es) = phase levels n ∷ timeline levels es
timeline levels (digital_write pin level ∷ es) =
    timeline (apply levels (digital_write pin level)) es
timeline levels (pin_mode pin out ∷ es) = timeline levels es
timeline levels (serial_begin baud ∷ es) = timeline levels es

-- A part of the board's way: a step up, a step down, a rest, or the bottom, where the position is
-- set to 0.
pub data Leg : Type 0 where
  rise fall rest zeroed : Leg

abbrev on : Bool
on = true

abbrev off : Bool
off = false

abbrev coils : Bool → Bool → Bool → Bool → ℕ → Phase
coils p q r s n = record { a1 = p; b1 = q; a2 = r; b2 = s; time = n }

-- A step up turns the field once round, by half steps, and a step down turns it back: two
-- neighbours for 1 ms, and one of them for 4 ms.
pub phases : Leg → List Phase
phases rise =
    coils on off off on 1
    ∷ coils on off off off 4
    ∷ coils on on off off 1
    ∷ coils off on off off 4
    ∷ coils off on on off 1
    ∷ coils off off on off 4
    ∷ coils off off on on 1
    ∷ coils off off off on 4
    ∷ []
phases fall =
    coils on off off on 1
    ∷ coils off off off on 4
    ∷ coils off off on on 1
    ∷ coils off off on off 4
    ∷ coils off on on off 1
    ∷ coils off on off off 4
    ∷ coils on on off off 1
    ∷ coils on off off off 4
    ∷ []
phases rest = coils off off off off 12 ∷ []
phases zeroed = []

pub walk : List Leg → List Phase
unfolding phases
walk [] = []
walk (g ∷ gs) = phases g ++ walk gs

-- The 16-bit position after these.
pub travel : ℕ → List Leg → ℕ
travel p [] = p
travel p (rise ∷ gs) = travel ((p + 1) % 2 ^ 16) gs
travel p (fall ∷ gs) = travel ((p + 2 ^ 16 - 1) % 2 ^ 16) gs
travel p (rest ∷ gs) = travel p gs
travel p (zeroed ∷ gs) = travel 0 gs

abbrev is_coil : ℕ → Bool
is_coil p = ((p == pin_ina1 || p == pin_ina2) || p == pin_inb1) || p == pin_inb2

-- The same levels with all coils off.
pub coils_off : Levels → Levels
coils_off l p = if is_coil p then false else l p

pub AreOff : Levels → Type 0
AreOff l = (l pin_ina1 ≡ false) × (l pin_ina2 ≡ false) × (l pin_inb1 ≡ false) × (l pin_inb2 ≡ false)

-- From these levels and this position the effects lead the motor through these legs, to the position
-- that they add up to, and leave the coils off and every other pin as it was.
pub Follows : Levels → ℕ → List Effect → ℕ → List Leg → Type 0
unfolding walk travel coils_off
Follows l p es q legs =
    (timeline l es ≡ walk legs)
    × (q ≡ travel p legs)
    × ((pin : ℕ) → apply_all l es pin ≡ coils_off l pin)

pub Walks : Levels → ℕ → List Effect → ℕ → Type 0
unfolding Follows
Walks l p es q = (legs : List Leg) × Follows l p es q legs

timeline-append :
    (l : Levels) (es fs : List Effect)
    → timeline l (es ++ fs) ≡ timeline l es ++ timeline (apply_all l es) fs
unfolding timeline apply_all
timeline-append l [] fs = refl
timeline-append l (delay n ∷ es) fs = ap (λ r. phase l n ∷ r) (timeline-append l es fs)
timeline-append l (digital_write pin level ∷ es) fs =
    timeline-append (apply l (digital_write pin level)) es fs
timeline-append l (pin_mode pin out ∷ es) fs = timeline-append l es fs
timeline-append l (serial_begin baud ∷ es) fs = timeline-append l es fs

apply_all-append :
    (l : Levels) (es fs : List Effect) → apply_all l (es ++ fs) ≡ apply_all (apply_all l es) fs
unfolding apply_all
apply_all-append l [] fs = refl
apply_all-append l (e ∷ es) fs = apply_all-append (apply l e) es fs

walk-append : (gs hs : List Leg) → walk (gs ++ hs) ≡ walk gs ++ walk hs
unfolding walk
walk-append [] hs = refl
walk-append (g ∷ gs) hs =
    ap (λ r. phases g ++ r) (walk-append gs hs) ∙ sym (append_assoc (phases g) (walk gs) (walk hs))

travel-append : (p : ℕ) (gs hs : List Leg) → travel p (gs ++ hs) ≡ travel (travel p gs) hs
unfolding travel
travel-append p [] hs = refl
travel-append p (rise ∷ gs) hs = travel-append ((p + 1) % 2 ^ 16) gs hs
travel-append p (fall ∷ gs) hs = travel-append ((p + 2 ^ 16 - 1) % 2 ^ 16) gs hs
travel-append p (rest ∷ gs) hs = travel-append p gs hs
travel-append p (zeroed ∷ gs) hs = travel-append 0 gs hs

coils_off-coils_off :
    (l k : Levels) (pin : ℕ) → k pin ≡ coils_off l pin → coils_off k pin ≡ coils_off l pin
unfolding coils_off
coils_off-coils_off l k pin e = elim (Bool-cases (is_coil pin)) [
  | inl c ↦ simp c refl
  | inr c ↦ ap (λ b. if b then false else k pin) c ∙ e
]

pub Walks-trans :
    (l : Levels) (p q r : ℕ) (es fs : List Effect)
    → Walks l p es q
    → Walks (apply_all l es) q fs r
    → Walks l p (es ++ fs) r
unfolding Walks
Walks-trans l p q r es fs (gs, (t, e, low)) (hs, (t', e', low')) = (
  gs ++ hs,
  (
    timeline-append l es fs ∙ ap₂ (λ x y. x ++ y) t t' ∙ sym (walk-append gs hs),
    e' ∙ ap (λ x. travel x hs) e ∙ sym (travel-append p gs hs),
    λ pin.
        ap (λ (k : Levels). k pin) (apply_all-append l es fs)
        ∙ low' pin
        ∙ coils_off-coils_off l (apply_all l es) pin (low pin),
  ),
)

pub Walks-AreOff :
    (l : Levels) (p q : ℕ) (es : List Effect) → Walks l p es q → AreOff (apply_all l es)
unfolding Walks AreOff coils_off
Walks-AreOff l p q es (gs, (t, e, low)) = (low 3, low 4, low 5, low 6)
