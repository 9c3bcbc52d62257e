-- ===== src/Firmware/Coils/Rounds.antt =====
-- The coils of the motor through the rounds of `loop` of arduino/hr/hr.ino.
use cooboc.Base.{
  ℕ, ◌+◌, ◌-◌, ◌%◌, ◌^◌, ◌≡◌, refl, sym, subst, Bool, true, false, Bool-cases, inl, inr, List, [],
  ◌∷◌, ◌++◌, Option, none, some, append-nil, ◌==◌, ==_iff, if◌then◌else◌,
}
use cooboc.Firmware.{
  Sketch, Moving, up, down, stop, Effect, delay, Round, coil_step, coils_up, coils_down, move_up,
  move_down, home, reset_position, read_commands, drive,
}
use cooboc.Firmware.Coils.{
  Levels, apply_all, timeline, rise, fall, rest, zeroed, phases, walk, travel, coils_off, AreOff,
  Follows, Walks, Walks-trans, Walks-AreOff,
}

-- A pin is one of the four coils' or none of them.
coil_cases :
    (P : ℕ → Type 0) (pin : ℕ)
    → P 3
    → P 4
    → P 5
    → P 6
    → ((pin == 3) ≡ false → (pin == 4) ≡ false → (pin == 5) ≡ false → (pin == 6) ≡ false → P pin)
    → P pin
coil_cases P pin p3 p4 p5 p6 k = elim (Bool-cases (pin == 3)) [
  | inl e ↦ subst P (sym ((==_iff pin 3).0 e)) p3
  | inr e3 ↦ elim (Bool-cases (pin == 4)) [
    | inl e ↦ subst P (sym ((==_iff pin 4).0 e)) p4
    | inr e4 ↦ elim (Bool-cases (pin == 5)) [
      | inl e ↦ subst P (sym ((==_iff pin 5).0 e)) p5
      | inr e5 ↦ elim (Bool-cases (pin == 6)) [
        | inl e ↦ subst P (sym ((==_iff pin 6).0 e)) p6
        | inr e6 ↦ k e3 e4 e5 e6
      ]
    ]
  ]
]

pub nothing-Walks : (l : Levels) (p : ℕ) → AreOff l → Walks l p [] p
unfolding Walks Follows timeline walk travel apply_all AreOff coils_off
nothing-Walks l p (h3, h4, h5, h6) = (
  [],
  (
    refl,
    refl,
    λ pin.
        coil_cases (λ q. l q ≡ coils_off l q) pin h3 h4 h5 h6
          (λ e3 e4 e5 e6. simp (e3, e4, e5, e6) refl),
  ),
)

zeroed-Walks : (l : Levels) (p : ℕ) → AreOff l → Walks l p [] 0
unfolding Walks Follows timeline walk phases travel
zeroed-Walks l p h = (zeroed ∷ [], (refl, refl, (nothing-Walks l p h).1.2))

rise-Walks : (l : Levels) (p : ℕ) → AreOff l → Walks l p (coils_up 4 0) ((p + 1) % 2 ^ 16)
unfolding Walks Follows timeline walk phases travel apply_all AreOff coils_up coil_step coils_off
rise-Walks l p (h3, h4, h5, h6) = (
  rise ∷ [],
  (
    simp (h4, h5) refl,
    refl,
    λ pin.
        coil_cases (λ q. apply_all l (coils_up 4 0) q ≡ coils_off l q) pin refl refl refl refl
          (λ e3 e4 e5 e6. simp (e3, e4, e5, e6) refl),
  ),
)

fall-Walks : (l : Levels) (p : ℕ) → AreOff l → Walks l p (coils_down 4) ((p + 2 ^ 16 - 1) % 2 ^ 16)
unfolding Walks Follows timeline walk phases travel apply_all AreOff coils_down coil_step coils_off
fall-Walks l p (h3, h4, h5, h6) = (
  fall ∷ [],
  (
    simp (h4, h5) refl,
    refl,
    λ pin.
        coil_cases (λ q. apply_all l (coils_down 4) q ≡ coils_off l q) pin refl refl refl refl
          (λ e3 e4 e5 e6. simp (e3, e4, e5, e6) refl),
  ),
)

rest-Walks : (l : Levels) (p : ℕ) → AreOff l → Walks l p (delay 12 ∷ []) p
unfolding Walks Follows timeline walk phases travel apply_all AreOff
rest-Walks l p (h3, h4, h5, h6) =
    (rest ∷ [], (simp (h3, h4, h5, h6) refl, refl, (nothing-Walks l p (h3, h4, h5, h6)).1.2))

move_up-Walks :
    (l : Levels) (s : Sketch) (top : Bool)
    → AreOff l
    → Walks l s.position (move_up s top).1 (move_up s top).0.position
unfolding move_up
move_up-Walks l s true h = rise-Walks l s.position h
move_up-Walks l s false h = nothing-Walks l s.position h

move_down-Walks :
    (l : Levels) (s : Sketch) (bottom : Bool)
    → AreOff l
    → Walks l s.position (move_down s bottom).1 (move_down s bottom).0.position
unfolding move_down
move_down-Walks l s true h = fall-Walks l s.position h
move_down-Walks l s false h = zeroed-Walks l s.position h

-- What a part of a round does from these levels and this position, where the readings suffice for it.
unfoldable pub RoundWalks : Levels → ℕ → Option Round → Type 0
RoundWalks l p none = Unit
RoundWalks l p (some r) = Walks l p r.effects r.sketch.position

home-RoundWalks :
    (l : Levels) (p : ℕ) (s : Sketch) (done : List Effect) (readings : List Bool)
    → Walks l p done s.position
    → RoundWalks l p (home s done readings)
unfolding home RoundWalks
home-RoundWalks l p s done [] w = tt
home-RoundWalks l p s done (false ∷ readings) w = w
home-RoundWalks l p s done (true ∷ []) w = tt
home-RoundWalks l p s done (true ∷ inner ∷ readings) w =
    let (s', more) = move_down s inner in
    home-RoundWalks l p s' (done ++ more) readings (
      Walks-trans l p s.position s'.position done more w
        (move_down-Walks (apply_all l done) s inner (Walks-AreOff l p s.position done w)))

zeroed_after : (l : Levels) (p q : ℕ) (es : List Effect) → Walks l p es q → Walks l p es 0
zeroed_after l p q es w =
    subst (λ fs. Walks l p fs 0) (append-nil es)
      (Walks-trans l p q 0 es [] w (zeroed-Walks (apply_all l es) q (Walks-AreOff l p q es w)))

reset_position-RoundWalks :
    (l : Levels) (s : Sketch) (readings : List Bool)
    → AreOff l
    → RoundWalks l s.position (reset_position s [] readings)
unfolding reset_position
reset_position-RoundWalks l s readings h =
    then_zeroed (home s [] readings)
      (home-RoundWalks l s.position s [] readings (nothing-Walks l s.position h))
  where
    then_zeroed :
        (o : Option Round)
        → RoundWalks l s.position o
        → RoundWalks l s.position (elim o [
          | none ↦ none
          | some r ↦ some (record {
            sketch = record (r.sketch) { position = 0 };
            effects = r.effects;
            readings = r.readings;
          })
        ])
    then_zeroed none w = unfold RoundWalks in tt
    then_zeroed (some r) w =
        unfold RoundWalks in zeroed_after l s.position r.sketch.position r.effects w

RoundWalks-if :
    (l : Levels) (p : ℕ) (b : Bool) (o o' : Option Round)
    → RoundWalks l p o
    → RoundWalks l p o'
    → RoundWalks l p (if b then o else o')
RoundWalks-if l p true o o' h k = h
RoundWalks-if l p false o o' h k = k

pub read_commands-RoundWalks :
    (l : Levels) (s : Sketch) (cs : List ℕ) (readings : List Bool)
    → AreOff l
    → RoundWalks l s.position (read_commands s cs readings)
unfolding read_commands
read_commands-RoundWalks l s [] readings h = unfold RoundWalks in nothing-Walks l s.position h
read_commands-RoundWalks l s (c ∷ cs) readings h =
    RoundWalks-if l s.position (c == b'w') _ _
      (read_commands-RoundWalks l (record s { status = up }) cs readings h)
      (RoundWalks-if l s.position (c == b's') _ _
        (read_commands-RoundWalks l (record s { status = down }) cs readings h)
        (RoundWalks-if l s.position (c == b' ') _ _
          (read_commands-RoundWalks l (record s { status = stop }) cs readings h)
          (RoundWalks-if l s.position (c == b'r') _ _ (reset_position-RoundWalks l s readings h)
            (read_commands-RoundWalks l s cs readings h))))

pub drive-RoundWalks :
    (l : Levels) (m : Moving) (s : Sketch) (top : Bool) (readings : List Bool)
    → AreOff l
    → RoundWalks l s.position (drive m s top readings)
unfolding drive RoundWalks
drive-RoundWalks l up s top readings h = move_up-Walks l s top h
drive-RoundWalks l down s top [] h = tt
drive-RoundWalks l down s top (b ∷ readings) h = move_down-Walks l s b h
drive-RoundWalks l stop s top readings h = rest-Walks l s.position h
