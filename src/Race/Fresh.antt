-- ===== src/Race/Fresh.antt =====
-- What the main loop of chicken/chicken.cpp sends of the packets that the reading thread writes.
use cooboc.Base.{
  ℕ, ◌≡◌, refl, sym, ap, ap₂, ◌∙◌, subst, ◌⊎◌, inl, inr, Bool, true, false, some, List, [], ◌∷◌,
  if◌then◌else◌, arith,
}
use cooboc.Race.{
  Packet, Writer, idle, wrote_dist0, wrote_dist1, wrote_position, Reader, testing, seen, located,
  cleared, took_dist0, Shared, new_shared, Turn, write_turn, read_turn, write_step, read_step,
  take_turn, take_turns,
}

-- The members hold what was written so far of the last packet begun.
Holds : Shared → Writer → List Packet → Type 0
Holds s idle [] = Unit
Holds s idle (p ∷ ps) = (s.dist0 ≡ p.dist0) × (s.dist1 ≡ p.dist1)
Holds s (wrote_dist0 q) [] = ⊥
Holds s (wrote_dist0 q) (p ∷ ps) = (q ≡ p) × (s.dist0 ≡ p.dist0)
Holds s (wrote_dist1 q) [] = ⊥
Holds s (wrote_dist1 q) (p ∷ ps) = (q ≡ p) × (s.dist0 ≡ p.dist0) × (s.dist1 ≡ p.dist1)
Holds s (wrote_position q) [] = ⊥
Holds s (wrote_position q) (p ∷ ps) = (q ≡ p) × (s.dist0 ≡ p.dist0) × (s.dist1 ≡ p.dist1)

-- The loop will read, or has read and sent, what the members hold.
UpToDate : Shared → Reader → Type 0
UpToDate s testing = (s.begun ≡ []) ⊎ (s.sent ≡ some (s.dist0, s.dist1))
UpToDate s seen = ⊥
UpToDate s (located position) = ⊥
UpToDate s cleared = Unit
UpToDate s (took_dist0 d0) = d0 ≡ s.dist0

IsBusy : Writer → Type 0
IsBusy idle = ⊥
IsBusy (wrote_dist0 q) = Unit
IsBusy (wrote_dist1 q) = Unit
IsBusy (wrote_position q) = Unit

-- There is new data, or a packet is being written, or the loop is up to date.
IsKept : Shared → Writer → Reader → Type 0
IsKept s w r = Holds s w s.begun × ((s.has_new_data ≡ true) ⊎ IsBusy w ⊎ UpToDate s r)

write_step-IsKept :
    (s : Shared) (w : Writer) (p : Packet)
    → IsKept s w s.reader
    → IsKept (write_step s w p) (write_step s w p).writer (write_step s w p).reader
unfolding IsKept Holds IsBusy write_step
write_step-IsKept s idle p (h, k) = ((refl, refl), inr (inl tt))
write_step-IsKept s (wrote_dist0 q) p (h, k) = (wrote s.begun h, inr (inl tt))
  where
    wrote :
        (ps : List Packet)
        → Holds s (wrote_dist0 q) ps
        → Holds (record s { dist1 = q.dist1; writer = wrote_dist1 q }) (wrote_dist1 q) ps
    wrote [] h = h
    wrote (x ∷ ps) (e, e0) = (e, e0, ap (λ (y : Packet). y.dist1) e)
write_step-IsKept s (wrote_dist1 q) p (h, k) = (wrote s.begun h, inr (inl tt))
  where
    wrote :
        (ps : List Packet)
        → Holds s (wrote_dist1 q) ps
        → Holds
            (record s { hr_position = q.hr_position; writer = wrote_position q })
            (wrote_position q)
            ps
    wrote [] h = h
    wrote (x ∷ ps) h = h
write_step-IsKept s (wrote_position q) p (h, k) = (wrote s.begun h, inl refl)
  where
    wrote :
        (ps : List Packet)
        → Holds s (wrote_position q) ps
        → Holds (record s { has_new_data = true; writer = idle }) idle ps
    wrote [] h = tt
    wrote (x ∷ ps) (e, h0, h1) = (h0, h1)

-- The steps of the loop change no member but the mark.
Holds-read :
    (s t : Shared) (w : Writer) (ps : List Packet)
    → s.dist0 ≡ t.dist0
    → s.dist1 ≡ t.dist1
    → Holds s w ps
    → Holds t w ps
unfolding Holds
Holds-read s t idle [] e0 e1 h = h
Holds-read s t idle (p ∷ ps) e0 e1 (h0, h1) = (sym e0 ∙ h0, sym e1 ∙ h1)
Holds-read s t (wrote_dist0 q) [] e0 e1 h = h
Holds-read s t (wrote_dist0 q) (p ∷ ps) e0 e1 (e, h0) = (e, sym e0 ∙ h0)
Holds-read s t (wrote_dist1 q) [] e0 e1 h = h
Holds-read s t (wrote_dist1 q) (p ∷ ps) e0 e1 (e, h0, h1) = (e, sym e0 ∙ h0, sym e1 ∙ h1)
Holds-read s t (wrote_position q) [] e0 e1 h = h
Holds-read s t (wrote_position q) (p ∷ ps) e0 e1 (e, h0, h1) = (e, sym e0 ∙ h0, sym e1 ∙ h1)

-- The test of `hasNewData`.
test-IsKept :
    (s : Shared) (new : Bool)
    → s.has_new_data ≡ new
    → s.reader ≡ testing
    → IsKept s s.writer testing
    → let t = if new then record s { reader = seen } else s in IsKept t t.writer t.reader
unfolding IsKept
test-IsKept s true e at (h, k) =
    (Holds-read s (record s { reader = seen }) s.writer s.begun refl refl h, inl e)
test-IsKept s false e at k = subst (λ r. IsKept s s.writer r) (sym at) k

read_step-IsKept :
    (s : Shared) (r : Reader)
    → s.reader ≡ r
    → IsKept s s.writer r
    → IsKept (read_step s r) (read_step s r).writer (read_step s r).reader
unfolding IsKept UpToDate read_step
read_step-IsKept s testing at k = test-IsKept s s.has_new_data refl at k
read_step-IsKept s seen at (h, k) = (
  Holds-read s (record s { reader = located s.hr_position }) s.writer s.begun refl refl h,
  elim k [ inl new ↦ inl new | inr (inl busy) ↦ inr (inl busy) | inr (inr never) ↦ absurd never ],
)
read_step-IsKept s (located position) at (h, k) = (
  Holds-read s (record s { has_new_data = false; reader = cleared }) s.writer s.begun refl refl h,
  inr (inr tt),
)
read_step-IsKept s cleared at (h, k) = (
  Holds-read s (record s { reader = took_dist0 s.dist0 }) s.writer s.begun refl refl h,
  inr (inr refl),
)
read_step-IsKept s (took_dist0 d0) at (h, k) = (
  Holds-read s (record s { sent = some (d0, s.dist1); reader = testing }) s.writer s.begun refl refl
      h,
  elim k [
    | inl new ↦ inl new
    | inr (inl busy) ↦ inr (inl busy)
    | inr (inr same) ↦ inr (inr (inr (ap (λ d. some (d, s.dist1)) same)))
  ],
)

take_turns-IsKept :
    (s : Shared) (ts : List Turn)
    → IsKept s s.writer s.reader
    → IsKept (take_turns s ts) (take_turns s ts).writer (take_turns s ts).reader
unfolding take_turns take_turn
take_turns-IsKept s [] k = k
take_turns-IsKept s (write_turn p ∷ ts) k =
    take_turns-IsKept (take_turn s (write_turn p)) ts (write_step-IsKept s s.writer p k)
take_turns-IsKept s (read_turn ∷ ts) k =
    take_turns-IsKept (take_turn s read_turn) ts (read_step-IsKept s s.reader refl k)

idle_sent :
    (s : Shared) (p : Packet) (ps : List Packet)
    → Holds s idle (p ∷ ps)
    → (s.has_new_data ≡ true) ⊎ IsBusy idle ⊎ UpToDate s testing
    → s.has_new_data ≡ false
    → s.begun ≡ p ∷ ps
    → s.sent ≡ some (p.dist0, p.dist1)
unfolding Holds IsBusy UpToDate
idle_sent s p ps (e0, e1) (inl new) old b = absurd (ground (arith, new, old))
idle_sent s p ps (e0, e1) (inr (inl busy)) old b = absurd busy
idle_sent s p ps (e0, e1) (inr (inr (inl never))) old b = absurd cc
idle_sent s p ps (e0, e1) (inr (inr (inr sent))) old b =
    sent ∙ ap₂ (λ (d0 d1 : ℕ). some (d0, d1)) e0 e1

-- In whatever order the two threads take their steps: where no packet is being written, the mark
-- of new data is not set and the loop is at its test, the distances that were sent last are
-- those of the last packet. So the last packet is not left unsent, also where it arrives between
-- any two steps of the loop.
pub last_packet_sent :
    (ts : List Turn) (p : Packet) (ps : List Packet)
    → (take_turns new_shared ts).writer ≡ idle
    → (take_turns new_shared ts).reader ≡ testing
    → (take_turns new_shared ts).has_new_data ≡ false
    → (take_turns new_shared ts).begun ≡ p ∷ ps
    → (take_turns new_shared ts).sent ≡ some (p.dist0, p.dist1)
unfolding IsKept
last_packet_sent ts p ps w r old b =
    let s = take_turns new_shared ts in
    let (h, k) = take_turns-IsKept new_shared ts new_shared-IsKept in
    idle_sent s p ps (subst (λ v. Holds s v (p ∷ ps)) w (subst (Holds s s.writer) b h))
      (subst (λ v. (s.has_new_data ≡ true) ⊎ IsBusy v ⊎ UpToDate s testing) w
        (subst (λ q. (s.has_new_data ≡ true) ⊎ IsBusy s.writer ⊎ UpToDate s q) r k))
      old b
  where
    new_shared-IsKept : IsKept new_shared new_shared.writer new_shared.reader
    new_shared-IsKept = unfold IsKept Holds UpToDate new_shared in (tt, inr (inr (inl refl)))
