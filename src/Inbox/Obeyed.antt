-- ===== src/Inbox/Obeyed.antt =====
-- Which commands the loop of chicken/chicken.cpp sends of the messages that the daemon writes.
use cooboc.Base.{
  ℕ, ◌+◌, ◌<◌, ◌≡◌, refl, sym, ap, ◌∙◌, subst, ◌⊎◌, inl, inr, Bool, true, false, List, [], ◌∷◌,
  ◌++◌, append-nil, append_assoc, if◌then◌else◌, length, set, take, length-set, take-set_rest, All,
  arith,
}
use cooboc.Base.Texts.{same_text}
use cooboc.Websocket.{until_zero}
use cooboc.Inbox.Copied.{length-padded, closed}
use cooboc.Inbox.{
  Command, command_text, all_commands, padded, Writer, idle, copying, ended, Reader, testing, seen,
  fetched, comparing, Shared, new_shared, write_step, read_step, Turn, write_turn, read_turn,
  take_turn, take_turns,
}

-- The commands that a text asks for.
unfoldable pub asked : List Command → List ℕ → List Command
asked [] text = []
asked (c ∷ cs) text = (if same_text text (command_text c) then c ∷ [] else []) ++ asked cs text

-- What is in the array: the last message, whole if no byte of it is still to be written.
Held : List ℕ → Writer → List (List ℕ) → Type 0
Held buffer idle [] = Unit
Held buffer idle (m ∷ ms) = until_zero buffer ≡ until_zero m
Held buffer (copying m rest i) [] = ⊥
Held buffer (copying m rest i) (m' ∷ ms) =
    (m ≡ m') × (take i buffer ++ rest ≡ padded m) × (i + length rest < 1024)
Held buffer (ended m) [] = ⊥
Held buffer (ended m) (m' ∷ ms) = until_zero buffer ≡ until_zero m'

-- The loop will compare, or has compared, what is in the array now.
UpToDate : List ℕ → List (List ℕ) → List Command → Reader → Type 0
UpToDate buffer begun obeyed testing =
    (begun ≡ []) ⊎ (obeyed ≡ asked all_commands (until_zero buffer))
UpToDate buffer begun obeyed seen = ⊥
UpToDate buffer begun obeyed fetched = Unit
UpToDate buffer begun obeyed (comparing cs) =
    obeyed ++ asked cs (until_zero buffer) ≡ asked all_commands (until_zero buffer)

IsBusy : Writer → Type 0
IsBusy idle = ⊥
IsBusy (copying m rest i) = Unit
IsBusy (ended m) = Unit

-- There is a new message, or one is being written, or the loop is up to date.
abbrev Pending : Shared → List (List ℕ) → Writer → Reader → Type 0
Pending s ms w r = (s.has_new_message ≡ true) ⊎ IsBusy w ⊎ UpToDate s.buffer ms s.obeyed r

IsKept : Shared → Writer → Reader → Type 0
IsKept s w r = (length s.buffer ≡ 1024) × Held s.buffer w s.begun × Pending s s.begun w r

write_step-IsKept :
    (s : Shared) (w : Writer) (m : List ℕ)
    → length m < 1024
    → IsKept s w s.reader
    → IsKept (write_step s w m) (write_step s w m).writer (write_step s w m).reader
unfolding IsKept Held IsBusy write_step
write_step-IsKept s idle m fits (full, h, k) =
    (full, (refl, refl, rw (length-padded m) (omega arith)), inr (inl tt))
write_step-IsKept s (copying m (b ∷ rest) i) m' fits (full, h, k) =
    (length-set s.buffer i b ∙ full, one_more s.begun h, inr (inl tt))
  where
    one_more :
        (ms : List (List ℕ))
        → Held s.buffer (copying m (b ∷ rest) i) ms
        → Held (set s.buffer i b) (copying m rest (i + 1)) ms
    one_more [] h = h
    one_more (x ∷ xs) (e, at, within) =
        (e, take-set_rest s.buffer rest i b (omega arith) ∙ at, omega arith)
write_step-IsKept s (copying m [] i) m' fits (full, h, k) =
    (length-set s.buffer i 0 ∙ full, whole s.begun h, inr (inl tt))
  where
    whole :
        (ms : List (List ℕ))
        → Held s.buffer (copying m [] i) ms
        → Held (set s.buffer i 0) (ended m) ms
    whole [] h = h
    whole (x ∷ xs) (e, at, within) = closed s.buffer m i full at within ∙ ap until_zero e
write_step-IsKept s (ended m) m' fits (full, h, k) = (full, same s.begun h, inl refl)
  where
    same : (ms : List (List ℕ)) → Held s.buffer (ended m) ms → Held s.buffer idle ms
    same [] h = tt
    same (x ∷ xs) h = h

-- The test of `hasNewMessage`.
test-IsKept :
    (s : Shared) (new : Bool)
    → s.has_new_message ≡ new
    → s.reader ≡ testing
    → IsKept s s.writer testing
    → let t = if new then record s { reader = seen } else s in IsKept t t.writer t.reader
unfolding IsKept
test-IsKept s true e at (full, h, k) = (full, h, inl e)
test-IsKept s false e at k = subst (λ r. IsKept s s.writer r) (sym at) k

-- What a comparison adds to the commands, it takes from those that are still to be asked for.
compared :
    (obeyed : List Command) (c : Command) (cs : List Command) (text : List ℕ) (same : Bool)
    → same_text text (command_text c) ≡ same
    → (if same then obeyed ++ (c ∷ []) else obeyed) ++ asked cs text ≡ obeyed ++ asked (c ∷ cs) text
unfolding asked
compared obeyed c cs text true e = rw e (append_assoc obeyed (c ∷ []) (asked cs text))
compared obeyed c cs text false e = rw e

read_step-IsKept :
    (s : Shared) (r : Reader)
    → s.reader ≡ r
    → IsKept s s.writer r
    → IsKept (read_step s r) (read_step s r).writer (read_step s r).reader
unfolding IsKept UpToDate read_step
read_step-IsKept s testing at k = test-IsKept s s.has_new_message refl at k
read_step-IsKept s seen at (full, h, k) = (full, h, inr (inr tt))
read_step-IsKept s fetched at (full, h, k) = (full, h, inr (inr refl))
read_step-IsKept s (comparing (c ∷ cs)) at (full, h, k) = (
  full,
  h,
  elim k [
    | inl new ↦ inl new
    | inr (inl busy) ↦ inr (inl busy)
    | inr (inr so_far) ↦ inr (inr (compared s.obeyed c cs (until_zero s.buffer) _ refl ∙ so_far))
  ],
)
read_step-IsKept s (comparing []) at (full, h, k) = (
  full,
  h,
  elim k [
    | inl new ↦ inl new
    | inr (inl busy) ↦ inr (inl busy)
    | inr (inr done) ↦ inr (inr (inr (sym (append-nil s.obeyed) ∙ unfold asked in done)))
  ],
)

-- The messages are shorter than the array.
unfoldable pub Fits : Turn → Type 0
Fits (write_turn m) = length m < 1024
Fits read_turn = Unit

take_turns-IsKept :
    (s : Shared) (ts : List Turn)
    → All Fits ts
    → IsKept s s.writer s.reader
    → IsKept (take_turns s ts) (take_turns s ts).writer (take_turns s ts).reader
unfolding take_turns take_turn Fits
take_turns-IsKept s [] fits k = k
take_turns-IsKept s (write_turn m ∷ ts) (fit, fits) k =
    take_turns-IsKept (take_turn s (write_turn m)) ts fits (write_step-IsKept s s.writer m fit k)
take_turns-IsKept s (read_turn ∷ ts) (fit, fits) k =
    take_turns-IsKept (take_turn s read_turn) ts fits (read_step-IsKept s s.reader refl k)

at_rest :
    (s : Shared) (m : List ℕ) (ms : List (List ℕ))
    → Held s.buffer idle (m ∷ ms)
    → Pending s (m ∷ ms) idle testing
    → s.has_new_message ≡ false
    → s.obeyed ≡ asked all_commands (until_zero m)
unfolding Held IsBusy UpToDate
at_rest s m ms e (inl new) old = absurd (ground (arith, new, old))
at_rest s m ms e (inr (inl busy)) old = absurd busy
at_rest s m ms e (inr (inr (inl never))) old = absurd cc
at_rest s m ms e (inr (inr (inr done))) old = done ∙ ap (asked all_commands) e

-- In whatever order the two threads take their steps, with messages shorter than the array and
-- whatever the array holds at first: where no message is being written, the mark is not set and
-- the loop is at its test, the commands that were sent in the loop's last pass are those that
-- the last message asks for. So the last message is not left unobeyed, also where it arrives
-- between any two steps of the loop.
pub last_message_obeyed :
    (buffer : List ℕ) (ts : List Turn) (m : List ℕ) (ms : List (List ℕ))
    → length buffer ≡ 1024
    → All Fits ts
    → (take_turns (new_shared buffer) ts).writer ≡ idle
    → (take_turns (new_shared buffer) ts).reader ≡ testing
    → (take_turns (new_shared buffer) ts).has_new_message ≡ false
    → (take_turns (new_shared buffer) ts).begun ≡ m ∷ ms
    → (take_turns (new_shared buffer) ts).obeyed ≡ asked all_commands (until_zero m)
unfolding IsKept
last_message_obeyed buffer ts m ms full fits w r old b =
    let s = take_turns (new_shared buffer) ts in
    let (full', h, k) = take_turns-IsKept (new_shared buffer) ts fits new_shared-IsKept in
    at_rest s m ms (subst (λ v. Held s.buffer v (m ∷ ms)) w (subst (Held s.buffer s.writer) b h))
      (subst (λ v. Pending s (m ∷ ms) v testing) w
        (subst (λ ps. Pending s ps s.writer testing) b (subst (Pending s s.begun s.writer) r k)))
      old
  where
    new_shared-IsKept :
        IsKept (new_shared buffer) (new_shared buffer).writer (new_shared buffer).reader
    new_shared-IsKept = unfold IsKept Held UpToDate new_shared in (full, tt, inr (inr (inl refl)))
