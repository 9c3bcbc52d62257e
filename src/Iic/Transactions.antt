-- ===== src/Iic/Transactions.antt =====
-- What the devices on the bus of chicken/device/driver/io/iic_handler.cpp see.
use cooboc.Base.{
  ℕ, ◌≡◌, refl, sym, ap, ◌∙◌, Bool-cases, inl, inr, Bool, true, false, List, [], ◌∷◌, ◌++◌,
  append-nil, append_assoc, ◌==◌, ==_iff, if◌then◌else◌,
}
use cooboc.Iic.{
  Bus, Effect, Answer, select, write, read, at_least, write_byte, read_with, send_reg_addr,
  select_device,
}

-- The calls with the device that the kernel has selected when they are made. Before the first
-- selection that is 0, which stands for none; a selection that fails leaves the device as it was.
unfoldable pub served : ℕ → List Effect → List (ℕ × Effect)
served device [] = []
served device (select d accepted ∷ es) = served (if accepted then d else device) es
served device (write bytes ∷ es) = (device, write bytes) ∷ served device es
served device (read n ∷ es) = (device, read n) ∷ served device es

unfoldable pub selected : ℕ → List Effect → ℕ
selected device [] = device
selected device (select d accepted ∷ es) = selected (if accepted then d else device) es
selected device (write bytes ∷ es) = selected device es
selected device (read n ∷ es) = selected device es

served-append :
    (device : ℕ) (es fs : List Effect)
    → served device (es ++ fs) ≡ served device es ++ served (selected device es) fs
unfolding served selected
served-append device [] fs = refl
served-append device (select d accepted ∷ es) fs =
    served-append (if accepted then d else device) es fs
served-append device (write bytes ∷ es) fs =
    ap (λ r. (device, write bytes) ∷ r) (served-append device es fs)
served-append device (read n ∷ es) fs = ap (λ r. (device, read n) ∷ r) (served-append device es fs)

selected-append :
    (device : ℕ) (es fs : List Effect)
    → selected device (es ++ fs) ≡ selected (selected device es) fs
unfolding selected
selected-append device [] fs = refl
selected-append device (select d accepted ∷ es) fs =
    selected-append (if accepted then d else device) es fs
selected-append device (write bytes ∷ es) fs = selected-append device es fs
selected-append device (read n ∷ es) fs = selected-append device es fs

-- A call of `writeByte`, or of one of the reads.
pub data Request : Type 0 where
  write_request : ℕ → ℕ → ℕ → Request
  read_request : ℕ → ℕ → ℕ → Request

unfoldable pub device_of : Request → ℕ
device_of (write_request device reg value) = device
device_of (read_request count device reg) = device

-- The bus after a call with this answer. What a read stores does not matter to the bus.
unfoldable pub perform : Bus → Request → Answer → Bus
perform b (write_request device reg value) a = (write_byte b device reg value a).0
perform b (read_request count device reg) a = (read_with count (λ bytes. bytes) b device reg a).0

unfoldable pub perform_all : Bus → List (Request × Answer) → Bus
unfolding perform
perform_all b [] = b
perform_all b ((r, a) ∷ rs) = perform_all (perform b r a) rs

-- The calls of a request, as this device sees them.
unfoldable pub seen_by : ℕ → Request → Answer → List (ℕ × Effect)
seen_by k (write_request device reg value) a = (k, write (reg ∷ value ∷ [])) ∷ []
seen_by k (read_request count device reg) a =
    (k, write (reg ∷ [])) ∷ (if at_least a.written 1 then (k, read count) ∷ [] else [])

unfoldable pub all_seen_by : ℕ → List (Request × Answer) → List (ℕ × Effect)
unfolding seen_by
all_seen_by k [] = []
all_seen_by k ((r, a) ∷ rs) = seen_by k r a ++ all_seen_by k rs

-- Each request is to be seen by its own device.
unfoldable pub wanted_all : List (Request × Answer) → List (ℕ × Effect)
unfolding seen_by device_of
wanted_all [] = []
wanted_all ((r, a) ∷ rs) = seen_by (device_of r) r a ++ wanted_all rs

-- Every selection that these calls make succeeds.
unfoldable pub AllAccepted : Bus → List (Request × Answer) → Type 0
unfolding device_of
AllAccepted b [] = Unit
AllAccepted b ((r, a) ∷ rs) =
    ((device_of r == b.current_device_addr) ≡ false → a.accepted ≡ true)
    × AllAccepted (perform b r a) rs

unfoldable pub start_bus : Bus
start_bus = record { current_device_addr = 0; effects = [] }

-- The kernel has selected this device.
unfoldable pub IsAt : ℕ → Bus → Type 0
IsAt k b = selected 0 b.effects ≡ k

-- An operation ends with this device selected, and adds these calls.
unfoldable pub Adds : ℕ → Bus → Bus → List (ℕ × Effect) → Type 0
unfolding IsAt
Adds k b b' calls = IsAt k b' × (served 0 b'.effects ≡ served 0 b.effects ++ calls)

after : Bus → Effect → Bus
after b e = record b { effects = b.effects ++ (e ∷ []) }

write-Adds :
    (k : ℕ) (b : Bus) (bytes : List ℕ)
    → IsAt k b
    → Adds k b (after b (write bytes)) ((k, write bytes) ∷ [])
unfolding Adds served selected after
write-Adds k b bytes t = (
  selected-append 0 b.effects (write bytes ∷ []) ∙ t,
  served-append 0 b.effects (write bytes ∷ [])
      ∙ ap (λ d. served 0 b.effects ++ ((d, write bytes) ∷ [])) t,
)

read-Adds : (k : ℕ) (b : Bus) (n : ℕ) → IsAt k b → Adds k b (after b (read n)) ((k, read n) ∷ [])
unfolding Adds served selected after
read-Adds k b n t = (
  selected-append 0 b.effects (read n ∷ []) ∙ t,
  served-append 0 b.effects (read n ∷ []) ∙ ap (λ d. served 0 b.effects ++ ((d, read n) ∷ [])) t,
)

pub Adds-trans :
    (j k : ℕ) (b b' b'' : Bus) (c d : List (ℕ × Effect))
    → Adds j b b' c
    → Adds k b' b'' d
    → Adds k b b'' (c ++ d)
unfolding Adds
Adds-trans j k b b' b'' c d (t, e) (t', e') =
    (t', e' ∙ ap (λ r. r ++ d) e ∙ append_assoc (served 0 b.effects) c d)

pub IsAt-end : (k : ℕ) (b b' : Bus) (c : List (ℕ × Effect)) → Adds k b b' c → IsAt k b'
unfolding Adds
IsAt-end k b b' c (t, e) = t

-- The device that the kernel has after the selection.
unfoldable pub chosen : ℕ → Bus → ℕ → Bool → ℕ
chosen k b device accepted =
    if device == b.current_device_addr then k else if accepted then device else k

select_device-Adds :
    (k : ℕ) (b : Bus) (device : ℕ) (accepted : Bool)
    → IsAt k b
    → Adds (chosen k b device accepted) b (select_device b device accepted) []
unfolding select_device Adds served selected chosen
select_device-Adds k b device accepted t = elim (Bool-cases (device == b.current_device_addr)) [
  | inl same ↦ simp same (t, sym (append-nil (served 0 b.effects)))
  | inr other ↦ simp other (
    selected-append 0 b.effects (select device accepted ∷ [])
        ∙ ap (λ d. if accepted then device else d) t,
    served-append 0 b.effects (select device accepted ∷ []),
  )
]

select_device-device :
    (b : Bus) (device : ℕ) (accepted : Bool)
    → (select_device b device accepted).current_device_addr ≡ device
unfolding select_device
select_device-device b device accepted = elim (Bool-cases (device == b.current_device_addr)) [
  | inl same ↦ simp same (sym ((==_iff _ _).0 same))
  | inr other ↦ simp other refl
]

pub perform-device :
    (b : Bus) (r : Request) (a : Answer) → (perform b r a).current_device_addr ≡ device_of r
unfolding perform device_of write_byte read_with send_reg_addr
perform-device b (write_request device reg value) a = select_device-device b device a.accepted
perform-device b (read_request count device reg) a = elim (Bool-cases (at_least a.written 1)) [
  | inl sent ↦ simp sent (select_device-device b device a.accepted)
  | inr failed ↦ simp failed (select_device-device b device a.accepted)
]

write_at :
    (k : ℕ) (b : Bus) (device : ℕ) (accepted : Bool) (bytes : List ℕ)
    → IsAt k b
    → let j = chosen k b device accepted in
      Adds j b (after (select_device b device accepted) (write bytes)) ((j, write bytes) ∷ [])
write_at k b device accepted bytes t =
    let j = chosen k b device accepted in
    let b' = select_device b device accepted in
    let quiet = select_device-Adds k b device accepted t in
    Adds-trans j j b b' _ [] _ quiet (write-Adds j b' bytes (IsAt-end j b b' [] quiet))

-- `sendRegAddr` and then the bytes.
read_at :
    (k : ℕ) (b : Bus) (device : ℕ) (accepted : Bool) (reg count : ℕ)
    → IsAt k b
    → let j = chosen k b device accepted in
      Adds j b
        (after (after (select_device b device accepted) (write (reg ∷ []))) (read count))
        ((j, write (reg ∷ [])) ∷ (j, read count) ∷ [])
read_at k b device accepted reg count t =
    let j = chosen k b device accepted in
    let asked = after (select_device b device accepted) (write (reg ∷ [])) in
    let wrote = write_at k b device accepted (reg ∷ []) t in
    Adds-trans j j b asked _ ((j, write (reg ∷ [])) ∷ []) _ wrote
      (read-Adds j asked count (IsAt-end j b asked _ wrote))

pub perform-Adds :
    (k : ℕ) (b : Bus) (r : Request) (a : Answer)
    → IsAt k b
    → let j = chosen k b (device_of r) a.accepted in Adds j b (perform b r a) (seen_by j r a)
unfolding perform device_of seen_by write_byte read_with send_reg_addr after
perform-Adds k b (write_request device reg value) a t =
    write_at k b device a.accepted (reg ∷ value ∷ []) t
perform-Adds k b (read_request count device reg) a t = elim (Bool-cases (at_least a.written 1)) [
  | inl sent ↦ simp sent (read_at k b device a.accepted reg count t)
  | inr failed ↦ simp failed (write_at k b device a.accepted (reg ∷ []) t)
]

pub nothing-Adds : (k : ℕ) (b : Bus) → IsAt k b → Adds k b b []
unfolding Adds
nothing-Adds k b t = (t, sym (append-nil (served 0 b.effects)))
