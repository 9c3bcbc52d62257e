-- ===== src/Iic/Served.antt =====
-- Whose bytes the devices on the bus of chicken/device/driver/io/iic_handler.cpp see.
use cooboc.Base.{
  ℕ, ◌≡◌, refl, sym, ap, ◌∙◌, subst, Bool-cases, inl, inr, Bool, true, false, List, [], ◌∷◌, ◌++◌,
  All, ◌==◌, ==_iff,
}
use cooboc.Iic.{Bus, Effect, Answer}
use cooboc.Iic.Transactions.{
  served, selected, Request, device_of, perform, perform_all, seen_by, all_seen_by, wanted_all,
  AllAccepted, start_bus, IsAt, Adds, Adds-trans, IsAt-end, chosen, perform-device, perform-Adds,
  nothing-Adds,
}

-- `mCurrentDeviceAddr` is the device that the kernel has selected.
IsTracked : Bus → Type 0
unfolding IsAt
IsTracked b = IsAt b.current_device_addr b

-- An accepted selection, or none, leads to the device of the request.
chosen_right :
    (b : Bus) (device : ℕ) (accepted : Bool)
    → ((device == b.current_device_addr) ≡ false → accepted ≡ true)
    → chosen b.current_device_addr b device accepted ≡ device
unfolding chosen
chosen_right b device accepted h = elim (Bool-cases (device == b.current_device_addr)) [
  | inl same ↦ simp same (sym ((==_iff _ _).0 same))
  | inr other ↦ simp (other, h other) refl
]

perform-IsTracked :
    (b : Bus) (r : Request) (a : Answer)
    → ((device_of r == b.current_device_addr) ≡ false → a.accepted ≡ true)
    → IsTracked b
    → IsTracked (perform b r a) × Adds (device_of r) b (perform b r a) (seen_by (device_of r) r a)
unfolding IsTracked
perform-IsTracked b r a h t =
    let adds =
      subst (λ j. Adds j b (perform b r a) (seen_by j r a))
        (chosen_right b (device_of r) a.accepted h) (perform-Adds b.current_device_addr b r a t) in
    (
      subst (λ d. IsAt d (perform b r a)) (sym (perform-device b r a))
          (IsAt-end (device_of r) b (perform b r a) _ adds),
      adds,
    )

perform_all-Adds :
    (b : Bus) (rs : List (Request × Answer))
    → AllAccepted b rs
    → IsTracked b
    → Adds (perform_all b rs).current_device_addr b (perform_all b rs) (wanted_all rs)
unfolding perform_all wanted_all AllAccepted IsTracked
perform_all-Adds b [] h t = nothing-Adds b.current_device_addr b t
perform_all-Adds b ((r, a) ∷ rs) (h, hs) t =
    let (t', first) = perform-IsTracked b r a h t in
    Adds-trans (device_of r) _ b (perform b r a) _ (seen_by (device_of r) r a) (wanted_all rs) first
      (perform_all-Adds (perform b r a) rs hs t')

start-IsTracked : IsTracked start_bus
start-IsTracked = unfold IsTracked IsAt start_bus selected in refl

-- What a new handler's calls show the devices.
from_start :
    (b : Bus) (k : ℕ) (calls : List (ℕ × Effect))
    → Adds k start_bus b calls
    → served 0 b.effects ≡ calls
unfolding Adds start_bus served
from_start b k calls h = h.1

-- If every selection of a device that these calls make on a new handler succeeds, then whatever else
-- the bus answers, each device sees exactly the bytes of its own calls, in their order: of a write the
-- register and the value, of a read the register and then, only if that was sent, the fetching of
-- the bytes.
pub perform_all-served :
    (rs : List (Request × Answer))
    → AllAccepted start_bus rs
    → served 0 (perform_all start_bus rs).effects ≡ wanted_all rs
perform_all-served rs h =
    from_start (perform_all start_bus rs) _ (wanted_all rs)
      (perform_all-Adds start_bus rs h start-IsTracked)

pub perform_all-append :
    (b : Bus) (rs qs : List (Request × Answer))
    → perform_all b (rs ++ qs) ≡ perform_all (perform_all b rs) qs
unfolding perform_all
perform_all-append b [] qs = refl
perform_all-append b ((r, a) ∷ rs) qs = perform_all-append (perform b r a) rs qs

chosen_same :
    (k : ℕ) (b : Bus) (device : ℕ) (accepted : Bool)
    → device ≡ b.current_device_addr
    → chosen k b device accepted ≡ k
unfolding chosen
chosen_same k b device accepted e = simp ((==_iff device b.current_device_addr).1 e) refl

chosen_failed :
    (k : ℕ) (b : Bus) (device : ℕ) (accepted : Bool)
    → (device == b.current_device_addr) ≡ false
    → accepted ≡ false
    → chosen k b device accepted ≡ k
unfolding chosen
chosen_failed k b device accepted other failed = simp (other, failed) refl

-- Calls for the device that the handler takes to be selected make no selection.
stays_misdirected :
    (k : ℕ) (b : Bus) (qs : List (Request × Answer))
    → IsAt k b
    → All (λ q. device_of q.0 ≡ b.current_device_addr) qs
    → Adds k b (perform_all b qs) (all_seen_by k qs)
unfolding perform_all all_seen_by
stays_misdirected k b [] t h = nothing-Adds k b t
stays_misdirected k b ((r, a) ∷ qs) t (h, hs) =
    let first =
      subst (λ j. Adds j b (perform b r a) (seen_by j r a))
        (chosen_same k b (device_of r) a.accepted h) (perform-Adds k b r a t) in
    Adds-trans k k b (perform b r a) _ (seen_by k r a) (all_seen_by k qs) first (
      stays_misdirected k (perform b r a) qs (IsAt-end k b (perform b r a) _ first)
        (subst (λ d. All (λ q. device_of q.0 ≡ d) qs) (sym (perform-device b r a ∙ h)) hs))

-- If the selections of some calls on a new handler succeed, and then the one of a call for another
-- device fails, then this call and all calls for that device after it, until one for another device,
-- are seen by the device that was selected before.
pub failed_selection_misdirects :
    (rs : List (Request × Answer)) (r : Request) (a : Answer) (qs : List (Request × Answer))
    → AllAccepted start_bus rs
    → (device_of r == (perform_all start_bus rs).current_device_addr) ≡ false
    → a.accepted ≡ false
    → All (λ q. device_of q.0 ≡ device_of r) qs
    → served 0 (perform_all start_bus (rs ++ ((r, a) ∷ qs))).effects
      ≡ wanted_all rs ++ all_seen_by (perform_all start_bus rs).current_device_addr ((r, a) ∷ qs)
unfolding all_seen_by perform_all
failed_selection_misdirects rs r a qs h other failed same =
    let b = perform_all start_bus rs in
    let k = b.current_device_addr in
    let first = perform_all-Adds start_bus rs h start-IsTracked in
    let here =
      subst (λ j. Adds j b (perform b r a) (seen_by j r a))
        (chosen_failed k b (device_of r) a.accepted other failed)
        (perform-Adds k b r a (IsAt-end k start_bus b _ first)) in
    let rest =
      stays_misdirected k (perform b r a) qs (IsAt-end k b (perform b r a) _ here)
        (subst (λ d. All (λ q. device_of q.0 ≡ d) qs) (sym (perform-device b r a)) same) in
    ap (λ (c : Bus). served 0 c.effects) (perform_all-append start_bus rs ((r, a) ∷ qs))
    ∙ from_start (perform_all (perform b r a) qs) k _ (
        Adds-trans k k start_bus b _ (wanted_all rs) _ first
          (Adds-trans k k b (perform b r a) _ (seen_by k r a) (all_seen_by k qs) here rest))
