-- ===== src/Inbox/Copied.antt =====
-- What `onMessageReceived` of chicken/device/driver/io/websocket_handler.cpp leaves in its array.
use cooboc.Base.{
  ℕ, suc, ◌+◌, ◌<◌, ◌≡◌, refl, sym, ap, ◌∙◌, inl, inr, List, [], ◌∷◌, ◌++◌, append-nil,
  append_assoc, Bool-cases, ◌==◌, length, set, take, drop, length-replicate, take-set_next,
  take-append-drop, arith,
}
use cooboc.Websocket.{until_zero}
use cooboc.Inbox.{padded}

pub length-padded : (m : List ℕ) → length (padded m) ≡ length m
unfolding padded
length-padded [] = refl
length-padded (b ∷ bs) = elim (Bool-cases (b == 0)) [
  | inl z ↦ rw z (ap suc (length-replicate (length bs) 0))
  | inr k ↦ rw k (ap suc (length-padded bs))
]

-- A text followed by its end.
until_zero-padded : (m rest : List ℕ) → until_zero (padded m ++ (0 ∷ rest)) ≡ until_zero m
unfolding until_zero padded
until_zero-padded [] rest = refl
until_zero-padded (b ∷ bs) rest = elim (Bool-cases (b == 0)) [
  | inl z ↦ rw z
  | inr k ↦ rw (k, k) (ap (λ r. b ∷ r) (until_zero-padded bs rest))
]

-- The end is written behind the copy.
pub closed :
    (buffer m : List ℕ) (i : ℕ)
    → length buffer ≡ 1024
    → take i buffer ++ [] ≡ padded m
    → i + 0 < 1024
    → until_zero (set buffer i 0) ≡ until_zero m
closed buffer m i full e fits =
    let after = set buffer i 0 in
    ap until_zero (
      sym (take-append-drop (suc i) after)
      ∙ ap (λ r. r ++ drop (suc i) after)
          (take-set_next buffer i 0 (omega arith)
            ∙ ap (λ r. r ++ (0 ∷ [])) (sym (append-nil (take i buffer)) ∙ e))
      ∙ append_assoc (padded m) (0 ∷ []) (drop (suc i) after))
    ∙ until_zero-padded m (drop (suc i) after)
