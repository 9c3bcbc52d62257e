-- ===== src/Websocket/Search.antt =====
-- The two loops of `removeHandler` and `lookupHandler`
-- (chicken/device/driver/io/websocket_handler.cpp) as operations on association lists.
use cooboc.Base.{
  ℕ, zero, suc, ◌+◌, ◌-◌, ◌≤◌, ◌<◌, ◌≡◌, refl, sym, ap, ap₂, ◌∙◌, inl, inr, Option, none, some,
  List, [], ◌∷◌, ◌++◌, arith, append-nil, append_assoc, length, length-set, get_or, set, take, drop,
  drop-get_or, drop-set_lt, take-set_next, drop-take, take-take, ◌==◌, if◌then◌else◌, Bool-cases,
}
use cooboc.Websocket.Handlers.{Entry, no_entry, find_from, shift_from}

-- The entry of a context is its first.
unfoldable pub lookup_entry : ℕ → List Entry → Option ℕ
lookup_entry c [] = none
lookup_entry c (e ∷ es) =
    let rest = lookup_entry c es in if e.ctx == c then some e.handler else rest

unfoldable pub erase_entry : ℕ → List Entry → List Entry
erase_entry c [] = []
erase_entry c (e ∷ es) = let rest = erase_entry c es in if e.ctx == c then es else e ∷ rest

pub index_of : ℕ → List Entry → ℕ
index_of c [] = 0
index_of c (e ∷ es) = let rest = suc (index_of c es) in if e.ctx == c then 0 else rest

pub find_from-index_of :
    (left i c : ℕ) (slots : List Entry)
    → i + left ≤ length slots
    → find_from left i c slots ≡ i + index_of c (take left (drop i slots))
unfolding find_from index_of
find_from-index_of zero i c slots h = omega arith
find_from-index_of (suc left) i c slots h =
    rw (drop-get_or slots i no_entry (omega arith))
      (ground (arith, find_from-index_of left (suc i) c slots (omega arith)))

pub index_of-le : (c : ℕ) (es : List Entry) → index_of c es ≤ length es
unfolding index_of
index_of-le c [] = omega arith
index_of-le c (e ∷ es) = ground (arith, index_of-le c es)

pub lookup_of_index :
    (c : ℕ) (es : List Entry)
    → lookup_entry c es ≡ (
        if index_of c es == length es
        then none
        else some (get_or es (index_of c es) no_entry).handler)
unfolding lookup_entry index_of
lookup_of_index c [] = refl
lookup_of_index c (e ∷ es) = ground (arith, lookup_of_index c es)

pub erase_of_index :
    (c : ℕ) (es : List Entry)
    → erase_entry c es ≡ take (index_of c es) es ++ drop (suc (index_of c es)) es
unfolding erase_entry index_of
erase_of_index c [] = refl
erase_of_index c (e ∷ es) = elim (Bool-cases (e.ctx == c)) [
  | inl k ↦ simp k
  | inr k ↦ simp k (ap (λ r. e ∷ r) (erase_of_index c es))
]

shifted :
    (left i : ℕ) (slots : List Entry)
    → i + left < length slots
    → take (i + left) (shift_from left i slots) ≡ take i slots ++ take left (drop (suc i) slots)
unfolding shift_from
shifted zero i slots h = ap (λ k. take k slots) (omega arith) ∙ sym (append-nil (take i slots))
shifted (suc left) i slots h = rw (drop-get_or slots (suc i) no_entry (omega arith)) (
    ap (λ k. take k (shift_from left (suc i) (set slots i moved))) move_suc
    ∙ shifted left (suc i) (set slots i moved) (omega (arith, length-set slots i moved))
    ∙ rw
        (
          take-set_next slots i moved (omega arith),
          drop-set_lt slots (suc (suc i)) i moved (omega arith),
        )
        (append_assoc (take i slots) (moved ∷ []) (take left (drop (suc (suc i)) slots))))
  where
    moved : Entry
    moved = get_or slots (suc i) no_entry

    move_suc : i + suc left ≡ suc i + left
    move_suc = omega arith

pub length-shift_from :
    (left i : ℕ) (slots : List Entry) → length (shift_from left i slots) ≡ length slots
unfolding shift_from
length-shift_from zero i slots = refl
length-shift_from (suc left) i slots =
    length-shift_from left (suc i) (set slots i (get_or slots (suc i) no_entry))
    ∙ length-set slots i (get_or slots (suc i) no_entry)

pub index_of-lt :
    (c : ℕ) (es : List Entry) {h : ℕ} → lookup_entry c es ≡ some h → index_of c es < length es
unfolding index_of lookup_entry
index_of-lt c [] e = cc
index_of-lt c (x ∷ es) {h} e = ground (arith, index_of-lt c es {h = h})

pub index_of_absent :
    (c : ℕ) (es : List Entry) → lookup_entry c es ≡ none → index_of c es ≡ length es
unfolding index_of lookup_entry
index_of_absent c [] e = refl
index_of_absent c (x ∷ es) e = ground (arith, index_of_absent c es)

pub shifted_out :
    (slots : List Entry) (n k : ℕ)
    → suc n ≤ length slots
    → k ≤ n
    → take n (shift_from (suc n - 1 - k) k slots)
      ≡ take k (take (suc n) slots) ++ drop (suc k) (take (suc n) slots)
shifted_out slots n k fits le =
    ap₂ (λ a b. take a (shift_from b k slots)) split_n rest_n
    ∙ shifted (n - k) k slots (omega arith)
    ∙ ap₂ ◌++◌ (sym (take-take slots k (suc n) (omega arith)))
        (sym (drop-take slots (suc k) (n - k)) ∙ ap (λ a. drop (suc k) (take a slots)) split_suc)
  where
    split_n : n ≡ k + (n - k)
    split_n = omega arith

    rest_n : suc n - 1 - k ≡ n - k
    rest_n = omega arith

    split_suc : suc k + (n - k) ≡ suc n
    split_suc = omega arith
