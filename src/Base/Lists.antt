-- ===== src/Base/Lists.antt =====
-- Lists measured and indexed by native numbers, under the library's names.
use Prim.Native.Nat.{ℕ, zero, suc, ◌+◌, ◌≤◌, ◌<◌}
use mathlib.Core.Path.{◌≡◌, refl, sym, ap, ◌∙◌}
use mathlib.Core.List.{List, [], ◌∷◌, ◌++◌, append_assoc}
use native.Mathlib.Omega.{arith}

module _ {ℓ} {A : Type ℓ} where
  abbrev pub length : List A → ℕ
  length [] = 0
  length (x ∷ xs) = suc (length xs)

  abbrev pub get_or : List A → ℕ → A → A
  get_or [] i d = d
  get_or (x ∷ xs) zero d = x
  get_or (x ∷ xs) (suc i) d = get_or xs i d

  -- A write out of bounds changes nothing; where it matters, a theorem shows that none occurs.
  abbrev pub set : List A → ℕ → A → List A
  set [] i v = []
  set (x ∷ xs) zero v = v ∷ xs
  set (x ∷ xs) (suc i) v = x ∷ set xs i v

  abbrev pub take : ℕ → List A → List A
  take zero xs = []
  take (suc n) [] = []
  take (suc n) (x ∷ xs) = x ∷ take n xs

  abbrev pub drop : ℕ → List A → List A
  drop zero xs = xs
  drop (suc n) [] = []
  drop (suc n) (x ∷ xs) = drop n xs

  abbrev pub replicate : ℕ → A → List A
  replicate zero a = []
  replicate (suc n) a = a ∷ replicate n a

  -- What a loop takes that goes on while the last part was not empty.
  abbrev pub until_empty : List (List A) → List A
  until_empty [] = []
  until_empty ([] ∷ parts) = []
  until_empty ((x ∷ xs) ∷ parts) = (x ∷ xs) ++ until_empty parts

  pub length-append : (xs ys : List A) → length (xs ++ ys) ≡ length xs + length ys
  length-append [] ys = omega arith
  length-append (x ∷ xs) ys = omega (arith, length-append xs ys)

  pub length-set : (xs : List A) (i : ℕ) (v : A) → length (set xs i v) ≡ length xs
  length-set [] i v = refl
  length-set (x ∷ xs) zero v = refl
  length-set (x ∷ xs) (suc i) v = ap suc (length-set xs i v)

  pub length-replicate : (n : ℕ) (a : A) → length (replicate n a) ≡ n
  length-replicate zero a = refl
  length-replicate (suc n) a = ap suc (length-replicate n a)

  pub length-take : (n : ℕ) (xs : List A) → n ≤ length xs → length (take n xs) ≡ n
  length-take zero xs h = refl
  length-take (suc n) [] h = absurd (omega arith)
  length-take (suc n) (x ∷ xs) h = ap suc (length-take n xs (omega arith))

  -- Writing at the end of a prefix extends the prefix by the value.
  pub take-set_next :
      (xs : List A) (i : ℕ) (v : A)
      → i < length xs
      → take (suc i) (set xs i v) ≡ take i xs ++ (v ∷ [])
  take-set_next [] i v h = absurd (omega arith)
  take-set_next (x ∷ xs) zero v h = refl
  take-set_next (x ∷ xs) (suc i) v h = ap (λ r. x ∷ r) (take-set_next xs i v (omega arith))

  -- So a copy goes on: what is written is no longer to come.
  pub take-set_rest :
      (xs rest : List A) (i : ℕ) (v : A)
      → i < length xs
      → take (i + 1) (set xs i v) ++ rest ≡ take i xs ++ (v ∷ rest)
  take-set_rest xs rest i v h =
      ap (λ k. take k (set xs i v) ++ rest) next
      ∙ ap (λ r. r ++ rest) (take-set_next xs i v h)
      ∙ append_assoc (take i xs) (v ∷ []) rest
    where
      next : i + 1 ≡ suc i
      next = omega arith

  pub drop-get_or :
      (xs : List A) (i : ℕ) (d : A) → i < length xs → drop i xs ≡ get_or xs i d ∷ drop (suc i) xs
  drop-get_or [] i d h = absurd (omega arith)
  drop-get_or (x ∷ xs) zero d h = refl
  drop-get_or (x ∷ xs) (suc i) d h = drop-get_or xs i d (omega arith)

  -- A write before the part that is left does not reach it.
  pub drop-set_lt : (xs : List A) (k i : ℕ) (v : A) → i < k → drop k (set xs i v) ≡ drop k xs
  drop-set_lt xs zero i v h = absurd (omega arith)
  drop-set_lt [] (suc k) i v h = refl
  drop-set_lt (x ∷ xs) (suc k) zero v h = refl
  drop-set_lt (x ∷ xs) (suc k) (suc i) v h = drop-set_lt xs k i v (omega arith)

  pub take-append-drop : (n : ℕ) (xs : List A) → take n xs ++ drop n xs ≡ xs
  take-append-drop zero xs = refl
  take-append-drop (suc n) [] = refl
  take-append-drop (suc n) (x ∷ xs) = ap (λ r. x ∷ r) (take-append-drop n xs)

  take-nil : (k : ℕ) → take k [] ≡ []
  take-nil zero = refl
  take-nil (suc k) = refl

  pub drop-take : (xs : List A) (a b : ℕ) → drop a (take (a + b) xs) ≡ take b (drop a xs)
  drop-take xs zero b = ap (λ k. take k xs) (omega arith)
  drop-take [] (suc a) b = ap (drop (suc a)) (take-nil (suc a + b)) ∙ sym (take-nil b)
  drop-take (x ∷ xs) (suc a) b = ap (λ k. drop (suc a) (take k (x ∷ xs))) suc_out ∙ drop-take xs a b
    where
      suc_out : suc a + b ≡ suc (a + b)
      suc_out = omega arith

  pub take-take : (xs : List A) (a n : ℕ) → a ≤ n → take a (take n xs) ≡ take a xs
  take-take xs zero n h = refl
  take-take xs (suc a) zero h = absurd (omega arith)
  take-take [] (suc a) (suc n) h = refl
  take-take (x ∷ xs) (suc a) (suc n) h = ap (λ r. x ∷ r) (take-take xs a n (omega arith))

  pub get_or-take : (xs : List A) (n i : ℕ) (d : A) → i < n → get_or (take n xs) i d ≡ get_or xs i d
  get_or-take xs zero i d h = absurd (omega arith)
  get_or-take [] (suc n) i d h = refl
  get_or-take (x ∷ xs) (suc n) zero d h = refl
  get_or-take (x ∷ xs) (suc n) (suc i) d h = get_or-take xs n i d (omega arith)

-- Every element satisfies the predicate.
abbrev pub All {ℓ κ} : {A : Type ℓ} → (A → Type κ) → List A → Type κ
All P [] = Unit
All P (x ∷ xs) = P x × All P xs
