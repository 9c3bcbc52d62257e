-- ===== src/Headrest/Text.antt =====
-- The text that `HrDisplay::sendDistance` (chicken/device/hr_display.cpp) forms with `sprintf`, read
-- back, and its length.
use cooboc.Base.{
  ℕ, zero, suc, ◌+◌, ◌-◌, ◌*◌, ◌/◌, ◌%◌, ◌^◌, ◌≤◌, ◌<◌, ◌≡◌, refl, ap, ◌∙◌, inl, inr, false, ◌&&◌,
  Option, none, some, List, [], ◌∷◌, ◌++◌, arith, append_assoc, length, length-append, ltb, leb,
  ◌==◌, if◌then◌else◌, Bool-cases,
}
use cooboc.Headrest.{digits, decimal, dist0_text, dist1_text, distance_text}

-- A number at the start of a text, and what follows its digits.
read_number : ℕ → List ℕ → ℕ × List ℕ
read_number value [] = (value, [])
read_number value (c ∷ cs) =
    let rest = read_number (value * 10 + (c - 48)) cs in
    if leb 48 c && leb c 57 then rest else (value, c ∷ cs)

strip_prefix : List ℕ → List ℕ → Option (List ℕ)
strip_prefix [] text = some text
strip_prefix (p ∷ ps) [] = none
strip_prefix (p ∷ ps) (c ∷ cs) = let rest = strip_prefix ps cs in if p == c then rest else none

-- After the second number there is the closing brace, and nothing else.
read_closing : ℕ → ℕ × List ℕ → Option (ℕ × ℕ)
read_closing d0 (d1, []) = none
read_closing d0 (d1, c ∷ []) = if c == b'}' then some (d0, d1) else none
read_closing d0 (d1, c ∷ x ∷ xs) = none

read_dist1 : ℕ × List ℕ → Option (ℕ × ℕ)
unfolding strip_prefix read_number read_closing
read_dist1 (d0, text) = elim (strip_prefix dist1_text text) [
  | none ↦ none
  | some rest ↦ read_closing d0 (read_number 0 rest)
]

-- A reader of the text, as the two numbers.
pub read_distances : List ℕ → Option (ℕ × ℕ)
unfolding strip_prefix read_number read_dist1
read_distances text = elim (strip_prefix dist0_text text) [
  | none ↦ none
  | some rest ↦ read_dist1 (read_number 0 rest)
]

strip_prefix-append : (p t : List ℕ) → strip_prefix p (p ++ t) ≡ some t
unfolding strip_prefix
strip_prefix-append [] t = refl
strip_prefix-append (c ∷ p) t = ground (arith, strip_prefix-append p t)

read_digit :
    (value d : ℕ) (t : List ℕ)
    → d < 10
    → read_number value ((48 + d) ∷ t) ≡ read_number (value * 10 + d) t
unfolding read_number
read_digit value d t h = ground arith

-- The digits of a number are read as the number.
read_number-digits :
    (more n : ℕ) (t : List ℕ) → n < more → read_number 0 (digits more n ++ t) ≡ read_number n t
unfolding digits
read_number-digits zero n t h = absurd (omega arith)
read_number-digits (suc more) n t h = elim (Bool-cases (ltb n 10)) [
  | inl k ↦ rw k (read_digit 0 n t (ground arith) ∙ ap (λ v. read_number v t) (omega arith))
  | inr k ↦ rw k (
      ap (read_number 0) (append_assoc (digits more (n / 10)) ((48 + n % 10) ∷ []) t)
      ∙ read_number-digits more (n / 10) ((48 + n % 10) ∷ t) (ground arith)
      ∙ read_digit (n / 10) (n % 10) t (omega arith)
      ∙ ap (λ v. read_number v t) (omega arith))
]

read_number-decimal :
    (n c : ℕ) (t : List ℕ)
    → (leb 48 c && leb c 57) ≡ false
    → read_number 0 (decimal n ++ (c ∷ t)) ≡ (n, c ∷ t)
unfolding decimal read_number
read_number-decimal n c t h = read_number-digits (suc n) n (c ∷ t) (omega arith) ∙ simp h

-- The text of any two distances is read back as these two.
pub read_distances-distance_text :
    (d0 d1 : ℕ) → read_distances (distance_text d0 d1) ≡ some (d0, d1)
unfolding read_distances distance_text
read_distances-distance_text d0 d1 =
    ap read_dist1 (read_number-decimal d0 b',' _ refl)
    ∙ ap (read_closing d0) (read_number-decimal d1 b'}' [] refl)

length-digits : (m more n : ℕ) → n < 10 ^ suc m → length (digits more n) ≤ suc m
unfolding digits
length-digits m zero n h = omega arith
length-digits zero (suc more) n h = ground arith
length-digits (suc m) (suc more) n h = elim (Bool-cases (ltb n 10)) [
  | inl k ↦ rw k (omega arith)
  | inr k ↦ rw k (
      omega (
        arith,
        length-append (digits more (n / 10)) ((48 + n % 10) ∷ []),
        length-digits m more (n / 10) (omega arith),
      ))
]

-- The text of two distances below 2 ^ 31 fits the buffer of 1024 bytes, with its end.
length-distance_text : (d0 d1 : ℕ) → d0 < 2 ^ 31 → d1 < 2 ^ 31 → length (distance_text d0 d1) < 1024
unfolding distance_text
length-distance_text d0 d1 h0 h1 = omega (
  arith,
  length-digits 9 (suc d0) d0 (omega arith),
  length-digits 9 (suc d1) d1 (omega arith),
  length-append (decimal d0) (dist1_text ++ (decimal d1 ++ (b'}' ∷ []))),
  length-append (decimal d1) (b'}' ∷ []),
)
