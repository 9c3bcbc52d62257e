-- ===== src/Base/Texts.antt =====
-- C strings as lists of codes, without their end.
use Prim.Native.Nat.{ℕ}
use mathlib.Core.Path.{◌≡◌, refl}
use mathlib.Core.Logic.{◌≢◌, inl, inr}
use mathlib.Core.Bool.{Bool, true, false, ◌&&◌}
use mathlib.Core.List.{List, [], ◌∷◌}
use native.Mathlib.Omega.{arith}
use cooboc.Base.Tests.{◌==◌, Bool-cases}

-- `strcmp(a, b) == 0`
unfoldable pub same_text : List ℕ → List ℕ → Bool
same_text [] [] = true
same_text [] (y ∷ ys) = false
same_text (x ∷ xs) [] = false
same_text (x ∷ xs) (y ∷ ys) = (x == y) && same_text xs ys

pub same_text→≡ : (a b : List ℕ) → same_text a b ≡ true → a ≡ b
unfolding same_text
same_text→≡ [] [] h = refl
same_text→≡ [] (y ∷ ys) h = cc
same_text→≡ (x ∷ xs) [] h = cc
same_text→≡ (x ∷ xs) (y ∷ ys) h = ground (arith, same_text→≡ xs ys)

pub same_text_refl : (a : List ℕ) → same_text a a ≡ true
unfolding same_text
same_text_refl [] = refl
same_text_refl (x ∷ xs) = ground (arith, same_text_refl xs)

pub same_text_differs : (a b : List ℕ) → a ≢ b → same_text a b ≡ false
same_text_differs a b h = elim (Bool-cases (same_text a b)) [
  | inl same ↦ absurd (h (same_text→≡ a b same))
  | inr k ↦ k
]
