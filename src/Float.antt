-- ===== src/Float.antt =====
-- The `double` of C as a parameter: a type with the operations that the program uses. Nothing is
-- known of it but what a theorem takes as a hypothesis, so no law that rounding breaks is used.
pub mod Sample
use cooboc.Base.{ℕ, Bool}
use cooboc.Base.Int.{ℤ}

pub record Float : Type 1 where
  pub Double : Type 0
  pub add : Double → Double → Double
  pub sub : Double → Double → Double
  pub mul : Double → Double → Double
  pub div : Double → Double → Double
  pub neg : Double → Double
  pub lt : Double → Double → Bool
  pub sin : Double → Double
  pub cos : Double → Double
  pub asin : Double → Double
  pub acos : Double → Double
  pub sqrt : Double → Double
  pub fabs : Double → Double
  -- an `int` as a `double`, and back by truncation
  pub of_int : ℤ → Double
  pub to_int : Double → ℤ
  -- the literal with these digits, the last so many of which stand behind the point
  pub decimal : ℕ → ℕ → Double
