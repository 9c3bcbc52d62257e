-- ===== src/Float/Sample.antt =====
-- A `double` of whole numbers, for concrete runs.
use cooboc.Base.{ℕ, zero, suc, ◌+◌, ◌-◌, ◌*◌, ◌/◌, ◌^◌, Bool, false, Option, none, some, ltb}
use cooboc.Base.Int.{pos, pos_part}
use cooboc.Float.{Float}

abbrev pub whole : Float
whole = record {
  Double = ℕ;
  add = λ x y. x + y;
  sub = λ x y. x - y;
  mul = λ x y. x * y;
  div = λ x y. x / y;
  neg = λ x. 0;
  lt = ltb;
  sin = λ x. 0;
  cos = λ x. 1;
  asin = λ x. 0;
  acos = λ x. 0;
  sqrt = λ x. x;
  fabs = λ x. x;
  of_int = pos_part;
  to_int = pos;
  decimal = λ digits behind. digits / 10 ^ behind;
}

abbrev pub binary : (ℕ → ℕ → Option ℕ) → Option ℕ → Option ℕ → Option ℕ
binary f none y = none
binary f (some x) none = none
binary f (some x) (some y) = f x y

abbrev unary : (ℕ → ℕ) → Option ℕ → Option ℕ
unary f none = none
unary f (some x) = some (f x)

abbrev pub less : Option ℕ → Option ℕ → Bool
less none y = false
less (some x) none = false
less (some x) (some y) = ltb x y

abbrev quotient : ℕ → ℕ → Option ℕ
quotient x zero = none
quotient x (suc y) = some (x / suc y)

-- Whole numbers and `none` for NaN, which a division by 0 gives.
abbrev pub with_nan : Float
with_nan = record {
  Double = Option ℕ;
  add = binary (λ x y. some (x + y));
  sub = binary (λ x y. some (x - y));
  mul = binary (λ x y. some (x * y));
  div = binary quotient;
  neg = unary (λ x. x);
  lt = less;
  sin = unary (λ x. 0);
  cos = unary (λ x. 1);
  asin = unary (λ x. 0);
  acos = unary (λ x. 0);
  sqrt = unary (λ x. x);
  fabs = unary (λ x. x);
  of_int = λ z. some (pos_part z);
  to_int = λ x. elim x [ none ↦ pos 0 | some n ↦ pos n ];
  decimal = λ digits behind. some (digits / 10 ^ behind);
}
