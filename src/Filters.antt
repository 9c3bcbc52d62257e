-- ===== src/Filters.antt =====
-- The filters `Filter`, `FolFilter` and `AvgFilter` (chicken/utils/filter.cpp, fol_filter.cpp and
-- avg_filter.cpp beside it) over an abstract `double`.
pub mod Average
mod Tests
use cooboc.Base.{
  ℕ, zero, suc, ◌+◌, ◌%◌, Bool, true, false, List, [], ◌∷◌, get_or, set, replicate, length, ltb,
  if◌then◌else◌,
}
use cooboc.Base.Int.{pos}
use cooboc.Float.{Float}

module _ (F : Float) where
  open F use {Double, add, sub, mul, div, of_int}

  -- `Filter::filter` keeps and gives the value as it is.
  filter : Double → Double → Double × Double
  filter last_value new_value = (new_value, new_value)

  pub record FolFilter : Type 0 where
    pub q : Double
    pub last_value : Double

  unfoldable pub new_fol_filter : Double → FolFilter
  new_fol_filter q = record { q = q; last_value = of_int (pos 0) }

  unfoldable pub fol_filter : FolFilter → Double → FolFilter × Double
  fol_filter f new_value =
      let v = add (mul (sub (of_int (pos 1)) f.q) f.last_value) (mul f.q new_value) in
      (record f { last_value = v }, v)

  pub record AvgFilter : Type 0 where
    pub value_list : List Double
    pub value_length : ℕ
    pub current_head_index : ℕ
    pub last_value : Double

  -- How the loop of `resetValue` stands: it has come to its end, it has written behind the array, or it
  -- is still running.
  pub data Loop : Type 0 where
    ended : List Double → Loop
    out_of_bounds running : Loop

  -- `for (i=0; i,mValueLength; ++i)`: the condition is the length, whatever `i` is. So many rounds are run.
  pub reset_from : ℕ → ℕ → ℕ → Double → List Double → Loop
  reset_from zero i value_length value values = running
  reset_from (suc more) i zero value values = ended values
  reset_from (suc more) i (suc n) value values =
      let rest = reset_from more (i + 1) (suc n) value (set values i value) in
      if ltb i (length values) then rest else out_of_bounds

  -- The constructor's array has 10 places, whatever length was asked for, and `resetValue` runs over it.
  pub new_avg_filter : ℕ → Double → List Double → Loop
  unfolding reset_from
  new_avg_filter more last_value storage = reset_from more 0 10 last_value storage

  pub sum_from : ℕ → ℕ → Double → List Double → Double
  sum_from zero i sum values = sum
  sum_from (suc left) i sum values =
      sum_from left (i + 1) (add sum (get_or values i (of_int (pos 0)))) values

  -- `AvgFilter::filter`
  pub avg_filter : AvgFilter → Double → AvgFilter × Double
  unfolding sum_from
  avg_filter f value =
      let values = set f.value_list f.current_head_index value in
      let v =
        div (sum_from f.value_length 0 (of_int (pos 0)) values) (of_int (pos f.value_length)) in
      (
        record f {
          value_list = values;
          current_head_index = (f.current_head_index + 1) % f.value_length;
          last_value = v;
        },
        v,
      )
