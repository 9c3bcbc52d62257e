-- ===== src/Filters/Average.antt =====
-- The loop of `AvgFilter::resetValue` (chicken/utils/avg_filter.cpp).
use cooboc.Base.{ℕ, zero, suc, ◌+◌, ◌≤◌, ◌<◌, ◌≡◌, List, arith, length, set, length-set}
use cooboc.Float.{Float}
use cooboc.Filters.{out_of_bounds}
use cooboc.Filters

module _ (F : Float) where
  open F use {Double}

  reset_from_overflows :
      (more i n : ℕ) (value : Double) (values : List Double)
      → i ≤ length values
      → length values < i + more
      → Filters.reset_from F more i (suc n) value values ≡ out_of_bounds
  unfolding Filters.reset_from
  reset_from_overflows zero i n value values h over = absurd (omega arith)
  reset_from_overflows (suc more) i n value values h over = ground (
    arith,
    length-set values i value,
    reset_from_overflows more (i + 1) n value (set values i value),
  )

  -- The constructor of `AvgFilter`, given more than 10 rounds for the loop of `resetValue` over its array
  -- of 10 places, writes behind the array, whatever the array holds.
  pub new_avg_filter_overflows :
      (more : ℕ) (last_value : Double) (storage : List Double)
      → length storage ≡ 10
      → 10 < more
      → Filters.new_avg_filter F more last_value storage ≡ out_of_bounds
  unfolding Filters.new_avg_filter
  new_avg_filter_overflows more last_value storage h over =
      reset_from_overflows more 0 9 last_value storage (omega arith) (omega arith)
