-- ===== src/Filters/Tests.antt =====
-- The filters of chicken/utils over whole numbers.
use cooboc.Base.{◌≡◌, refl, [], ◌∷◌, arith, replicate}
use cooboc.Float.Sample.{whole}
use cooboc.Filters.{out_of_bounds, new_avg_filter, AvgFilter, avg_filter}
use cooboc.Filters.Average.{new_avg_filter_overflows}

new_avg_filter_overflows_example : new_avg_filter whole 11 5 (replicate 10 0) ≡ out_of_bounds
new_avg_filter_overflows_example =
    new_avg_filter_overflows whole 11 5 (replicate 10 0) refl (omega arith)

abbrev three : AvgFilter whole
three = record {
  value_list = 1 ∷ 2 ∷ 3 ∷ [];
  value_length = 3;
  current_head_index = 2;
  last_value = 0;
}

average : (avg_filter whole three 9).1 ≡ 4
unfolding avg_filter
average = refl
