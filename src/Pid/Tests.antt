-- ===== src/Pid/Tests.antt =====
-- Runs of chicken/utils/pid.cpp with a window of three errors.
use cooboc.Base.{◌≡◌, refl, [], ◌∷◌, arith}
use cooboc.Float.Sample.{whole}
use cooboc.Pid.{Pid, update_error, after}
use cooboc.Pid.Window.{IsValid, window, window-after}

abbrev three : Pid whole
three = record {
  kp = 2;
  ki = 3;
  kd = 4;
  integral_buffer = 10 ∷ 20 ∷ 30 ∷ [];
  integral_window_size = 3;
  integral_buffer_index = 1;
}

three-IsValid : IsValid whole three
three-IsValid = record { width = refl; index_in = omega arith }

window-after_example : window whole (after whole three (40 ∷ 50 ∷ [])) ≡ 10 ∷ 40 ∷ 50 ∷ []
window-after_example = window-after whole three (40 ∷ 50 ∷ []) three-IsValid

-- 40 * 2 + (10 + 40 + 30) * 3
updated : (update_error whole three 40).1 ≡ 320
unfolding update_error
updated = refl
