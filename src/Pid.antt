-- ===== src/Pid.antt =====
-- The controller `PID` (chicken/utils/pid.cpp) over an abstract `double`. The integral is a sum
-- over a buffer that is written round and round.
pub mod Window
mod Tests
use cooboc.Base.{ℕ, zero, suc, ◌+◌, ◌%◌, List, [], ◌∷◌, length, set, get_or, replicate}
use cooboc.Base.Int.{pos}
use cooboc.Float.{Float}

module _ (F : Float) where
  open F use {Double, add, mul, of_int}

  -- `mIntegralWindowSize` is the buffer's length at construction, and stays it.
  pub record Pid : Type 0 where
    pub kp : Double
    pub ki : Double
    pub kd : Double
    pub integral_buffer : List Double
    pub integral_window_size : ℕ
    pub integral_buffer_index : ℕ

  abbrev pub zero_double : Double
  zero_double = of_int (pos 0)

  pub new_pid : Double → Double → Double → ℕ → Pid
  new_pid kp ki kd n = record {
    kp = kp;
    ki = ki;
    kd = kd;
    integral_buffer = replicate n zero_double;
    integral_window_size = n;
    integral_buffer_index = 0;
  }

  -- The loop of `reset`, with `left` rounds to go.
  pub clear_from : ℕ → ℕ → List Double → List Double
  clear_from zero i buffer = buffer
  clear_from (suc left) i buffer = clear_from left (i + 1) (set buffer i zero_double)

  pub reset : Pid → Pid
  unfolding clear_from
  reset p = record p {
    integral_buffer = clear_from p.integral_window_size 0 p.integral_buffer;
    integral_buffer_index = 0;
  }

  -- The loop of `updateError`: the sum in the order of the indices.
  sum_from : ℕ → ℕ → Double → List Double → Double
  sum_from zero i sum buffer = sum
  sum_from (suc left) i sum buffer =
      sum_from left (i + 1) (add sum (get_or buffer i zero_double)) buffer

  -- The new state: the error is written at the index, which moves on.
  store_error : Pid → Double → Pid
  store_error p error = record p {
    integral_buffer = set p.integral_buffer p.integral_buffer_index error;
    integral_buffer_index = (p.integral_buffer_index + 1) % p.integral_window_size;
  }

  pub update_error : Pid → Double → Pid × Double
  unfolding store_error sum_from
  update_error p error =
      let pp = mul error p.kp in
      let p' = store_error p error in
      let ip = mul (sum_from p.integral_window_size 0 zero_double p'.integral_buffer) p.ki in
      let dp = zero_double in (p', add (add pp ip) dp)

  pub set_tunning : Pid → Double → Double → Double → Pid
  set_tunning p kp ki kd = record p { kp = kp; ki = ki; kd = kd }

  -- The controller after a sequence of errors.
  pub after : Pid → List Double → Pid
  unfolding update_error
  after p [] = p
  after p (e ∷ es) = after (update_error p e).0 es
