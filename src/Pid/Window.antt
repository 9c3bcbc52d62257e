-- ===== src/Pid/Window.antt =====
-- The buffer of chicken/utils/pid.cpp as a window, read from the index on and round.
use cooboc.Base.{
  ℕ, zero, suc, ◌+◌, ◌%◌, ◌≤◌, ◌<◌, ◌≡◌, refl, ◌∙◌, sym, ap, List, [], ◌∷◌, ◌++◌, arith, length,
  set, take, drop, replicate, length-set, take-set_next, drop-set_lt, append_assoc, append-nil,
  length-replicate, length-append,
}
use native.Mathlib.Decide.{dec_lt}
use native.Mathlib.Nat.{mod-eq_of_lt}
use cooboc.Float.{Float}
use cooboc.Pid

module _ {ℓ} {A : Type ℓ} where
  drop_all : (xs : List A) (n : ℕ) → length xs ≤ n → drop n xs ≡ []
  drop_all [] zero h = refl
  drop_all [] (suc n) h = refl
  drop_all (x ∷ xs) zero h = absurd (omega arith)
  drop_all (x ∷ xs) (suc n) h = drop_all xs n (omega arith)

  drop-append : (xs ys : List A) (n : ℕ) → n ≤ length xs → drop n (xs ++ ys) ≡ drop n xs ++ ys
  drop-append xs ys zero h = refl
  drop-append [] ys (suc n) h = absurd (omega arith)
  drop-append (x ∷ xs) ys (suc n) h = drop-append xs ys n (omega arith)

  drop-suc : (xs : List A) (i : ℕ) → drop 1 (drop i xs) ≡ drop (suc i) xs
  drop-suc xs zero = refl
  drop-suc [] (suc i) = refl
  drop-suc (x ∷ xs) (suc i) = drop-suc xs i

  length-drop_pos : (xs : List A) (i : ℕ) → i < length xs → 1 ≤ length (drop i xs)
  length-drop_pos [] i h = absurd (omega arith)
  length-drop_pos (x ∷ xs) zero h = omega arith
  length-drop_pos (x ∷ xs) (suc i) h = length-drop_pos xs i (omega arith)

  take_all : (xs : List A) → take (length xs) xs ≡ xs
  take_all [] = refl
  take_all (x ∷ xs) = ap (λ r. x ∷ r) (take_all xs)

  take-set_whole :
      (xs : List A) (n i : ℕ) (v : A) → length xs ≡ n → take n (set xs i v) ≡ set xs i v
  take-set_whole xs n i v h =
      ap (λ k. take k (set xs i v)) (sym (length-set xs i v ∙ h)) ∙ take_all (set xs i v)

  drop-nil : (n : ℕ) → drop {A = A} n [] ≡ []
  drop-nil zero = refl
  drop-nil (suc n) = refl

  drop-drop_one : (xs : List A) (n : ℕ) → drop n (drop 1 xs) ≡ drop (suc n) xs
  drop-drop_one [] n = drop-nil n
  drop-drop_one (x ∷ xs) n = refl

  -- The buffer from the index on, then from the start: the order in which the entries were written.
  abbrev contents : ℕ → List A → List A
  contents i buffer = drop i buffer ++ take i buffer

  -- The oldest entry falls out, and the new one stands last.
  shift_by_one :
      (xs : List A) (i : ℕ) (v : A)
      → i < length xs
      → drop 1 (contents i xs ++ (v ∷ [])) ≡ drop (suc i) (set xs i v) ++ take (suc i) (set xs i v)
  shift_by_one xs i v h =
      ap (drop 1) (append_assoc (drop i xs) (take i xs) (v ∷ []))
      ∙ drop-append (drop i xs) (take i xs ++ (v ∷ [])) 1 (length-drop_pos xs i h)
      ∙ rw (drop-suc, drop-set_lt xs (suc i) i v (omega arith), take-set_next xs i v h) refl

  contents-set :
      (xs : List A) (n i : ℕ) (v : A)
      → length xs ≡ n
      → i < n
      → contents ((i + 1) % n) (set xs i v) ≡ drop 1 (contents i xs ++ (v ∷ []))
  contents-set xs n i v h lt = elim (dec_lt (suc i) n) [
    | yes inside ↦
        ap (λ k. contents k (set xs i v)) (next_inside inside)
        ∙ sym (shift_by_one xs i v (omega arith))
    | no at_end ↦
        ap (λ k. contents k (set xs i v)) (next_at_end at_end)
        ∙ append-nil (set xs i v)
        ∙ sym (
            shift_by_one xs i v (omega arith)
            ∙ rw (drop_all (set xs i v) (suc i) (omega (arith, length-set xs i v)))
                (take-set_whole xs (suc i) i v (omega arith)))
  ]
    where
      next_inside : suc i < n → (i + 1) % n ≡ suc i
      next_inside k = omega (arith, mod-eq_of_lt {n = i + 1} {m = n} (omega arith))

      next_at_end : ¬ (suc i < n) → (i + 1) % n ≡ 0
      next_at_end k = grind arith

replicate_snoc {ℓ} : {A : Type ℓ} (n : ℕ) (a : A) → replicate n a ++ (a ∷ []) ≡ replicate (suc n) a
replicate_snoc zero a = refl
replicate_snoc (suc n) a = ap (λ r. a ∷ r) (replicate_snoc n a)

module _ (F : Float) where
  open F use {Double}

  -- The buffer is as long as the window, and the index lies in it.
  pub record IsValid (p : Pid.Pid F) : Type 0 where
    pub width : length p.integral_buffer ≡ p.integral_window_size
    pub index_in : p.integral_buffer_index < p.integral_window_size

  abbrev pub window : Pid.Pid F → List Double
  window p = contents p.integral_buffer_index p.integral_buffer

  pub new_pid-IsValid : (kp ki kd : Double) (n : ℕ) → 0 < n → IsValid (Pid.new_pid F kp ki kd n)
  unfolding Pid.new_pid
  new_pid-IsValid kp ki kd n h = record {
    width = length-replicate n (Pid.zero_double F);
    index_in = h;
  }

  -- Each write of `updateError` stays inside the buffer.
  pub update_error-IsValid :
      (p : Pid.Pid F) (e : Double) → IsValid p → IsValid (Pid.update_error F p e).0
  unfolding Pid.update_error
  update_error-IsValid p e v = record {
    width = length-set p.integral_buffer p.integral_buffer_index e ∙ v.width;
    index_in = omega (arith, v.index_in);
  }

  window-update_error :
      (p : Pid.Pid F) (e : Double)
      → IsValid p
      → window (Pid.update_error F p e).0 ≡ drop 1 (window p ++ (e ∷ []))
  unfolding Pid.update_error
  window-update_error p e v =
      contents-set p.integral_buffer p.integral_window_size p.integral_buffer_index e v.width
        v.index_in

  -- From a well-formed controller, after any errors the window holds the last of what it held and these, as many as it is wide.
  pub window-after :
      (p : Pid.Pid F) (es : List Double)
      → IsValid p
      → window (Pid.after F p es) ≡ drop (length es) (window p ++ es)
  unfolding Pid.after
  window-after p [] v = sym (append-nil (window p))
  window-after p (e ∷ es) v =
      window-after (Pid.update_error F p e).0 es (update_error-IsValid p e v)
      ∙ ap (λ w. drop (length es) (w ++ es)) (window-update_error p e v)
      ∙ ap (drop (length es)) (sym (drop-append (window p ++ (e ∷ [])) es 1 one_held))
      ∙ drop-drop_one ((window p ++ (e ∷ [])) ++ es) (length es)
      ∙ ap (drop (suc (length es))) (append_assoc (window p) (e ∷ []) es)
    where
      one_held : 1 ≤ length (window p ++ (e ∷ []))
      one_held = omega (arith, length-append (window p) (e ∷ []))

  filled :
      (left i : ℕ) (buffer : List Double) (n : ℕ)
      → length buffer ≡ n
      → i + left ≡ n
      → take i buffer ≡ replicate i (Pid.zero_double F)
      → Pid.clear_from F left i buffer ≡ replicate n (Pid.zero_double F)
  unfolding Pid.clear_from
  filled zero i buffer n h e k = sym (take_all buffer) ∙ ground (arith, k)
  filled (suc left) i buffer n h e k =
      filled left (i + 1) (set buffer i (Pid.zero_double F)) n
        (length-set buffer i (Pid.zero_double F) ∙ h) (omega arith)
        (ground
          (arith, take-set_next buffer i (Pid.zero_double F), replicate_snoc i (Pid.zero_double F)))

  -- On a well-formed controller `reset` leaves what the constructor would make with the present gains.
  pub reset-new_pid :
      (p : Pid.Pid F)
      → IsValid p
      → Pid.reset F p ≡ Pid.new_pid F p.kp p.ki p.kd p.integral_window_size
  unfolding Pid.reset Pid.new_pid
  reset-new_pid p v =
      ap
        (λ b. record {
          kp = p.kp;
          ki = p.ki;
          kd = p.kd;
          integral_buffer = b;
          integral_window_size = p.integral_window_size;
          integral_buffer_index = 0;
        })
        (filled p.integral_window_size 0 p.integral_buffer p.integral_window_size v.width
          (omega arith) refl)

  -- The differential gain has no effect on what `updateError` returns.
  gain_d_ignored :
      (p : Pid.Pid F) (kd e : Double)
      → (Pid.update_error F (record p { kd = kd }) e).1 ≡ (Pid.update_error F p e).1
  unfolding Pid.update_error
  gain_d_ignored p kd e = refl
