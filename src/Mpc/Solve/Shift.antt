-- ===== src/Mpc/Solve/Shift.antt =====
-- The warm start drops the control that is applied and appends 0.
use lf_benchmarks.Common.{
  ℕ, zero, suc, ◌-◌, ◌≡◌, refl, ap, List, [], ◌∷◌, ◌++◌, length, get_or, set, arith,
}
use lf_benchmarks.Double.{Double}
use lf_benchmarks.Mpc.Params.{zero_f}
use lf_benchmarks.Mpc.Solve.{shift_from, shift}

module _ {F : Type 0} ⦃d : Double F⦄ where
  -- A row before those that are written stays.
  shift_from-cons :
      (left k : ℕ) (u : F) (us : List F)
      → shift_from left (suc k) (u ∷ us) ≡ u ∷ shift_from left k us
  unfolding shift_from
  shift_from-cons zero k u us = refl
  shift_from-cons (suc left) k u us =
      shift_from-cons left (suc k) u (set us k (get_or us (suc k) zero_f))

  shift_rows :
      (u : F) (us : List F)
      → set (shift_from (length us) 0 (u ∷ us)) (length us) zero_f ≡ us ++ (zero_f ∷ [])
  unfolding shift_from
  shift_rows u [] = refl
  shift_rows u (v ∷ us) =
      rw (shift_from-cons (length us) 0 v (v ∷ us)) (ap (λ r. v ∷ r) (shift_rows v us))

  -- The warm start of a sequence that is not empty drops its first control and appends 0.
  pub shift-cons : (u : F) (us : List F) → shift (u ∷ us) ≡ us ++ (zero_f ∷ [])
  unfolding shift
  shift-cons u us = let e : suc (length us) - 1 ≡ length us = omega arith in rw e (shift_rows u us)
