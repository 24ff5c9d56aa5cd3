-- ===== src/Examples/Solver.antt =====
-- The solver of mpc_threaded.c at concrete inputs.
use lf_benchmarks.Common.{
  false, ℕ, ◌*◌, ◌≡◌, refl, List, [], ◌∷◌, none, some, replicate, length-replicate, arith,
}
use lf_benchmarks.Int.{ℤ, ◌-ℤ◌, pos}
use lf_benchmarks.Double.{NegativeZero}
use lf_benchmarks.Double.Fixed.{Micro, fixed, fixed-IsOrdered}
use lf_benchmarks.Mpc.Params.{Vector, horizon}
use lf_benchmarks.Mpc.Solve.{saturate, mpc_solve}
use lf_benchmarks.Mpc.Solve.Bounds.{IsBounded, IsControl, mpc_solve-IsBounded}
use lf_benchmarks.Threaded.Predict.{predict, plant_run, predict-eq-plant_run}

abbrev real : ℕ → Micro
real n = some (pos (n * 1_000_000))

-- At rest one metre from the reference, and back.
abbrev far : Vector Micro
far = record { c0 = real 1; c1 = real 0 }

abbrev home : Vector Micro
home = record { c0 = real 0; c1 = real 0 }

abbrev cold_start : List Micro
cold_start = replicate horizon (real 0)

mpc_solve-IsBounded_example :
    IsBounded ⦃d = fixed⦄ (mpc_solve ⦃d = fixed⦄ home far cold_start).0
    × IsControl ⦃d = fixed⦄ (mpc_solve ⦃d = fixed⦄ home far cold_start).1
mpc_solve-IsBounded_example =
    mpc_solve-IsBounded ⦃d = fixed⦄ fixed-IsOrdered home far cold_start
      (length-replicate {A = Micro} horizon (real 0))

zero_sum : (a b : Micro) → false ≡ false → fixed.add (fixed.add (fixed.lit 0 0) a) b ≡ fixed.add a b
zero_sum none b h = refl
zero_sum (some (ℤ.pos n)) b h = ground arith
zero_sum (some (ℤ.negsuc n)) b h = ground arith

-- The millionths have no negative zero.
abbrev no_neg_zero : NegativeZero fixed
no_neg_zero = record { is_neg_zero = λ a. false; zero_add = zero_sum }

predict-eq-plant_run_example :
    predict ⦃d = fixed⦄ home (real 2 ∷ real 1 ∷ [])
    ≡ plant_run ⦃d = fixed⦄ home (real 2 ∷ real 1 ∷ [])
predict-eq-plant_run_example =
    predict-eq-plant_run ⦃d = fixed⦄ no_neg_zero home (real 2 ∷ real 1 ∷ [])
      (refl, refl, (refl, refl, tt))

-- Tests: both limits, and a control between them.
saturate_tests :
    (saturate ⦃d = fixed⦄ (real 9) ≡ real 5)
    × (saturate ⦃d = fixed⦄ (some (pos 0 -ℤ pos 9_000_000)) ≡ some (pos 0 -ℤ pos 5_000_000))
    × (saturate ⦃d = fixed⦄ (real 2) ≡ real 2)
unfolding saturate
saturate_tests = (refl, refl, refl)
