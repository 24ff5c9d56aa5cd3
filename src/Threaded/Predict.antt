-- ===== src/Threaded/Predict.antt =====
-- The prediction thread's model of the plant is `plant_step`.
use lf_benchmarks.Common.{◌≡◌, refl, ap, ◌&&◌, false, List, [], ◌∷◌, arith}
use lf_benchmarks.Double.{Double, NegativeZero}
use lf_benchmarks.Mpc.Params.{Vector, matrix_a}
use lf_benchmarks.Mpc.Cost.{propagate_row, propagate}
use lf_benchmarks.Threaded.State.{plant_step}

module _ {F : Type 0} ⦃d : Double F⦄ where
  open d use {add, mul}

  -- `x_pred`: the start and one more row for each control.
  unfoldable pub predict : Vector F → List F → List (Vector F)
  predict x [] = x ∷ []
  predict x (u ∷ us) = x ∷ predict (propagate x u) us

  -- The plant's states under a sequence of controls.
  unfoldable pub plant_run : Vector F → List F → List (Vector F)
  plant_run x [] = x ∷ []
  plant_run x (u ∷ us) = x ∷ plant_run (plant_step x u) us

  module _ (z : NegativeZero d) where
    open z use {is_neg_zero, zero_add}

    -- In no step of the plant are both products of a row negative zeros.
    abbrev pub NoNegativeZeros : Vector F → List F → Type 0
    NoNegativeZeros x [] = Unit
    NoNegativeZeros x (u ∷ us) =
        (is_neg_zero (mul matrix_a.c0.c0 x.c0) && is_neg_zero (mul matrix_a.c0.c1 x.c1) ≡ false)
        × (is_neg_zero (mul matrix_a.c1.c0 x.c0) && is_neg_zero (mul matrix_a.c1.c1 x.c1) ≡ false)
        × NoNegativeZeros (plant_step x u) us

    propagate-eq-plant_step :
        (x : Vector F) (u : F)
        → is_neg_zero (mul matrix_a.c0.c0 x.c0) && is_neg_zero (mul matrix_a.c0.c1 x.c1) ≡ false
        → is_neg_zero (mul matrix_a.c1.c0 x.c0) && is_neg_zero (mul matrix_a.c1.c1 x.c1) ≡ false
        → propagate x u ≡ plant_step x u
    unfolding propagate propagate_row plant_step
    propagate-eq-plant_step x u h k = ground (
      arith,
      zero_add (mul matrix_a.c0.c0 x.c0) (mul matrix_a.c0.c1 x.c1) h,
      zero_add (mul matrix_a.c1.c0 x.c0) (mul matrix_a.c1.c1 x.c1) k,
    )

    -- Where no row of the matrix product has two negative zeros to add, the predicted rows are to
    -- the last bit the states that `plant_step` takes the plant through under the same controls.
    pub predict-eq-plant_run :
        (x : Vector F) (us : List F) → NoNegativeZeros x us → predict x us ≡ plant_run x us
    unfolding predict plant_run
    predict-eq-plant_run x [] h = refl
    predict-eq-plant_run x (u ∷ us) (h, k, rest) =
        rw (propagate-eq-plant_step x u h k)
          (ap (λ r. x ∷ r) (predict-eq-plant_run (plant_step x u) us rest))
