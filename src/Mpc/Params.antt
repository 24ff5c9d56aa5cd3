-- ===== src/Mpc/Params.antt =====
-- The parameters of the controller, and vectors of the state dimension NX = 2. The input dimension
-- NU is 1, so that a row `u_seq[k]` is one number.
use lf_benchmarks.Common.{ℕ}
use lf_benchmarks.Double.{Double}

abbrev pub horizon : ℕ
horizon = 10

abbrev pub opt_iter : ℕ
opt_iter = 50

-- `double x[NX]`
pub record Vector (F : Type 0) : Type 0 where
  pub c0 : F
  pub c1 : F

module _ {F : Type 0} ⦃d : Double F⦄ where
  open d use {lit, neg, add, mul}

  abbrev pub zero_f : F
  zero_f = lit 0 0

  abbrev pub dt : F
  dt = lit 1 3

  abbrev pub opt_lr : F
  opt_lr = lit 1 2

  abbrev pub eps : F
  eps = lit 1 5

  abbrev pub q_pos : F
  q_pos = lit 10 0

  abbrev pub q_vel : F
  q_vel = lit 1 0

  abbrev pub r_input : F
  r_input = lit 1 1

  abbrev pub u_max : F
  u_max = lit 5 0

  abbrev pub u_min : F
  u_min = neg (lit 5 0)

  -- `{1.0, DT}, {0.0, 1.0}`
  abbrev pub matrix_a : Vector (Vector F)
  matrix_a = record {
    c0 = record { c0 = lit 1 0; c1 = dt };
    c1 = record { c0 = zero_f; c1 = lit 1 0 };
  }

  -- `{0.5 * DT * DT}, {DT}`
  abbrev pub matrix_b : Vector F
  matrix_b = record { c0 = mul (mul (lit 5 1) dt) dt; c1 = dt }

  abbrev pub zero_vector : Vector F
  zero_vector = record { c0 = zero_f; c1 = zero_f }
