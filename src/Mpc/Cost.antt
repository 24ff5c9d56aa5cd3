-- ===== src/Mpc/Cost.antt =====
-- `compute_cost` of mpc_solver.c. The copies of it in mpc_threaded.c and in the preamble of mpc.lf
-- have the same text.
use lf_benchmarks.Common.{List, [], ◌∷◌}
use lf_benchmarks.Double.{Double}
use lf_benchmarks.Mpc.Params.{Vector, matrix_a, matrix_b, q_pos, q_vel, r_input, zero_f}

module _ {F : Type 0} ⦃d : Double F⦄ where
  open d use {lit, add, sub, mul}

  -- Row `i` of the loop that fills `xn`: from 0, the products are added one after the other.
  unfoldable pub propagate_row : Vector F → F → Vector F → F → F
  propagate_row a b x u = add (add (add zero_f (mul a.c0 x.c0)) (mul a.c1 x.c1)) (mul b u)

  unfoldable pub propagate : Vector F → F → Vector F
  propagate x u = record {
    c0 = propagate_row matrix_a.c0 matrix_b.c0 x u;
    c1 = propagate_row matrix_a.c1 matrix_b.c1 x u;
  }

  abbrev pub error : Vector F → Vector F → Vector F
  error x xref = record { c0 = sub x.c0 xref.c0; c1 = sub x.c1 xref.c1 }

  -- `Q_POS * ex[0]*ex[0] + Q_VEL * ex[1]*ex[1]`
  unfoldable pub state_cost : Vector F → Vector F → F
  state_cost x xref =
      let ex = error x xref in add (mul (mul q_pos ex.c0) ex.c0) (mul (mul q_vel ex.c1) ex.c1)

  unfoldable pub input_cost : F → F
  input_cost u = mul (mul r_input u) u

  unfoldable pub terminal_cost : Vector F → Vector F → F
  terminal_cost x xref =
      let ex = error x xref in
      add (mul (mul (mul (lit 10 0) q_pos) ex.c0) ex.c0)
        (mul (mul (mul (lit 10 0) q_vel) ex.c1) ex.c1)

  -- The loop over `k`, with `u_seq[k]` and what follows it.
  unfoldable pub cost_loop : Vector F → F → Vector F → List F → F
  cost_loop xref cost x [] = add cost (terminal_cost x xref)
  cost_loop xref cost x (u ∷ us) =
      cost_loop xref (add (add cost (state_cost x xref)) (input_cost u)) (propagate x u) us

  unfoldable pub compute_cost : Vector F → Vector F → List F → F
  compute_cost x0 xref u_seq = cost_loop xref zero_f x0 u_seq
