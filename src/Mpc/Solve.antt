-- ===== src/Mpc/Solve.antt =====
-- `mpc_solve` of mpc_solver.c. The static `u_seq` is passed in and returned. It has `horizon` rows;
-- what the code does with them is written for any number of rows.
pub mod Bounds
pub mod Shift
use lf_benchmarks.Common.{ℕ, zero, suc, ◌-◌, List, length, get_or, set, if◌then◌else◌, iterate}
use lf_benchmarks.Double.{Double}
use lf_benchmarks.Mpc.Params.{Vector, opt_iter, opt_lr, eps, u_max, u_min, zero_f}
use lf_benchmarks.Mpc.Cost.{compute_cost}

module _ {F : Type 0} ⦃d : Double F⦄ where
  open d use {lit, add, sub, mul, div, lt}

  -- The two tests after an update, in their order.
  unfoldable pub saturate : F → F
  saturate u = let top = if lt u_max u then u_max else u in if lt top u_min then u_min else top

  -- The central difference at `u_seq[k]`.
  unfoldable pub gradient : Vector F → Vector F → List F → ℕ → F
  gradient x0 xref u_seq k =
      let u = get_or u_seq k zero_f in
      div
        (sub (compute_cost x0 xref (set u_seq k (add u eps)))
          (compute_cost x0 xref (set u_seq k (sub u eps))))
        (mul (lit 2 0) eps)

  -- The body of the loop over `k`.
  unfoldable pub descend : Vector F → Vector F → List F → ℕ → List F
  descend x0 xref u_seq k =
      set u_seq k (saturate (sub (get_or u_seq k zero_f) (mul opt_lr (gradient x0 xref u_seq k))))

  -- The loop over `k`, with `left` rounds to go.
  unfoldable pub sweep_from : Vector F → Vector F → (left k : ℕ) → List F → List F
  sweep_from x0 xref zero k u_seq = u_seq
  sweep_from x0 xref (suc left) k u_seq = sweep_from x0 xref left (suc k) (descend x0 xref u_seq k)

  unfoldable pub sweep : Vector F → Vector F → List F → List F
  sweep x0 xref u_seq = sweep_from x0 xref (length u_seq) 0 u_seq

  -- All the iterations.
  unfoldable pub optimize : Vector F → Vector F → List F → List F
  optimize x0 xref = iterate opt_iter (sweep x0 xref)

  -- The loop of the warm start, `u_seq[k] = u_seq[k+1]`, with `left` rounds to go.
  pub shift_from : (left k : ℕ) → List F → List F
  shift_from zero k u_seq = u_seq
  shift_from (suc left) k u_seq =
      shift_from left (suc k) (set u_seq k (get_or u_seq (suc k) zero_f))

  -- The loop, and the last row set to 0.
  unfoldable pub shift : List F → List F
  shift u_seq = let last = length u_seq - 1 in set (shift_from last 0 u_seq) last zero_f

  -- The control returned, and the sequence kept for the next call.
  unfoldable pub mpc_solve : Vector F → Vector F → List F → F × List F
  mpc_solve x0 xref u_seq =
      let solved = optimize x0 xref u_seq in (get_or solved 0 zero_f, shift solved)
