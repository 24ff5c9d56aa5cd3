-- ===== src/Reactors/Plugged/Bounds.antt =====
-- The controls of the program around any solver that promises bounded ones.
use lf_benchmarks.Common.{◌≡◌, Bool, true, false, List, [], ◌∷◌, length, All, length-replicate}
use lf_benchmarks.Double.{Double, IsOrdered}
use lf_benchmarks.Mpc.Params.{Vector, horizon, zero_f}
use lf_benchmarks.Mpc.Solve.Bounds.{IsBounded, zero-IsBounded, mpc_solve-IsBounded}
use lf_benchmarks.Reactors.Plugged.{Solver, mpc_solver, plugged_optimize, plugged_tag, plugged_run}

module _ {F : Type 0} ⦃d : Double F⦄ where
  -- What a solver must promise: something that its memory keeps, under which every control that it
  -- returns is NaN or within the limits, whatever it is asked.
  pub record Promises (solver : Solver F) : Type 1 where
    pub Keeps : solver.Memory → Type 0
    pub from_start : Keeps solver.start
    pub bounded :
        (x0 xref : Vector F) (m : solver.Memory) → Keeps m → IsBounded (solver.solve x0 xref m).0
    pub keeps :
        (x0 xref : Vector F) (m : solver.Memory) → Keeps m → Keeps (solver.solve x0 xref m).1

  pub mpc_solver-Promises : IsOrdered d → Promises mpc_solver
  mpc_solver-Promises o = record {
    Keeps = λ us. length us ≡ horizon;
    from_start = length-replicate {A = F} horizon zero_f;
    bounded = λ x0 xref us h. (mpc_solve-IsBounded o x0 xref us h).0;
    keeps = λ x0 xref us h. (mpc_solve-IsBounded o x0 xref us h).1.rows;
  }

  module _ (o : IsOrdered d) (solver : Solver F) (p : Promises solver) where
    optimize-Keeps :
        (missed : Bool) (x0 xref : Vector F) (m : solver.Memory)
        → p.Keeps m
        → IsBounded (plugged_optimize solver missed x0 xref m).0
          × p.Keeps (plugged_optimize solver missed x0 xref m).1
    unfolding plugged_optimize
    optimize-Keeps true x0 xref m h = (zero-IsBounded o, h)
    optimize-Keeps false x0 xref m h = (p.bounded x0 xref m h, p.keeps x0 xref m h)

    run-Keeps :
        (ms : List Bool)
        → All IsBounded (plugged_run solver ms).0 × p.Keeps (plugged_run solver ms).1.memory
    unfolding plugged_run plugged_tag
    run-Keeps [] = (tt, p.from_start)
    run-Keeps (missed ∷ earlier) =
        let (applied, memory) = run-Keeps earlier in
        let (b, k) = optimize-Keeps missed _ _ _ memory in ((b, applied), k)

    -- With a solver that keeps its promises plugged in, every control that the program applies is
    -- NaN or within the limits, whichever deadlines are missed.
    plugged-IsBounded : (ms : List Bool) → All IsBounded (plugged_run solver ms).0
    plugged-IsBounded ms = (run-Keeps ms).0
