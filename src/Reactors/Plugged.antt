-- ===== src/Reactors/Plugged.antt =====
-- mpc/mpc-code/mpc-optimizer-model/mpc-code/mpc.lf: the reactors around a solver that is plugged
-- in, and mpc_solver.c as one. In a tag the reactions run by level: the reference, the sample, the
-- optimizer's two reactions and the plant's second.
pub mod Bounds
pub mod Equivalence
use lf_benchmarks.Common.{
  ℕ, ◌+◌, ◌*◌, Bool, true, false, Option, none, some, List, [], ◌∷◌, length, replicate, ◌==◌,
  if◌then◌else◌,
}
use lf_benchmarks.Double.{Double}
use lf_benchmarks.Mpc.Params.{Vector, horizon, zero_f, zero_vector}
use lf_benchmarks.Mpc.Solve.{mpc_solve}
use lf_benchmarks.Threaded.State.{noise}
use lf_benchmarks.Reactors.Main.{sec, msec}

-- A solver: what it keeps between calls, and `mpc_solve`.
pub record Solver (F : Type 0) : Type 1 where
  pub Memory : Type 0
  pub start : Memory
  pub solve : Vector F → Vector F → Memory → F × Memory

-- The states of Plant and Optimizer, and the solver's memory.
pub record Plugged (F M : Type 0) : Type 0 where
  pub plant_x : Vector F
  pub tick : ℕ
  pub current_ref : Vector F
  pub memory : M

module _ {F : Type 0} ⦃d : Double F⦄ where
  open d use {lit, add, mul}

  -- mpc_solver.c, with its static sequence.
  abbrev pub mpc_solver : Solver F
  mpc_solver = record { Memory = List F; start = replicate horizon zero_f; solve = mpc_solve }

  -- The reactions of Reference, in nanoseconds since the start.
  unfoldable pub plugged_reference : ℕ → Option (Vector F)
  plugged_reference time =
      if time == 0
      then some (record { c0 = zero_f; c1 = zero_f })
      else if time == sec 1
      then some (record { c0 = lit 1 0; c1 = zero_f })
      else if time == sec 3
      then some (record { c0 = lit 5 1; c1 = zero_f })
      else none

  -- The value that the first reaction of Plant sends.
  unfoldable pub plugged_sample : Vector F → ℕ → Vector F
  plugged_sample x tick =
      let n = noise tick in record { c0 = add x.c0 n; c1 = add x.c1 (mul n (lit 5 1)) }

  -- The second one.
  unfoldable pub plugged_actuate : Vector F → F → Vector F
  plugged_actuate x u_val = record {
    c0 = add (add (mul (lit 1 0) x.c0) (mul (lit 1 3) x.c1)) (mul (lit 5 7) u_val);
    c1 = add (add (mul (lit 0 0) x.c0) (mul (lit 1 0) x.c1)) (mul (lit 1 3) u_val);
  }

module _ {F : Type 0} ⦃d : Double F⦄ (solver : Solver F) where
  -- The first reaction of Optimizer, if its port is present.
  abbrev pub plugged_take : Option (Vector F) → Vector F → Vector F
  plugged_take none ref = ref
  plugged_take (some v) ref = v

  -- The second one, or its deadline handler.
  unfoldable pub plugged_optimize : Bool → Vector F → Vector F → solver.Memory → F × solver.Memory
  plugged_optimize true x0 xref memory = (zero_f, memory)
  plugged_optimize false x0 xref memory = solver.solve x0 xref memory

  -- A tag of the program: the control that it applies, and the state after it.
  unfoldable pub plugged_tag : Bool → ℕ → Plugged F solver.Memory → F × Plugged F solver.Memory
  plugged_tag missed time s =
      let x0 = plugged_sample s.plant_x s.tick in
      let ref = plugged_take (plugged_reference time) s.current_ref in
      let (u, memory) = plugged_optimize missed x0 ref s.memory in
      (
        u,
        record {
          plant_x = plugged_actuate s.plant_x u;
          tick = s.tick + 1;
          current_ref = ref;
          memory = memory;
        },
      )

  abbrev pub plugged_initial : Plugged F solver.Memory
  plugged_initial = record {
    plant_x = zero_vector;
    tick = 0;
    current_ref = zero_vector;
    memory = solver.start;
  }

  -- The tags of whole milliseconds, with whether the deadline was missed in them, the latest first:
  -- the controls that were applied, the latest first, and the state.
  unfoldable pub plugged_run : List Bool → List F × Plugged F solver.Memory
  plugged_run [] = ([], plugged_initial)
  plugged_run (missed ∷ earlier) =
      let before = plugged_run earlier in
      let now = plugged_tag missed (length earlier * msec 1) before.1 in (now.0 ∷ before.0, now.1)
