-- ===== src/Reactors/Federated.antt =====
-- mpc/mpc-code/mpc-lf-federated/mpc_fed.lf: the reactors as three federates, with a queue for each of
-- the logical connections. The documented contract of the federated runtime for them: a federate
-- handles its tags in order, and goes past the point in a tag where an input is read only once it
-- knows of that input at that tag, whether it is present or absent. Otherwise the federates run in
-- any order, and none waits for those behind it.
pub mod Phases
pub mod Agreement
pub mod Progress
use lf_benchmarks.Common.{
  ℕ, suc, ◌+◌, ◌*◌, ◌≡◌, Bool, true, false, Option, none, some, List, [], ◌∷◌, ◌++◌, replicate,
  ◌==◌, if◌then◌else◌,
}
use lf_benchmarks.Double.{Double}
use lf_benchmarks.Mpc.Params.{Vector, horizon, zero_f, zero_vector}
use lf_benchmarks.Mpc.Solve.{mpc_solve}
use lf_benchmarks.Threaded.State.{noise, plant_step}
use lf_benchmarks.Reactors.Main.{sec, msec}

-- The plant at a tag: its first reaction is due, or it waits to know of `u`.
pub data PlantPhase : Type 0 where
  samples waits : PlantPhase

-- The optimizer at a tag: it waits to know of `x_ref_in`, or then of `x_current`.
pub data OptimizerPhase : Type 0 where
  waits_ref waits_x : OptimizerPhase

-- The states of the reactors, and what is on its way between them. A queue holds what is known of an
-- input at the tags that its reader has not handled.
pub record Federation (F : Type 0) : Type 0 where
  pub ref_tag : ℕ
  pub plant_x : Vector F
  pub tick : ℕ
  pub plant_phase : PlantPhase
  pub current_ref : Vector F
  pub u_seq : List F
  pub optimizer_phase : OptimizerPhase
  pub x_ref : List (Option (Vector F))
  pub x : List (Vector F)
  pub u : List F

module _ {F : Type 0} ⦃d : Double F⦄ where
  open d use {lit, add, mul}

  -- The reactions of Reference, in nanoseconds since the start: to `startup`, to `t1` and to `t2`.
  unfoldable pub fed_reference : ℕ → Option (Vector F)
  fed_reference time =
      if time == 0
      then some (record { c0 = zero_f; c1 = zero_f })
      else if time == sec 1
      then some (record { c0 = lit 1 0; c1 = zero_f })
      else if time == sec 3
      then some (record { c0 = lit 5 1; c1 = zero_f })
      else none

  -- The value that the first reaction of Plant sends.
  unfoldable pub fed_sample : Vector F → ℕ → Vector F
  fed_sample x tick =
      let n = noise tick in record { c0 = add x.c0 n; c1 = add x.c1 (mul n (lit 5 1)) }

  -- The first reaction of Optimizer, if its port is present.
  abbrev pub fed_take : Option (Vector F) → Vector F → Vector F
  fed_take none ref = ref
  fed_take (some v) ref = v

  -- The second one, or its deadline handler.
  unfoldable pub fed_solve : Bool → Vector F → Vector F → List F → F × List F
  fed_solve true x0 xref u_seq = (zero_f, u_seq)
  fed_solve false x0 xref u_seq = mpc_solve x0 xref u_seq

  abbrev pub fed_initial : Federation F
  fed_initial = record {
    ref_tag = 0;
    plant_x = zero_vector;
    tick = 0;
    plant_phase = PlantPhase.samples;
    current_ref = zero_vector;
    u_seq = replicate horizon zero_f;
    optimizer_phase = OptimizerPhase.waits_ref;
    x_ref = [];
    x = [];
    u = [];
  }

  -- The federations that can be reached, with the deadlines missed in the optimizer's solves, the
  -- latest first.
  pub data FedReach : List Bool → Federation F → Type 0 where
    fed_start : FedReach [] fed_initial
    fed_refer :
        {ms : List Bool} {f : Federation F}
        → FedReach ms f
        → FedReach ms (record f {
          x_ref = f.x_ref ++ (fed_reference (f.ref_tag * msec 1) ∷ []);
          ref_tag = suc f.ref_tag;
        })
    fed_sense :
        {ms : List Bool} {f : Federation F}
        → FedReach ms f
        → f.plant_phase ≡ PlantPhase.samples
        → FedReach ms (record f {
          x = f.x ++ (fed_sample f.plant_x f.tick ∷ []);
          tick = f.tick + 1;
          plant_phase = PlantPhase.waits;
        })
    fed_retarget :
        {ms : List Bool} {f : Federation F} {known : Option (Vector F)}
        {rest : List (Option (Vector F))}
        → FedReach ms f
        → f.optimizer_phase ≡ OptimizerPhase.waits_ref
        → f.x_ref ≡ known ∷ rest
        → FedReach ms (record f {
          x_ref = rest;
          current_ref = fed_take known f.current_ref;
          optimizer_phase = OptimizerPhase.waits_x;
        })
    fed_optimize :
        {ms : List Bool} {f : Federation F} {x0 : Vector F} {rest : List (Vector F)} (missed : Bool)
        → FedReach ms f
        → f.optimizer_phase ≡ OptimizerPhase.waits_x
        → f.x ≡ x0 ∷ rest
        → FedReach (missed ∷ ms) (record f {
          x = rest;
          u = f.u ++ ((fed_solve missed x0 f.current_ref f.u_seq).0 ∷ []);
          u_seq = (fed_solve missed x0 f.current_ref f.u_seq).1;
          optimizer_phase = OptimizerPhase.waits_ref;
        })
    fed_actuate :
        {ms : List Bool} {f : Federation F} {u_val : F} {rest : List F}
        → FedReach ms f
        → f.plant_phase ≡ PlantPhase.waits
        → f.u ≡ u_val ∷ rest
        → FedReach ms (record f {
          u = rest;
          plant_x = plant_step f.plant_x u_val;
          plant_phase = PlantPhase.samples;
        })
