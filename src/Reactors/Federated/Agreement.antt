-- ===== src/Reactors/Federated/Agreement.antt =====
-- The federates and the control loop of their program.
use lf_benchmarks.Common.{
  ℕ, suc, ◌*◌, ◌≡◌, refl, ◌∙◌, ap, Bool, true, false, Option, none, some, List, [], ◌∷◌, ◌++◌,
  length, inl, inr,
}
use std.Path.{subst}
use lf_benchmarks.Double.{Double}
use lf_benchmarks.Mpc.Params.{Vector}
use lf_benchmarks.Reactors.Main.{msec}
use lf_benchmarks.Reactors.Loop.{Loop, reference_at, sample, control, loop_step, closed_loop}
use lf_benchmarks.Reactors.Federated.{
  PlantPhase, OptimizerPhase, Federation, fed_reference, fed_sample, fed_take, fed_solve, FedReach,
  fed_start, fed_refer, fed_sense, fed_retarget, fed_optimize, fed_actuate,
}
use lf_benchmarks.Reactors.Federated.Phases.{
  OptimizerAgrees, PlantAgrees, Sampled-head, PlantAgrees-actuate, OptimizerAgrees-refer,
  OptimizerAgrees-retarget,
}

module _ {F : Type 0} ⦃d : Double F⦄ where
  -- A federation whose optimizer has finished the tags of `ms`.
  unfoldable pub Synchronized : List Bool → Federation F → Type 0
  Synchronized ms f =
      let l = closed_loop ms in
      (f.u_seq ≡ l.u_seq)
      × OptimizerAgrees f.optimizer_phase (length ms) l f.x_ref f.ref_tag f.current_ref
      × PlantAgrees f.plant_phase l f.x f.u f.plant_x f.tick

  fed_take-elim :
      (set : Option (Vector F)) (ref : Vector F)
      → fed_take set ref ≡ (elim set [ none ↦ ref | some v ↦ v ])
  fed_take-elim none ref = refl
  fed_take-elim (some v) ref = refl

  fed_reference-reference_at : (time : ℕ) → fed_reference {F = F} time ≡ reference_at time
  unfolding fed_reference reference_at
  fed_reference-reference_at time = refl

  fed_solve-control :
      (missed : Bool) (x0 ref : Vector F) (u_seq : List F)
      → fed_solve missed x0 ref u_seq ≡ control missed x0 ref u_seq
  unfolding fed_solve
  fed_solve-control true x0 ref u_seq = refl
  fed_solve-control false x0 ref u_seq = refl

  fed_sample-sample : (x : Vector F) (tick : ℕ) → fed_sample x tick ≡ sample x tick
  unfolding fed_sample
  fed_sample-sample x tick = refl

  OptimizerAgrees-next :
      (missed : Bool) (n : ℕ) (l : Loop F) (x_ref : List (Option (Vector F))) (ref_tag : ℕ)
      (current_ref : Vector F)
      → OptimizerAgrees OptimizerPhase.waits_x n l x_ref ref_tag current_ref
      → OptimizerAgrees OptimizerPhase.waits_ref
          (suc n)
          (loop_step missed (reference_at (n * msec 1)) l)
          x_ref
          ref_tag
          current_ref
  OptimizerAgrees-next missed n l x_ref ref_tag current_ref (q, c) = (
    q,
    c
        ∙ rw (fed_reference-reference_at (n * msec 1))
            (fed_take-elim (reference_at (n * msec 1)) l.current_ref),
  )

  -- What the optimizer solves is the loop's next step, so its control moves the plant to where the
  -- loop has it.
  solve-loop_step :
      (missed : Bool) (n : ℕ) (l : Loop F) (x0 current_ref : Vector F) (u_seq : List F)
      → x0 ≡ fed_sample l.plant_x l.tick
      → current_ref ≡ fed_take (fed_reference (n * msec 1)) l.current_ref
      → u_seq ≡ l.u_seq
      → let next = loop_step missed (reference_at (n * msec 1)) l in
        fed_solve missed x0 current_ref u_seq ≡ (next.u_apply.value, next.u_seq)
  solve-loop_step missed n l x0 current_ref u_seq a b c =
      let set = reference_at (n * msec 1) in
      let ref : Vector F = elim set [ none ↦ l.current_ref | some v ↦ v ] in
      let agree : fed_solve missed x0 current_ref u_seq
          ≡ control missed (sample l.plant_x l.tick) ref l.u_seq =
        rw
          (
            a,
            b,
            c,
            fed_sample-sample l.plant_x l.tick,
            fed_reference-reference_at (n * msec 1),
            fed_take-elim set l.current_ref,
          )
          (fed_solve-control missed _ _ _) in
      agree

  PlantAgrees-optimize :
      (p : PlantPhase) (missed : Bool) (set : Option (Vector F)) (l : Loop F) (x0 : Vector F)
      (rest : List (Vector F)) (u : List F) (plant_x : Vector F) (tick : ℕ)
      → PlantAgrees p l (x0 ∷ rest) u plant_x tick
      → let next = loop_step missed set l in
        PlantAgrees p next rest (u ++ (next.u_apply.value ∷ [])) plant_x tick
  PlantAgrees-optimize PlantPhase.samples missed set l x0 rest u plant_x tick (e, _, _, _) =
      absurd cc
  PlantAgrees-optimize PlantPhase.waits missed set l x0 rest u plant_x tick (inl (e, f, g, h)) =
      inr (cc, rw f refl, rw g refl, h)
  PlantAgrees-optimize PlantPhase.waits missed set l x0 rest u plant_x tick (inr (e, _, _, _)) =
      absurd cc

  Synchronized-refer :
      (ms : List Bool) (f : Federation F)
      → Synchronized ms f
      → Synchronized ms (record f {
        x_ref = f.x_ref ++ (fed_reference (f.ref_tag * msec 1) ∷ []);
        ref_tag = suc f.ref_tag;
      })
  unfolding Synchronized
  Synchronized-refer ms f (us, opt, plant) =
      (us, OptimizerAgrees-refer f.optimizer_phase (length ms) (closed_loop ms) _ _ _ opt, plant)

  -- In whatever order the federates run, their states are those of the control loop of the
  -- single program after the tags that the optimizer has finished, with the same deadlines missed:
  -- its sequence and, between tags, its reference; the plant's position and tick between tags, and
  -- within a tag its sample or the control that brings it to the loop's position is on the way.
  -- The queue of references is the unread rest of what Reference sends.
  pub FedReach-Synchronized :
      {ms : List Bool} {f : Federation F} → FedReach ms f → Synchronized ms f
  unfolding Synchronized
  FedReach-Synchronized fed_start = (refl, ((0, refl, refl), refl), (refl, refl, refl, refl))
  FedReach-Synchronized {ms = ms} (fed_refer {f = f} r) =
      Synchronized-refer ms f (FedReach-Synchronized r)
  FedReach-Synchronized {ms = ms} (fed_sense {f = f} r h) =
      let (us, opt, plant) = FedReach-Synchronized r in
      let (x, u, p, t) =
        subst (λ z. PlantAgrees z (closed_loop ms) f.x f.u f.plant_x f.tick) h plant in
      (us, opt, inl (rw (x, p, t) refl, u, p, rw t refl))
  FedReach-Synchronized {ms = ms} (fed_retarget {f = f} {known = known} {rest = rest} r h e) =
      let (us, opt, plant) = FedReach-Synchronized r in
      let now =
        subst (λ z. OptimizerAgrees z (length ms) (closed_loop ms) f.x_ref f.ref_tag f.current_ref)
          h opt in
      let read =
        subst
          (λ z.
            OptimizerAgrees OptimizerPhase.waits_ref (length ms) (closed_loop ms) z f.ref_tag
              f.current_ref)
          e now in
      (
        us,
        OptimizerAgrees-retarget (length ms) (closed_loop ms) known rest f.ref_tag f.current_ref
            read,
        plant,
      )
  FedReach-Synchronized (fed_optimize {ms = ms} {f = f} {x0 = x0} {rest = rest} missed r h e) =
      let (us, opt, plant) = FedReach-Synchronized r in
      let l = closed_loop ms in
      let now =
        subst (λ z. OptimizerAgrees z (length ms) l f.x_ref f.ref_tag f.current_ref) h opt in
      let read = subst (λ z. PlantAgrees f.plant_phase l z f.u f.plant_x f.tick) e plant in
      let solved =
        solve-loop_step missed (length ms) l x0 f.current_ref f.u_seq
          (Sampled-head f.plant_phase l x0 rest f.u f.plant_x f.tick read) now.1 us in
      (
        ap (λ z. z.1) solved,
        OptimizerAgrees-next missed (length ms) l f.x_ref f.ref_tag f.current_ref now,
        rw solved (
            PlantAgrees-optimize f.plant_phase missed (reference_at (length ms * msec 1)) l x0 rest
              f.u f.plant_x f.tick read),
      )
  FedReach-Synchronized {ms = ms} (fed_actuate {f = f} {u_val = u_val} r h e) =
      let (us, opt, plant) = FedReach-Synchronized r in
      let agrees = subst (λ z. PlantAgrees z (closed_loop ms) f.x f.u f.plant_x f.tick) h plant in
      let read =
        subst (λ z. PlantAgrees PlantPhase.waits (closed_loop ms) f.x z f.plant_x f.tick) e
          agrees in
      (us, opt, PlantAgrees-actuate (closed_loop ms) f.x u_val _ f.plant_x f.tick read)
