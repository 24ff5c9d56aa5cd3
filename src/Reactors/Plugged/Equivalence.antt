-- ===== src/Reactors/Plugged/Equivalence.antt =====
-- The program around mpc_solver.c, and the control loop.
use lf_benchmarks.Common.{
  ◌≡◌, refl, ap, ◌+◌, ◌∙◌, ◌*◌, Bool, true, false, Option, none, some, List, [], ◌∷◌, length, ℕ,
}
use lf_benchmarks.Double.{Double}
use lf_benchmarks.Mpc.Params.{Vector}
use lf_benchmarks.Threaded.State.{plant_step}
use lf_benchmarks.Reactors.Main.{msec}
use lf_benchmarks.Reactors.Loop.{Loop, reference_at, sample, control, closed_loop, loop_step}
use lf_benchmarks.Reactors.Plugged.{
  Plugged, mpc_solver, plugged_reference, plugged_sample, plugged_actuate, plugged_take,
  plugged_optimize, plugged_tag, plugged_run,
}

-- The program's literal `0.0000005` is the product `0.5 * DT * DT` of mpc_solver.c.
abbrev pub IsHalfSquare : {F : Type 0} → Double F → Type 0
IsHalfSquare d = d.mul (d.mul (d.lit 5 1) (d.lit 1 3)) (d.lit 1 3) ≡ d.lit 5 7

module _ {F : Type 0} ⦃d : Double F⦄ where
  take-elim :
      (set : Option (Vector F)) (ref : Vector F)
      → plugged_take mpc_solver set ref ≡ (elim set [ none ↦ ref | some v ↦ v ])
  take-elim none ref = refl
  take-elim (some v) ref = refl

  plugged_actuate-plant_step :
      IsHalfSquare d → (x : Vector F) (u : F) → plugged_actuate x u ≡ plant_step x u
  unfolding plugged_actuate plant_step
  plugged_actuate-plant_step e x u = rw e refl

  plugged_optimize-control :
      (missed : Bool) (x0 ref : Vector F) (us : List F)
      → plugged_optimize mpc_solver missed x0 ref us ≡ control missed x0 ref us
  unfolding plugged_optimize
  plugged_optimize-control true x0 ref us = refl
  plugged_optimize-control false x0 ref us = refl

  abbrev pub of_loop : Loop F → Plugged F (List F)
  of_loop l = record {
    plant_x = l.plant_x;
    tick = l.tick;
    current_ref = l.current_ref;
    memory = l.u_seq;
  }

  tag-loop_step :
      IsHalfSquare d
      → (missed : Bool) (time : ℕ) (l : Loop F)
      → let next = loop_step missed (reference_at time) l in
        plugged_tag mpc_solver missed time (of_loop l) ≡ (next.u_apply.value, of_loop next)
  unfolding plugged_tag plugged_sample plugged_reference reference_at
  tag-loop_step e missed time l =
      let set : Option (Vector F) = reference_at time in
      let ref : Vector F = elim set [ none ↦ l.current_ref | some v ↦ v ] in
      let x0 = sample l.plant_x l.tick in
      let refs : plugged_take mpc_solver set l.current_ref ≡ ref = take-elim set l.current_ref in
      let solved = plugged_optimize-control missed x0 ref l.u_seq in
      let u = (control missed x0 ref l.u_seq).0 in
      let ends : Vector F → Vector F → F × List F → F × Plugged F (List F) =
        λ r x c. (c.0, record { plant_x = x; tick = l.tick + 1; current_ref = r; memory = c.1 }) in
      let moved : Vector F → F × List F → F × Plugged F (List F) =
        λ r c. ends r (plugged_actuate l.plant_x c.0) c in
      ap (λ r. moved r (plugged_optimize mpc_solver missed x0 r l.u_seq)) refs
      ∙ ap (moved ref) solved
      ∙ ap (λ x. ends ref x (control missed x0 ref l.u_seq))
          (plugged_actuate-plant_step e l.plant_x u)

  -- The controls of the loop, the latest first.
  abbrev pub loop_controls : List Bool → List F
  loop_controls [] = []
  loop_controls (missed ∷ earlier) =
      (closed_loop (missed ∷ earlier)).u_apply.value ∷ loop_controls earlier

  -- If the literal `0.0000005` is what `0.5 * DT * DT` computes to, the program of mpc.lf with
  -- mpc_solver.c plugged in applies the controls of the control loop and reaches its states,
  -- whichever deadlines are missed.
  pub plugged_run-closed_loop :
      IsHalfSquare d
      → (ms : List Bool) → plugged_run mpc_solver ms ≡ (loop_controls ms, of_loop (closed_loop ms))
  unfolding plugged_run
  plugged_run-closed_loop e [] = refl
  plugged_run-closed_loop e (missed ∷ earlier) =
      let next : List F × Plugged F (List F) → List F × Plugged F (List F) = λ before.
        let now = plugged_tag mpc_solver missed (length earlier * msec 1) before.1 in
        (now.0 ∷ before.0, now.1) in
      ap next (plugged_run-closed_loop e earlier)
      ∙ ap (λ r. (r.0 ∷ loop_controls earlier, r.1))
          (tag-loop_step e missed (length earlier * msec 1) (closed_loop earlier))
