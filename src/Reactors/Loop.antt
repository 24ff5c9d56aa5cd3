-- ===== src/Reactors/Loop.antt =====
-- The control loop that the reactors are to implement, for the tags of `t`, one each millisecond.
pub mod Order
pub mod Tags
pub mod Runs
use lf_benchmarks.Common.{
  ℕ, ◌+◌, ◌*◌, Bool, true, false, Option, none, some, List, [], ◌∷◌, length, ◌==◌, if◌then◌else◌,
}
use lf_benchmarks.Double.{Double}
use lf_benchmarks.Mpc.Params.{Vector, zero_f}
use lf_benchmarks.Mpc.Solve.{mpc_solve}
use lf_benchmarks.Threaded.State.{noise, plant_step}
use lf_benchmarks.Reactors.Types.{Port}
use lf_benchmarks.Reactors.Main.{Program, initialize, sec, msec}

-- The data of the program; its tables stay as they were initialized.
pub record Loop (F : Type 0) : Type 0 where
  pub x_ref : Port (Vector F)
  pub plant_x : Vector F
  pub tick : ℕ
  pub x : Port (Vector F)
  pub current_ref : Vector F
  pub u_seq : List F
  pub u_apply : Port F

abbrev pub absent : {V : Type 0} → Port V → Port V
absent p = record p { is_present = false }

abbrev pub present : {V : Type 0} → V → Port V → Port V
present v p = record p { value = v; is_present = true }

module _ {F : Type 0} ⦃d : Double F⦄ where
  open d use {add, mul, lit}

  abbrev pub wired : Loop F → Program F
  wired s =
      let base : Program F = initialize in
      record base {
        reference = record (base.reference) { x_ref = s.x_ref };
        plant = record (base.plant) { plant_x = s.plant_x; tick = s.tick; x = s.x };
        optimizer = record (base.optimizer) {
          current_ref = s.current_ref;
          u_seq = s.u_seq;
          u_apply = s.u_apply;
        };
      }

  abbrev pub first_loop : Loop F
  first_loop =
      let p : Program F = initialize in
      record {
        x_ref = p.reference.x_ref;
        plant_x = p.plant.plant_x;
        tick = p.plant.tick;
        x = p.plant.x;
        current_ref = p.optimizer.current_ref;
        u_seq = p.optimizer.u_seq;
        u_apply = p.optimizer.u_apply;
      }

  -- The reference that is set at a time.
  unfoldable pub reference_at : ℕ → Option (Vector F)
  reference_at time =
      if time == 0
      then some (record { c0 = zero_f; c1 = zero_f })
      else if time == sec 1
      then some (record { c0 = lit 1 0; c1 = zero_f })
      else if time == sec 3
      then some (record { c0 = lit 5 1; c1 = zero_f })
      else none

  -- The sample of the plant.
  abbrev pub sample : Vector F → ℕ → Vector F
  sample x tick = let n = noise tick in record { c0 = add x.c0 n; c1 = add x.c1 (mul n (lit 5 1)) }

  -- The control and the sequence kept for the next solve.
  abbrev pub control : Bool → Vector F → Vector F → List F → F × List F
  control true x0 ref us = (zero_f, us)
  control false x0 ref us = mpc_solve x0 ref us

  -- One sample of the loop: the reference that is set at this tag is already used by this solve, and
  -- the control moves the plant at the same tag.
  abbrev pub loop_step : Bool → Option (Vector F) → Loop F → Loop F
  loop_step missed set s =
      let x0 = sample s.plant_x s.tick in
      let ref : Vector F = elim set [ none ↦ s.current_ref | some v ↦ v ] in
      let solved = control missed x0 ref s.u_seq in
      record {
        x_ref = elim set [ none ↦ absent s.x_ref | some v ↦ present v s.x_ref ];
        plant_x = plant_step s.plant_x solved.0;
        tick = s.tick + 1;
        x = present x0 s.x;
        current_ref = ref;
        u_seq = solved.1;
        u_apply = present solved.0 s.u_apply;
      }

  -- The loop after a sample for each element; it says whether the deadline was missed in it, the
  -- latest first.
  abbrev pub closed_loop : List Bool → Loop F
  closed_loop [] = first_loop
  closed_loop (missed ∷ earlier) =
      loop_step missed (reference_at (length earlier * msec 1)) (closed_loop earlier)
