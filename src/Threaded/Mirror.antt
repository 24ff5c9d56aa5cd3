-- ===== src/Threaded/Mirror.antt =====
-- An interleaving of the threads of mpc_threaded.c that computes what the reactors compute.
pub mod Schedule
use std.Path.{subst}
use lf_benchmarks.Common.{
  ℕ, zero, suc, ◌+◌, ◌*◌, ◌≤◌, ◌<◌, ◌≡◌, refl, sym, ap, inl, inr, Bool, true, false, Bool-cases,
  Option, none, some, List, [], ◌∷◌, length, replicate, length-replicate, leb, ◌==◌, if◌then◌else◌,
  arith,
}
use lf_benchmarks.Double.{Double}
use lf_benchmarks.Mpc.Params.{Vector, horizon, zero_f, zero_vector}
use lf_benchmarks.Mpc.Solve.{optimize, mpc_solve}
use lf_benchmarks.Threaded.State.{
  max_ticks, printed, plant_step, sense_position, sense_rest, apply_first, publish, set_reference,
}
use lf_benchmarks.Threaded.System.{
  Sensor, Prediction, Optimizer, Actuator, Reference, System, Step, Reach, start, next, signal,
}
use lf_benchmarks.Reactors.Main.{sec, msec}
use lf_benchmarks.Reactors.Loop.{Loop, sample, loop_step, reference_at, closed_loop}

-- What the reactors have no counterpart of.
pub record Rest (F : Type 0) : Type 0 where
  pub x_current : Vector F
  pub u_sequence : List F
  pub new_measurement : Bool
  pub new_solution : Bool
  pub prediction : Prediction F
  pub last : ℕ
  pub reference : Reference

module _ {F : Type 0} where
  -- All threads between two rounds, with the data of the control loop.
  abbrev pub standing : Loop F → Rest F → System F
  standing l g = record {
    shared = record {
      x_current = g.x_current;
      x_reference = l.current_ref;
      u_sequence = g.u_sequence;
      u_applied = l.u_apply.value;
      new_measurement = g.new_measurement;
      new_solution = g.new_solution;
      running = true;
      tick = l.tick;
    };
    plant = l.plant_x;
    sensor = Sensor.sleeps;
    prediction = g.prediction;
    optimizer = Optimizer.enters l.u_seq;
    actuator = Actuator.sleeps g.last;
    reference = g.reference;
  }

module _ {F : Type 0} ⦃d : Double F⦄ where
  -- A state with the data of the loop can be reached, with the reference thread in a given place.
  pub record Mirrors (l : Loop F) (place : Reference) : Type 0 where
    pub rest : Rest F
    pub placed : rest.reference ≡ place
    pub reach : Reach (standing l rest)

  -- One round: the sensor, the optimizer, the actuator.
  pub round :
      (l : Loop F) (place : Reference)
      → Mirrors l place
      → l.tick + 1 < max_ticks
      → Mirrors (loop_step false none l) place
  unfolding sense_position sense_rest apply_first publish plant_step mpc_solve
  round l place m h =
      let begun = next m.reach (Step.sensor_begin refl refl) in
      let sensed = next begun (Step.sensor_end refl) in
      let going : (if leb max_ticks (l.tick + 1) then false else true) ≡ true = ground arith in
      let x0 = sample l.plant_x l.tick in
      let l1 : Loop F = record l { tick = l.tick + 1 } in
      let g1 : Rest F = record (m.rest) {
        x_current = x0;
        new_measurement = true;
        prediction = signal m.rest.prediction;
      } in
      let s1 = standing l1 g1 in
      let counted : Reach s1 =
        subst (λ b. Reach (record s1 { shared = record (s1.shared) { running = b } })) going
          sensed in
      let read = next counted (Step.optimizer_read refl refl refl) in
      let solved = next read (Step.optimizer_solve refl) in
      let published = next solved (Step.optimizer_publish refl refl) in
      let applied = next published (Step.actuator_apply refl refl refl) in
      let placed = next applied (Step.actuator_position refl) in
      record {
        rest = record g1 {
          u_sequence = optimize x0 l.current_ref l.u_seq;
          new_solution = true;
          last = printed (l.tick + 1) m.rest.last;
        };
        placed = m.placed;
        reach = next placed (Step.actuator_velocity refl);
      }

  -- A round before which the reference thread has moved on.
  pub first_round :
      (l : Loop F)
      → Mirrors l Reference.first
      → l.tick + 1 < max_ticks
      → Mirrors (loop_step false (some (record { c0 = d.lit 1 0; c1 = zero_f })) l) Reference.second
  unfolding set_reference
  first_round l m h =
      let v : Vector F = record { c0 = d.lit 1 0; c1 = zero_f } in
      let moved : Mirrors (record l { current_ref = v }) Reference.second = record {
        rest = record (m.rest) { reference = Reference.second };
        placed = refl;
        reach = next m.reach (Step.reference_first m.placed refl);
      } in
      let r = round (record l { current_ref = v }) Reference.second moved h in
      record { rest = r.rest; placed = r.placed; reach = r.reach }

  pub second_round :
      (l : Loop F)
      → Mirrors l Reference.second
      → l.tick + 1 < max_ticks
      → Mirrors
          (loop_step false (some (record { c0 = d.lit 5 1; c1 = zero_f })) l)
          Reference.stopped
  unfolding set_reference
  second_round l m h =
      let v : Vector F = record { c0 = d.lit 5 1; c1 = zero_f } in
      let moved : Mirrors (record l { current_ref = v }) Reference.stopped = record {
        rest = record (m.rest) { reference = Reference.stopped };
        placed = refl;
        reach = next m.reach (Step.reference_second m.placed refl);
      } in
      let r = round (record l { current_ref = v }) Reference.stopped moved h in
      record { rest = r.rest; placed = r.placed; reach = r.reach }
