-- ===== src/Threaded/Invariant.antt =====
-- What holds in every state that the threads can reach, in whatever order they run.
use lf_benchmarks.Common.{
  ◌≤◌, ◌≡◌, refl, Bool, true, false, List, arith, ltb, All-get_or, get_or, All-replicate, replicate,
  length-replicate,
}
use lf_benchmarks.Double.{Double, IsOrdered}
use lf_benchmarks.Mpc.Params.{horizon, zero_f}
use lf_benchmarks.Mpc.Solve.Bounds.{
  IsBounded, IsControl, zero-IsBounded, optimize-IsControl, shift-IsControl,
}
use lf_benchmarks.Threaded.State.{
  SharedState, max_ticks, sense_position, sense_rest, apply_first, publish, set_reference,
}
use lf_benchmarks.Threaded.System.{
  Sensor, Prediction, Optimizer, Actuator, System, initial, Step, Reach, start, next,
}

module _ {F : Type 0} ⦃d : Double F⦄ where
  -- The controls that the optimizer and the actuator hold in their locals.
  abbrev pub HoldsControl : Optimizer F → Type 0
  HoldsControl (Optimizer.enters us) = IsControl us
  HoldsControl (Optimizer.solves us x0 xref) = IsControl us
  HoldsControl (Optimizer.solved us) = IsControl us
  HoldsControl Optimizer.stopped = Unit

  abbrev pub HoldsBounded : Actuator F → Type 0
  HoldsBounded (Actuator.applies u tick last) = IsBounded u
  HoldsBounded _ = Unit

  pub record IsSafe (s : System F) : Type 0 where
    pub sequence : IsControl s.shared.u_sequence
    pub applied : IsBounded s.shared.u_applied
    pub held : HoldsControl s.optimizer
    pub pending : HoldsBounded s.actuator

  -- While the sensor is inside its critical section the program still runs, and once it has ended
  -- the program does not.
  abbrev pub SensorRuns : Sensor F → Bool → Type 0
  SensorRuns (Sensor.holds n) running = running ≡ true
  SensorRuns Sensor.sleeps running = Unit
  SensorRuns Sensor.stopped running = running ≡ false

  -- The prediction thread waits only while there is nothing for it to do.
  abbrev pub WaitsRightly : Prediction F → SharedState F → Type 0
  WaitsRightly Prediction.waits g = (g.new_measurement ≡ false) × (g.running ≡ true)
  WaitsRightly _ g = Unit

  pub record IsTimed (s : System F) : Type 0 where
    pub counted : s.shared.running ≡ ltb s.shared.tick max_ticks
    pub within : s.shared.tick ≤ max_ticks
    pub sensing : SensorRuns s.sensor s.shared.running
    pub awake : WaitsRightly s.prediction s.shared

  IsTimed-initial : IsTimed initial
  IsTimed-initial = record { counted = refl; within = omega arith; sensing = tt; awake = tt }

  Step-IsTimed : {s t : System F} → Step s t → IsTimed s → IsTimed t
  unfolding sense_position sense_rest apply_first publish set_reference
  Step-IsTimed (Step.sensor_begin e r) i = ground arith
  Step-IsTimed (Step.sensor_end e) i = ground arith
  Step-IsTimed (Step.sensor_stop e r) i = ground arith
  Step-IsTimed (Step.prediction_wait e f m) i = ground arith
  Step-IsTimed (Step.prediction_wake e) i = ground arith
  Step-IsTimed (Step.prediction_take e f m r) i = ground arith
  Step-IsTimed (Step.prediction_compute e) i = ground arith
  Step-IsTimed (Step.prediction_stop e f r) i = ground arith
  Step-IsTimed (Step.optimizer_read e f r) i = ground arith
  Step-IsTimed (Step.optimizer_solve e) i = ground arith
  Step-IsTimed (Step.optimizer_publish e f) i = ground arith
  Step-IsTimed (Step.optimizer_stop e f r) i = ground arith
  Step-IsTimed (Step.actuator_apply e f r) i = ground arith
  Step-IsTimed (Step.actuator_position e) i = ground arith
  Step-IsTimed (Step.actuator_velocity e) i = ground arith
  Step-IsTimed (Step.actuator_stop e f r) i = ground arith
  Step-IsTimed (Step.reference_first e f) i = ground arith
  Step-IsTimed (Step.reference_second e f) i = ground arith

  -- In every state that the threads can reach, in whatever order they run: `running` is true exactly
  -- while `tick` is below MAX_TICKS, `tick` never exceeds it, the sensor is inside its critical
  -- section only while `running` is true and has ended only when it is false, and the prediction
  -- thread waits only while there is no new measurement and `running` is true, so it misses no
  -- signal.
  pub Reach-IsTimed : {s : System F} → Reach s → IsTimed s
  Reach-IsTimed start = IsTimed-initial
  Reach-IsTimed (next r st) = Step-IsTimed st (Reach-IsTimed r)

  module _ (o : IsOrdered d) where
    replicate-IsControl : IsControl {F = F} (replicate horizon zero_f)
    replicate-IsControl = record {
      rows = length-replicate {A = F} horizon zero_f;
      bounded = All-replicate {A = F} IsBounded horizon zero_f (zero-IsBounded o);
    }

    IsSafe-initial : IsSafe initial
    IsSafe-initial = record {
      sequence = replicate-IsControl;
      applied = zero-IsBounded o;
      held = replicate-IsControl;
      pending = tt;
    }

    first-IsBounded : (us : List F) → IsControl us → IsBounded (get_or us 0 zero_f)
    first-IsBounded us c = All-get_or IsBounded us 0 zero_f c.bounded (zero-IsBounded o)

    Step-IsSafe : {s t : System F} → Step s t → IsSafe s → IsSafe t
    unfolding sense_position sense_rest apply_first publish set_reference
    Step-IsSafe (Step.sensor_begin e r) i = record {
      sequence = i.sequence;
      applied = i.applied;
      held = i.held;
      pending = i.pending;
    }
    Step-IsSafe {s} (Step.optimizer_read {us} e f r) i = record {
      sequence = i.sequence;
      applied = i.applied;
      held = rw e at (i.held);
      pending = i.pending;
    }
    Step-IsSafe {s} (Step.optimizer_solve {us} {x0} {xref} e) i =
        let c : IsControl us = rw e at (i.held) in
        record {
          sequence = i.sequence;
          applied = i.applied;
          held = optimize-IsControl o x0 xref us c.rows;
          pending = i.pending;
        }
    Step-IsSafe {s} (Step.optimizer_publish {us} e f) i =
        let c : IsControl us = rw e at (i.held) in
        record {
          sequence = c;
          applied = i.applied;
          held = shift-IsControl o us c;
          pending = i.pending;
        }
    Step-IsSafe (Step.optimizer_stop e f r) i = record {
      sequence = i.sequence;
      applied = i.applied;
      held = tt;
      pending = i.pending;
    }
    Step-IsSafe {s} (Step.actuator_apply e f r) i =
        let b = first-IsBounded s.shared.u_sequence i.sequence in
        record { sequence = i.sequence; applied = b; held = i.held; pending = b }
    Step-IsSafe (Step.actuator_position e) i = record {
      sequence = i.sequence;
      applied = i.applied;
      held = i.held;
      pending = tt;
    }
    Step-IsSafe (Step.actuator_velocity e) i = record {
      sequence = i.sequence;
      applied = i.applied;
      held = i.held;
      pending = tt;
    }
    Step-IsSafe (Step.actuator_stop e f r) i = record {
      sequence = i.sequence;
      applied = i.applied;
      held = i.held;
      pending = tt;
    }
    Step-IsSafe _ i = record {
      sequence = i.sequence;
      applied = i.applied;
      held = i.held;
      pending = i.pending;
    }

    -- In every state that the threads can reach, in whatever order they run, the control applied,
    -- the one that the actuator is about to apply and every row of the shared sequence and of the
    -- optimizer's own are NaN or within `[U_MIN, U_MAX]`, and both sequences have ten rows.
    pub Reach-IsSafe : {s : System F} → Reach s → IsSafe s
    Reach-IsSafe start = IsSafe-initial
    Reach-IsSafe (next r st) = Step-IsSafe st (Reach-IsSafe r)
