-- ===== src/Threaded/Shutdown.antt =====
-- After the sensor has counted to MAX_TICKS every thread ends, in whatever order they run.
use lf_benchmarks.Common.{ℕ, ◌+◌, ◌≤◌, ◌<◌, ◌≡◌, Bool, true, refl, ◌⊎◌, inl, inr, false, arith}
use lf_benchmarks.Double.{Double}
use lf_benchmarks.Threaded.State.{sense_position, sense_rest, apply_first, publish, set_reference}
use lf_benchmarks.Threaded.System.{
  Sensor, Prediction, Optimizer, Actuator, Reference, System, Step, Reach, is_locked,
}
use lf_benchmarks.Threaded.Invariant.{IsTimed, Reach-IsTimed, WaitsRightly}

-- The steps that a thread still makes once `running` is false.
abbrev sensor_left : {F : Type 0} → Sensor F → ℕ
sensor_left Sensor.stopped = 0
sensor_left _ = 1

abbrev prediction_left : {F : Type 0} → Prediction F → ℕ
prediction_left Prediction.stopped = 0
prediction_left (Prediction.computes x0 us) = 2
prediction_left _ = 1

abbrev optimizer_left : {F : Type 0} → Optimizer F → ℕ
optimizer_left Optimizer.stopped = 0
optimizer_left (Optimizer.enters us) = 1
optimizer_left (Optimizer.solved us) = 2
optimizer_left (Optimizer.solves us x0 xref) = 3

abbrev actuator_left : {F : Type 0} → Actuator F → ℕ
actuator_left Actuator.stopped = 0
actuator_left (Actuator.sleeps last) = 1
actuator_left (Actuator.stores v tick last) = 2
actuator_left (Actuator.applies u tick last) = 3

abbrev reference_left : Reference → ℕ
reference_left Reference.stopped = 0
reference_left Reference.second = 1
reference_left Reference.first = 2

unfoldable pub steps_left : {F : Type 0} → System F → ℕ
steps_left s =
    sensor_left s.sensor
    + prediction_left s.prediction
    + optimizer_left s.optimizer
    + actuator_left s.actuator
    + reference_left s.reference

-- All five threads have returned.
abbrev pub HaveEnded : {F : Type 0} → System F → Type 0
HaveEnded s =
    (s.sensor ≡ Sensor.stopped)
    × (s.prediction ≡ Prediction.stopped)
    × (s.optimizer ≡ Optimizer.stopped)
    × (s.actuator ≡ Actuator.stopped)
    × (s.reference ≡ Reference.stopped)

module _ {F : Type 0} ⦃d : Double F⦄ where
  Step-steps_left :
      {s t : System F}
      → Step s t
      → IsTimed s
      → s.shared.running ≡ false
      → (t.shared.running ≡ false) × (steps_left t < steps_left s)
  unfolding sense_position sense_rest apply_first publish set_reference steps_left
  Step-steps_left (Step.sensor_begin e r) i q = ground arith
  Step-steps_left (Step.sensor_end e) i q = ground arith
  Step-steps_left (Step.sensor_stop e r) i q = ground arith
  Step-steps_left (Step.prediction_wait e f m) i q = ground arith
  Step-steps_left (Step.prediction_wake e) i q = ground arith
  Step-steps_left (Step.prediction_take e f m r) i q = ground arith
  Step-steps_left (Step.prediction_compute e) i q = ground arith
  Step-steps_left (Step.prediction_stop e f r) i q = ground arith
  Step-steps_left (Step.optimizer_read e f r) i q = ground arith
  Step-steps_left (Step.optimizer_solve e) i q = ground arith
  Step-steps_left (Step.optimizer_publish e f) i q = ground arith
  Step-steps_left (Step.optimizer_stop e f r) i q = ground arith
  Step-steps_left (Step.actuator_apply e f r) i q = ground arith
  Step-steps_left (Step.actuator_position e) i q = ground arith
  Step-steps_left (Step.actuator_velocity e) i q = ground arith
  Step-steps_left (Step.actuator_stop e f r) i q = ground arith
  Step-steps_left (Step.reference_first e f) i q = ground arith
  Step-steps_left (Step.reference_second e f) i q = ground arith

  -- Once `running` is false it stays so, and of the steps that a reachable state can still make, at
  -- most eleven, each takes one away: no thread loops or waits again, in whatever order they run.
  pub shutdown_bounded :
      {s t : System F}
      → Reach s
      → s.shared.running ≡ false
      → Step s t
      → (t.shared.running ≡ false) × (steps_left t < steps_left s) × (steps_left s ≤ 11)
  unfolding steps_left
  shutdown_bounded {s} r q st =
      let (still, less) = Step-steps_left st (Reach-IsTimed r) q in (still, less, ground arith)

  -- A return from `pthread_cond_wait` with no signal.
  abbrev pub is_wake_up : {s t : System F} → Step s t → Bool
  is_wake_up (Step.prediction_wake e) = true
  is_wake_up _ = false

  module _ {s : System F} (i : IsTimed s) (q : s.shared.running ≡ false) where
    unlocked : is_locked s.sensor ≡ false
    unlocked = ground arith

    -- A step that does not wait for a spurious wake-up.
    Move : Type 0
    Move = (t : System F) × (st : Step s t) × (is_wake_up st ≡ false)

    sensor_move : (p : Sensor F) → s.sensor ≡ p → (p ≡ Sensor.stopped) ⊎ Move
    unfolding Move
    sensor_move Sensor.sleeps e = inr (_, Step.sensor_stop e q, refl)
    sensor_move (Sensor.holds n) e = inr (_, Step.sensor_end e, refl)
    sensor_move Sensor.stopped e = inl refl

    prediction_move : (p : Prediction F) → s.prediction ≡ p → (p ≡ Prediction.stopped) ⊎ Move
    unfolding Move
    prediction_move Prediction.enters e = inr (_, Step.prediction_stop e unlocked q, refl)
    prediction_move Prediction.waits e =
        let w : WaitsRightly Prediction.waits s.shared = rw e at (i.awake) in ground arith
    prediction_move (Prediction.computes x0 us) e = inr (_, Step.prediction_compute e, refl)
    prediction_move Prediction.stopped e = inl refl

    optimizer_move : (p : Optimizer F) → s.optimizer ≡ p → (p ≡ Optimizer.stopped) ⊎ Move
    unfolding Move
    optimizer_move (Optimizer.enters us) e = inr (_, Step.optimizer_stop e unlocked q, refl)
    optimizer_move (Optimizer.solves us x0 xref) e = inr (_, Step.optimizer_solve e, refl)
    optimizer_move (Optimizer.solved us) e = inr (_, Step.optimizer_publish e unlocked, refl)
    optimizer_move Optimizer.stopped e = inl refl

    actuator_move : (p : Actuator F) → s.actuator ≡ p → (p ≡ Actuator.stopped) ⊎ Move
    unfolding Move
    actuator_move (Actuator.sleeps last) e = inr (_, Step.actuator_stop e unlocked q, refl)
    actuator_move (Actuator.applies u tick last) e = inr (_, Step.actuator_position e, refl)
    actuator_move (Actuator.stores v tick last) e = inr (_, Step.actuator_velocity e, refl)
    actuator_move Actuator.stopped e = inl refl

    reference_move : (p : Reference) → s.reference ≡ p → (p ≡ Reference.stopped) ⊎ Move
    unfolding Move
    reference_move Reference.first e = inr (_, Step.reference_first e unlocked, refl)
    reference_move Reference.second e = inr (_, Step.reference_second e unlocked, refl)
    reference_move Reference.stopped e = inl refl

  -- In a reachable state in which `running` is false, either all five threads have ended, so that the
  -- joins of `main` return, or some thread can make a step that is not a spurious wake-up: none is
  -- left waiting for the mutex or for a signal.
  pub shutdown_progress :
      {s : System F}
      → Reach s
      → s.shared.running ≡ false
      → HaveEnded s ⊎ ((t : System F) × (st : Step s t) × (is_wake_up st ≡ false))
  unfolding Move
  shutdown_progress {s} r q =
      let i = Reach-IsTimed r in
      ground (
        arith,
        sensor_move i q s.sensor refl,
        prediction_move i q s.prediction refl,
        optimizer_move i q s.optimizer refl,
        actuator_move i q s.actuator refl,
        reference_move i q s.reference refl,
      )

  pub HaveEnded-steps_left : (s : System F) → HaveEnded s → steps_left s ≡ 0
  unfolding steps_left
  HaveEnded-steps_left s (e, f, g, h, k) = rw (e, f, g, h, k) refl
