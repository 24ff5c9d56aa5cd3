-- ===== src/Threaded/System.antt =====
-- The five threads of mpc_threaded.c, interleaved in any order. A section under the mutex is one
-- step where it touches nothing but the shared state. The sensor also reads `g_plant_x` there, which
-- the actuator writes without the mutex: its section is two steps, and so is the actuator's write.
use lf_benchmarks.Common.{ℕ, ◌≡◌, Bool, true, false, not, ◌&&◌, List, get_or, replicate}
use lf_benchmarks.Double.{Double}
use lf_benchmarks.Mpc.Params.{Vector, horizon, zero_f, zero_vector}
use lf_benchmarks.Mpc.Solve.{optimize, shift}
use lf_benchmarks.Threaded.State.{
  SharedState, initial_state, plant_step, noise, sense_position, sense_rest, apply_first, publish,
  set_reference, printed,
}

-- Where a thread stands, with the local variables that are live there.
pub data Sensor (F : Type 0) : Type 0 where
  sleeps : Sensor F
  holds : (n : F) → Sensor F
  stopped : Sensor F

pub data Prediction (F : Type 0) : Type 0 where
  enters : Prediction F
  waits : Prediction F
  computes : (x0 : Vector F) (u_seq : List F) → Prediction F
  stopped : Prediction F

pub data Optimizer (F : Type 0) : Type 0 where
  enters : (u_seq : List F) → Optimizer F
  solves : (u_seq : List F) (x0 xref : Vector F) → Optimizer F
  solved : (u_seq : List F) → Optimizer F
  stopped : Optimizer F

pub data Actuator (F : Type 0) : Type 0 where
  sleeps : (last : ℕ) → Actuator F
  applies : (u : F) (tick last : ℕ) → Actuator F
  stores : (v : F) (tick last : ℕ) → Actuator F
  stopped : Actuator F

pub data Reference : Type 0 where
  first second stopped : Reference

pub record System (F : Type 0) : Type 0 where
  pub shared : SharedState F
  pub plant : Vector F
  pub sensor : Sensor F
  pub prediction : Prediction F
  pub optimizer : Optimizer F
  pub actuator : Actuator F
  pub reference : Reference

-- The mutex is taken between two steps only by the sensor.
abbrev pub is_locked : {F : Type 0} → Sensor F → Bool
is_locked (Sensor.holds n) = true
is_locked _ = false

-- `pthread_cond_signal(&g_cond_meas)`: only the prediction thread waits there. It then tests the
-- condition of its loop again.
abbrev pub signal : {F : Type 0} → Prediction F → Prediction F
signal Prediction.waits = Prediction.enters
signal p = p

-- The condition of the wait loop.
abbrev pub must_wait : {F : Type 0} → SharedState F → Bool
must_wait g = not g.new_measurement && g.running

module _ {F : Type 0} ⦃d : Double F⦄ where
  abbrev pub initial : System F
  initial = record {
    shared = initial_state;
    plant = zero_vector;
    sensor = Sensor.sleeps;
    prediction = Prediction.enters;
    optimizer = Optimizer.enters (replicate horizon zero_f);
    actuator = Actuator.sleeps 0;
    reference = Reference.first;
  }

  pub data Step (s : System F) : System F → Type 0 where
    sensor_begin :
        s.sensor ≡ Sensor.sleeps
        → s.shared.running ≡ true
        → Step s (record s {
          shared = sense_position (noise s.shared.tick) s.plant.c0 s.shared;
          sensor = Sensor.holds (noise s.shared.tick);
        })
    sensor_end :
        {n : F}
        → s.sensor ≡ Sensor.holds n
        → Step s (record s {
          shared = sense_rest n s.plant.c1 s.shared;
          sensor = Sensor.sleeps;
          prediction = signal s.prediction;
        })
    sensor_stop :
        s.sensor ≡ Sensor.sleeps
        → s.shared.running ≡ false
        → Step s (record s { sensor = Sensor.stopped })
    prediction_wait :
        s.prediction ≡ Prediction.enters
        → is_locked s.sensor ≡ false
        → must_wait s.shared ≡ true
        → Step s (record s { prediction = Prediction.waits })
    -- `pthread_cond_wait` may return with no signal.
    prediction_wake :
        s.prediction ≡ Prediction.waits → Step s (record s { prediction = Prediction.enters })
    prediction_take :
        s.prediction ≡ Prediction.enters
        → is_locked s.sensor ≡ false
        → must_wait s.shared ≡ false
        → s.shared.running ≡ true
        → Step s (record s {
          shared = record (s.shared) { new_measurement = false };
          prediction = Prediction.computes s.shared.x_current s.shared.u_sequence;
        })
    prediction_compute :
        {x0 : Vector F} {us : List F}
        → s.prediction ≡ Prediction.computes x0 us
        → Step s (record s { prediction = Prediction.enters })
    prediction_stop :
        s.prediction ≡ Prediction.enters
        → is_locked s.sensor ≡ false
        → s.shared.running ≡ false
        → Step s (record s { prediction = Prediction.stopped })
    optimizer_read :
        {us : List F}
        → s.optimizer ≡ Optimizer.enters us
        → is_locked s.sensor ≡ false
        → s.shared.running ≡ true
        → Step s
            (record s { optimizer = Optimizer.solves us s.shared.x_current s.shared.x_reference })
    optimizer_solve :
        {us : List F} {x0 xref : Vector F}
        → s.optimizer ≡ Optimizer.solves us x0 xref
        → Step s (record s { optimizer = Optimizer.solved (optimize x0 xref us) })
    optimizer_publish :
        {us : List F}
        → s.optimizer ≡ Optimizer.solved us
        → is_locked s.sensor ≡ false
        → Step s
            (record s { shared = publish us s.shared; optimizer = Optimizer.enters (shift us) })
    optimizer_stop :
        {us : List F}
        → s.optimizer ≡ Optimizer.enters us
        → is_locked s.sensor ≡ false
        → s.shared.running ≡ false
        → Step s (record s { optimizer = Optimizer.stopped })
    actuator_apply :
        {last : ℕ}
        → s.actuator ≡ Actuator.sleeps last
        → is_locked s.sensor ≡ false
        → s.shared.running ≡ true
        → Step s (record s {
          shared = apply_first s.shared;
          actuator = Actuator.applies (get_or s.shared.u_sequence 0 zero_f) s.shared.tick last;
        })
    actuator_position :
        {u : F} {tick last : ℕ}
        → s.actuator ≡ Actuator.applies u tick last
        → Step s (record s {
          plant = record { c0 = (plant_step s.plant u).c0; c1 = s.plant.c1 };
          actuator = Actuator.stores ((plant_step s.plant u).c1) tick last;
        })
    actuator_velocity :
        {v : F} {tick last : ℕ}
        → s.actuator ≡ Actuator.stores v tick last
        → Step s (record s {
          plant = record { c0 = s.plant.c0; c1 = v };
          actuator = Actuator.sleeps (printed tick last);
        })
    actuator_stop :
        {last : ℕ}
        → s.actuator ≡ Actuator.sleeps last
        → is_locked s.sensor ≡ false
        → s.shared.running ≡ false
        → Step s (record s { actuator = Actuator.stopped })
    reference_first :
        s.reference ≡ Reference.first
        → is_locked s.sensor ≡ false
        → Step s
            (record s { shared = set_reference (d.lit 1 0) s.shared; reference = Reference.second })
    reference_second :
        s.reference ≡ Reference.second
        → is_locked s.sensor ≡ false
        → Step s (record s {
          shared = set_reference (d.lit 5 1) s.shared;
          reference = Reference.stopped;
        })

  pub data Reach : System F → Type 0 where
    start : Reach initial
    next : {s t : System F} → Reach s → Step s t → Reach t
