-- ===== src/Threaded/Sampling.antt =====
-- The sensor's critical section, if the actuator leaves the plant alone in it.
use lf_benchmarks.Common.{◌≡◌, refl, ◌∙◌, arith, true, ◌+◌}
use lf_benchmarks.Double.{Double}
use lf_benchmarks.Threaded.State.{noise, sense_position, sense_rest}
use lf_benchmarks.Threaded.System.{Sensor, System, is_locked, Step}
use lf_benchmarks.Threaded.Race.{measured}

module _ {F : Type 0} ⦃d : Double F⦄ where
  -- Steps of the other threads that do not write the plant.
  pub data Undisturbed (s : System F) : System F → Type 0 where
    stay : Undisturbed s s
    move :
        {t u : System F}
        → Undisturbed s t
        → Step t u
        → u.sensor ≡ t.sensor
        → u.plant ≡ t.plant
        → Undisturbed s u

  -- A step, by what it is to the sensor: it enters its section and reads the position, it reads the
  -- velocity and leaves, it ends, or another thread moves, which leaves the shared state alone while
  -- the sensor holds the mutex.
  data SensorStep (s t : System F) : Type 0 where
    enters :
        s.sensor ≡ Sensor.sleeps
        → t.sensor ≡ Sensor.holds (noise s.shared.tick)
        → t.shared ≡ sense_position (noise s.shared.tick) s.plant.c0 s.shared
        → t.plant ≡ s.plant
        → SensorStep s t
    leaves :
        {n : F}
        → s.sensor ≡ Sensor.holds n
        → t.sensor ≡ Sensor.sleeps
        → t.shared ≡ sense_rest n s.plant.c1 s.shared
        → SensorStep s t
    ends : t.sensor ≡ Sensor.stopped → SensorStep s t
    passes :
        t.sensor ≡ s.sensor → (is_locked s.sensor ≡ true → t.shared ≡ s.shared) → SensorStep s t

  sensor_step : {s t : System F} → Step s t → SensorStep s t
  sensor_step (Step.sensor_begin e r) = SensorStep.enters e refl refl refl
  sensor_step (Step.sensor_end e) = SensorStep.leaves e refl refl
  sensor_step (Step.sensor_stop e r) = SensorStep.ends refl
  sensor_step (Step.prediction_wait e f g) = SensorStep.passes refl (λ h. refl)
  sensor_step (Step.prediction_wake e) = SensorStep.passes refl (λ h. refl)
  sensor_step (Step.prediction_take e f g r) = SensorStep.passes refl (λ h. absurd (ground arith))
  sensor_step (Step.prediction_compute e) = SensorStep.passes refl (λ h. refl)
  sensor_step (Step.prediction_stop e f r) = SensorStep.passes refl (λ h. refl)
  sensor_step (Step.optimizer_read e f r) = SensorStep.passes refl (λ h. refl)
  sensor_step (Step.optimizer_solve e) = SensorStep.passes refl (λ h. refl)
  sensor_step (Step.optimizer_publish e f) = SensorStep.passes refl (λ h. absurd (ground arith))
  sensor_step (Step.optimizer_stop e f r) = SensorStep.passes refl (λ h. refl)
  sensor_step (Step.actuator_apply e f r) = SensorStep.passes refl (λ h. absurd (ground arith))
  sensor_step (Step.actuator_position e) = SensorStep.passes refl (λ h. refl)
  sensor_step (Step.actuator_velocity e) = SensorStep.passes refl (λ h. refl)
  sensor_step (Step.actuator_stop e f r) = SensorStep.passes refl (λ h. refl)
  sensor_step (Step.reference_first e f) = SensorStep.passes refl (λ h. absurd (ground arith))
  sensor_step (Step.reference_second e f) = SensorStep.passes refl (λ h. absurd (ground arith))

  enters_section :
      {n : F} {s t : System F}
      → SensorStep s t
      → s.sensor ≡ Sensor.sleeps
      → t.sensor ≡ Sensor.holds n
      → (t.sensor ≡ Sensor.holds (noise s.shared.tick))
        × (t.shared ≡ sense_position (noise s.shared.tick) s.plant.c0 s.shared)
        × (t.plant ≡ s.plant)
  enters_section (SensorStep.enters e f g p) h k = (f, g, p)
  enters_section (SensorStep.leaves e f g) h k = absurd cc
  enters_section (SensorStep.ends e) h k = absurd cc
  enters_section (SensorStep.passes e f) h k = absurd cc

  leaves_section :
      {n : F} {s t : System F}
      → SensorStep s t
      → s.sensor ≡ Sensor.holds n
      → t.sensor ≡ Sensor.sleeps
      → t.shared ≡ sense_rest n s.plant.c1 s.shared
  leaves_section (SensorStep.enters e f g p) h k = absurd cc
  leaves_section (SensorStep.leaves e f g) h k = cc
  leaves_section (SensorStep.ends e) h k = absurd cc
  leaves_section (SensorStep.passes e f) h k = absurd cc

  keeps_shared :
      {n : F} {s t : System F}
      → SensorStep s t
      → s.sensor ≡ Sensor.holds n
      → t.sensor ≡ s.sensor
      → t.shared ≡ s.shared
  keeps_shared (SensorStep.enters e f g p) h k = absurd cc
  keeps_shared (SensorStep.leaves e f g) h k = absurd cc
  keeps_shared (SensorStep.ends e) h k = absurd cc
  keeps_shared (SensorStep.passes e f) h k = f (rw h refl)

  undisturbed :
      {n : F} {s t : System F}
      → Undisturbed s t
      → s.sensor ≡ Sensor.holds n
      → (t.sensor ≡ Sensor.holds n) × (t.shared ≡ s.shared) × (t.plant ≡ s.plant)
  undisturbed stay h = (h, refl, refl)
  undisturbed (move u st k p) h =
      let (sensor, shared, plant) = undisturbed u h in
      (k ∙ sensor, keeps_shared (sensor_step st) sensor k ∙ shared, p ∙ plant)

  -- From every state: if the other threads do not write the plant between the step with which the
  -- sensor enters its critical section and the one with which it leaves it, the measurement that
  -- it publishes is a sample of the plant with the noise of the tick, and the tick is counted,
  -- whatever else the other threads do in between.
  pub whole_sample :
      {n : F} {s b t e : System F}
      → Step s b
      → s.sensor ≡ Sensor.sleeps
      → b.sensor ≡ Sensor.holds n
      → Undisturbed b t
      → Step t e
      → e.sensor ≡ Sensor.sleeps
      → (e.shared.x_current ≡ measured (noise s.shared.tick) s.plant s.plant)
        × (e.shared.tick ≡ s.shared.tick + 1)
  unfolding sense_position sense_rest
  whole_sample {s = s} first_step sleeps inside u last_step wakes =
      let (holds, read, still) = enters_section (sensor_step first_step) sleeps inside in
      let (there, shared, plant) = undisturbed u holds in
      rw (leaves_section (sensor_step last_step) there wakes, shared, read, plant, still)
        (refl, refl)
