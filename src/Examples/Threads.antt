-- ===== src/Examples/Threads.antt =====
-- The threads of mpc_threaded.c in concrete states.
use lf_benchmarks.Common.{ℕ, zero, suc, ◌+◌, ◌≤◌, ◌<◌, ◌≡◌, refl, ◌⊎◌, false, ltb, arith}
use lf_benchmarks.Double.Fixed.{Micro, fixed, fixed-IsOrdered}
use lf_benchmarks.Threaded.State.{max_ticks, apply_first, noise, sense_position, sense_rest}
use lf_benchmarks.Mpc.Solve.{optimize}
use lf_benchmarks.Threaded.System.{
  Sensor, Optimizer, Actuator, System, initial, Step, Reach, start, next, signal,
}
use lf_benchmarks.Threaded.Race.{measured}
use lf_benchmarks.Threaded.Sampling.{stay, move, whole_sample}
use lf_benchmarks.Threaded.Invariant.{IsSafe, IsTimed, Reach-IsSafe, Reach-IsTimed}
use lf_benchmarks.Threaded.Mirror.{Mirrors}
use lf_benchmarks.Threaded.Mirror.Schedule.{on_time, due, threads-Mirrors}
use lf_benchmarks.Threaded.Finish.{CanEnd, Reach-CanEnd}
use lf_benchmarks.Threaded.Shutdown.{
  steps_left, shutdown_bounded, shutdown_progress, HaveEnded, is_wake_up,
}

abbrev at_start : System Micro
at_start = initial ⦃d = fixed⦄

-- The actuator has taken its first control, and the sensor is inside its critical section.
abbrev busy : System Micro
busy = record at_start {
  shared = sense_position ⦃d = fixed⦄ (noise ⦃d = fixed⦄ 0) (fixed.lit 0 0) at_start.shared;
  sensor = Sensor.holds (noise ⦃d = fixed⦄ 0);
  actuator = Actuator.applies (fixed.lit 0 0) 0 0;
}

busy_reached : Reach ⦃d = fixed⦄ busy
unfolding apply_first
busy_reached =
    next (next start (Step.actuator_apply {last = 0} refl refl refl)) (Step.sensor_begin refl refl)

Reach-IsSafe_example : IsSafe ⦃d = fixed⦄ busy
Reach-IsSafe_example = Reach-IsSafe ⦃d = fixed⦄ fixed-IsOrdered busy_reached

Reach-IsTimed_example : IsTimed ⦃d = fixed⦄ busy
Reach-IsTimed_example = Reach-IsTimed ⦃d = fixed⦄ busy_reached

-- The state after `n` rounds of the sensor alone, with the wait of the prediction thread first.
pub record AfterRounds (n : ℕ) : Type 0 where
  pub state : System Micro
  pub reach : Reach ⦃d = fixed⦄ state
  pub sensor : state.sensor ≡ Sensor.sleeps
  pub counted : state.shared.tick ≡ n
  pub running : state.shared.running ≡ ltb n max_ticks

rounds : (n : ℕ) → n ≤ max_ticks → AfterRounds n
unfolding sense_position sense_rest
rounds zero h = record {
  state = at_start;
  reach = start;
  sensor = refl;
  counted = refl;
  running = refl;
}
rounds (suc n) h =
    let before = rounds n (omega (arith, h)) in
    let s = before.state in
    let noisy = noise ⦃d = fixed⦄ s.shared.tick in
    let inside : System Micro = record s {
      shared = sense_position ⦃d = fixed⦄ noisy s.plant.c0 s.shared;
      sensor = Sensor.holds noisy;
    } in
    record {
      state = record inside {
        shared = sense_rest ⦃d = fixed⦄ noisy s.plant.c1 inside.shared;
        sensor = Sensor.sleeps;
        prediction = signal s.prediction;
      };
      reach =
          next
            (next before.reach (Step.sensor_begin before.sensor (ground (arith, before.running))))
            (Step.sensor_end refl);
      sensor = refl;
      counted = ground (arith, before.counted);
      running = ground (arith, before.counted, before.running);
    }

last_round : AfterRounds max_ticks
last_round = rounds max_ticks (omega arith)

abbrev ended : System Micro
ended = last_round.state

shutdown_bounded_example :
    ((record ended { sensor = Sensor.stopped }).shared.running ≡ false)
    × (steps_left (record ended { sensor = Sensor.stopped }) < steps_left ended)
    × (steps_left ended ≤ 11)
shutdown_bounded_example =
    shutdown_bounded ⦃d = fixed⦄ last_round.reach last_round.running
      (Step.sensor_stop last_round.sensor last_round.running)

shutdown_progress_example :
    HaveEnded ended
    ⊎ ((t : System Micro) × (st : Step ⦃d = fixed⦄ ended t) × (is_wake_up ⦃d = fixed⦄ st ≡ false))
shutdown_progress_example = shutdown_progress ⦃d = fixed⦄ last_round.reach last_round.running

Reach-CanEnd_example : CanEnd ⦃d = fixed⦄ busy
Reach-CanEnd_example = Reach-CanEnd ⦃d = fixed⦄ busy_reached

threads-Mirrors_example : Mirrors ⦃d = fixed⦄ (on_time ⦃d = fixed⦄ 2) (due 2)
threads-Mirrors_example = threads-Mirrors ⦃d = fixed⦄ 2 (omega arith)

abbrev about_to_move : System Micro
about_to_move = record at_start {
  shared = apply_first ⦃d = fixed⦄ at_start.shared;
  actuator = Actuator.applies (fixed.lit 0 0) 0 0;
}

-- The optimizer solves while the sensor is in its critical section.
abbrev solving : System Micro
solving =
    let g = at_start.shared in
    record at_start { optimizer = Optimizer.solves g.u_sequence g.x_current g.x_reference }

abbrev inside : System Micro
inside = record solving {
  shared = sense_position ⦃d = fixed⦄ (noise ⦃d = fixed⦄ 0) solving.plant.c0 solving.shared;
  sensor = Sensor.holds (noise ⦃d = fixed⦄ 0);
}

abbrev has_solved : System Micro
has_solved = record inside {
  optimizer = Optimizer.solved (
      optimize ⦃d = fixed⦄ solving.shared.x_current solving.shared.x_reference
        solving.shared.u_sequence);
}

abbrev outside : System Micro
outside = record has_solved {
  shared = sense_rest ⦃d = fixed⦄ (noise ⦃d = fixed⦄ 0) has_solved.plant.c1 has_solved.shared;
  sensor = Sensor.sleeps;
  prediction = signal has_solved.prediction;
}

whole_sample_example :
    (outside.shared.x_current
      ≡ measured ⦃d = fixed⦄ (noise ⦃d = fixed⦄ solving.shared.tick) solving.plant solving.plant)
    × (outside.shared.tick ≡ solving.shared.tick + 1)
whole_sample_example =
    whole_sample ⦃d = fixed⦄ {s = solving} {b = inside} {t = has_solved} {e = outside}
      (Step.sensor_begin refl refl) refl refl (move stay (Step.optimizer_solve refl) refl refl)
      (Step.sensor_end refl) refl
