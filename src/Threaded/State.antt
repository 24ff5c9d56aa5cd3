-- ===== src/Threaded/State.antt =====
-- `SharedState` of mpc_threaded.c, and what the threads do to it and to the plant.
use lf_benchmarks.Common.{
  ℕ, ◌+◌, ◌-◌, Bool, true, false, List, get_or, replicate, leb, if◌then◌else◌,
}
use lf_benchmarks.Int.{pos}
use lf_benchmarks.Double.{Double}
use lf_benchmarks.Mpc.Params.{Vector, horizon, matrix_a, matrix_b, zero_f, zero_vector}

abbrev pub max_ticks : ℕ
max_ticks = 5000

pub record SharedState (F : Type 0) : Type 0 where
  pub x_current : Vector F
  pub x_reference : Vector F
  pub u_sequence : List F
  pub u_applied : F
  pub new_measurement : Bool
  pub new_solution : Bool
  pub running : Bool
  pub tick : ℕ

-- `last_print_tick` after a round of the actuator.
abbrev pub printed : ℕ → ℕ → ℕ
printed tick last = if leb 500 (tick - last) then tick else last

module _ {F : Type 0} ⦃d : Double F⦄ where
  open d use {lit, add, mul, of_int, sin}

  -- `memset`, then the stores of `main`.
  abbrev pub initial_state : SharedState F
  initial_state = record {
    x_current = zero_vector;
    x_reference = zero_vector;
    u_sequence = replicate horizon zero_f;
    u_applied = zero_f;
    new_measurement = false;
    new_solution = false;
    running = true;
    tick = 0;
  }

  -- `x_new` of `plant_step`.
  unfoldable pub plant_step : Vector F → F → Vector F
  plant_step x u = record {
    c0 = add (add (mul matrix_a.c0.c0 x.c0) (mul matrix_a.c0.c1 x.c1)) (mul matrix_b.c0 u);
    c1 = add (add (mul matrix_a.c1.c0 x.c0) (mul matrix_a.c1.c1 x.c1)) (mul matrix_b.c1 u);
  }

  unfoldable pub noise : ℕ → F
  noise tick = mul (lit 1 4) (sin (mul (of_int (pos tick)) (lit 37 2)))

  -- The sensor, under the mutex: its first store.
  unfoldable pub sense_position : F → F → SharedState F → SharedState F
  sense_position n x g = record g { x_current = record { c0 = add x n; c1 = g.x_current.c1 } }

  -- The rest of its critical section.
  unfoldable pub sense_rest : F → F → SharedState F → SharedState F
  sense_rest n v g =
      let tick = g.tick + 1 in
      record g {
        x_current = record { c0 = g.x_current.c0; c1 = add v (mul n (lit 5 1)) };
        new_measurement = true;
        tick = tick;
        running = if leb max_ticks tick then false else g.running;
      }

  -- The actuator's critical section.
  unfoldable pub apply_first : SharedState F → SharedState F
  apply_first g = record g { u_applied = get_or g.u_sequence 0 zero_f }

  -- The optimizer's second critical section.
  unfoldable pub publish : List F → SharedState F → SharedState F
  publish us g = record g { u_sequence = us; new_solution = true }

  -- The two critical sections of the reference thread.
  unfoldable pub set_reference : F → SharedState F → SharedState F
  set_reference p g = record g { x_reference = record { c0 = p; c1 = zero_f } }
