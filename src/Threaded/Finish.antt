-- ===== src/Threaded/Finish.antt =====
-- The program can always come to its end.
use lf_benchmarks.Common.{ℕ, zero, suc, ◌+◌, ◌-◌, ◌≤◌, ◌<◌, ◌≡◌, refl, inl, inr, false, arith}
use lf_benchmarks.Double.{Double}
use lf_benchmarks.Threaded.State.{max_ticks, sense_position, sense_rest}
use lf_benchmarks.Threaded.System.{Sensor, System, Step, Reach, next}
use lf_benchmarks.Threaded.Invariant.{Reach-IsTimed}
use lf_benchmarks.Threaded.Shutdown.{
  steps_left, shutdown_bounded, shutdown_progress, HaveEnded-steps_left,
}

module _ {F : Type 0} ⦃d : Double F⦄ where
  pub data Steps : System F → System F → Type 0 where
    done : {s : System F} → Steps s s
    more : {s t u : System F} → Step s t → Steps t u → Steps s u

  abbrev pub CanEnd : System F → Type 0
  CanEnd s = (t : System F) × Steps s t × (steps_left t ≡ 0)

  ends_after : {s t : System F} → Step s t → CanEnd t → CanEnd s
  ends_after st (u, steps, e) = (u, Steps.more st steps, e)

  -- After the end of the count.
  end_shutdown :
      (n : ℕ) {s : System F} → Reach s → s.shared.running ≡ false → steps_left s ≤ n → CanEnd s
  end_shutdown zero {s} r q h = (s, Steps.done, omega (arith, h))
  end_shutdown (suc n) {s} r q h = elim (shutdown_progress r q) [
    | inl e ↦ (s, Steps.done, HaveEnded-steps_left s e)
    | inr (t, st, _) ↦
        let (still, less, _) = shutdown_bounded r q st in
        ends_after st (end_shutdown n (next r st) still (omega (arith, less, h)))
  ]

  end_stopped : {s : System F} → Reach s → s.shared.running ≡ false → CanEnd s
  end_stopped {s} r q = end_shutdown (steps_left s) r q (omega arith)

  -- From the middle of a round of the sensor.
  end_round :
      (left : ℕ)
      → ((t : System F)
          → Reach t
          → t.sensor ≡ Sensor.sleeps
          → t.shared.tick + left ≡ max_ticks
          → CanEnd t)
      → {s : System F} {n : F} → Reach s
      → s.sensor ≡ Sensor.holds n
      → s.shared.tick + suc left ≡ max_ticks
      → CanEnd s
  unfolding sense_rest
  end_round left rest {s} {n} r e h =
      let st = Step.sensor_end e in ends_after st (rest _ (next r st) refl (omega (arith, h)))

  -- Rounds of the sensor alone, with `left` of them to the end of the count.
  end_count :
      (left : ℕ) {s : System F}
      → Reach s
      → s.sensor ≡ Sensor.sleeps
      → s.shared.tick + left ≡ max_ticks
      → CanEnd s
  unfolding sense_position
  end_count zero {s} r e h = let i = Reach-IsTimed r in end_stopped r (ground (arith, i.counted))
  end_count (suc left) {s} r e h =
      let i = Reach-IsTimed r in
      let st = Step.sensor_begin e (ground (arith, i.counted)) in
      ends_after st (end_round left (λ t. end_count left {s = t}) (next r st) refl h)

  end_from : (p : Sensor F) {s : System F} → Reach s → s.sensor ≡ p → CanEnd s
  end_from Sensor.sleeps {s} r e =
      let i = Reach-IsTimed r in end_count (max_ticks - s.shared.tick) r e (omega (arith, i.within))
  end_from (Sensor.holds n) {s} r e =
      let i = Reach-IsTimed r in
      let below : s.shared.tick < max_ticks = ground (arith, i.counted, i.sensing) in
      end_round (max_ticks - suc s.shared.tick)
        (λ t. end_count (max_ticks - suc s.shared.tick) {s = t}) r e (omega (arith, below))
  end_from Sensor.stopped {s} r e =
      let i = Reach-IsTimed r in end_stopped r (ground (arith, i.sensing))

  -- From every state that the threads can reach, steps lead to one in which every thread has ended:
  -- no interleaving deadlocks the program or makes its end impossible.
  pub Reach-CanEnd : {s : System F} → Reach s → CanEnd s
  Reach-CanEnd {s} r = end_from s.sensor r refl
