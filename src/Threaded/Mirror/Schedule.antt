-- ===== src/Threaded/Mirror/Schedule.antt =====
-- The interleaving round after round, with the reference thread's changes at 1 s and 3 s.
use std.Path.{subst}
use lf_benchmarks.Common.{
  ℕ, zero, suc, ◌+◌, ◌*◌, ◌<◌, ◌≡◌, refl, sym, inl, inr, Bool, true, false, Bool-cases, Option,
  none, some, length, replicate, length-replicate, leb, ◌==◌, if◌then◌else◌, arith,
}
use lf_benchmarks.Double.{Double}
use lf_benchmarks.Mpc.Params.{Vector, horizon, zero_f, zero_vector}
use lf_benchmarks.Threaded.State.{max_ticks}
use lf_benchmarks.Threaded.System.{Prediction, Reference, Reach}
use lf_benchmarks.Reactors.Main.{sec, msec}
use lf_benchmarks.Reactors.Loop.{Loop, loop_step, reference_at, closed_loop}
use lf_benchmarks.Threaded.Mirror.{Mirrors, round, first_round, second_round}

-- Where the reference thread stands after `n` rounds.
abbrev pub due : ℕ → Reference
due n =
    if leb n 1000
    then Reference.first
    else if leb n 3000
    then Reference.second
    else Reference.stopped

eq_true : (n m : ℕ) → (n == m) ≡ true → n ≡ m
eq_true n m h = ground arith

-- Between the two changes the reference thread stays where it is.
due_same : (n : ℕ) → (n == 1000) ≡ false → (n == 3000) ≡ false → due (suc n) ≡ due n
due_same n a b = ground arith

module _ {F : Type 0} ⦃d : Double F⦄ where
  -- The loop after `n` samples, none of them late.
  abbrev pub on_time : ℕ → Loop F
  on_time n = closed_loop (replicate n false)

  on_time-tick : (n : ℕ) (l : Loop F) → l ≡ on_time n → l.tick ≡ n
  on_time-tick zero l e = rw e refl
  on_time-tick (suc n) l e = rw e (omega (arith, on_time-tick n (on_time n) refl))

  -- The reference that the loop is given in its next round.
  abbrev given : ℕ → Option (Vector F)
  given n = reference_at (length (replicate n false) * msec 1)

  -- A round, with what the loop and the reference thread do in it.
  by_round :
      (n : ℕ) (set : Option (Vector F)) (a b : Reference)
      → given n ≡ set
      → due n ≡ a
      → due (suc n) ≡ b
      → (Mirrors (on_time n) a → Mirrors (loop_step false set (on_time n)) b)
      → Mirrors (on_time n) (due n)
      → Mirrors (on_time (suc n)) (due (suc n))
  by_round n set a b e p q f m =
      subst (λ w. Mirrors (loop_step false w (on_time n)) (due (suc n))) (sym e)
        (subst (Mirrors (loop_step false set (on_time n))) (sym q)
          (f (subst (Mirrors (on_time n)) p m)))

  given_quiet : (n : ℕ) → (suc n == 1000) ≡ false → (suc n == 3000) ≡ false → given (suc n) ≡ none
  unfolding reference_at
  given_quiet n a b =
      let e = length-replicate {A = Bool} (suc n) false in
      let zero_no : (suc n * msec 1 == 0) ≡ false = ground arith in
      let one_no : (suc n * msec 1 == sec 1) ≡ false = ground (arith, a) in
      let three_no : (suc n * msec 1 == sec 3) ≡ false = ground (arith, b) in
      rw e (simp (zero_no, one_no, three_no) refl)

  given_first : (n : ℕ) → n ≡ 1000 → given n ≡ some (record { c0 = d.lit 1 0; c1 = zero_f })
  unfolding reference_at
  given_first n e = rw (length-replicate {A = Bool} n false, e) refl

  given_second : (n : ℕ) → n ≡ 3000 → given n ≡ some (record { c0 = d.lit 5 1; c1 = zero_f })
  unfolding reference_at
  given_second n e = rw (length-replicate {A = Bool} n false, e) refl

  advance :
      (n : ℕ)
      → suc n < max_ticks
      → Mirrors (on_time n) (due n)
      → Mirrors (on_time (suc n)) (due (suc n))
  unfolding reference_at
  advance zero h m =
      let r = round (on_time 0) Reference.first m (omega arith) in
      record { rest = r.rest; placed = r.placed; reach = r.reach }
  advance (suc k) h m =
      let n = suc k in
      let l : Loop F = on_time n in
      let ticks : l.tick + 1 < max_ticks = omega (arith, on_time-tick n l refl, h) in
      elim (Bool-cases (n == 1000)) [
        | inl a ↦
            let e = eq_true n 1000 a in
            by_round n _ Reference.first Reference.second (given_first n e) (rw e refl) (rw e refl)
              (λ i. first_round (on_time n) i ticks) m
        | inr a ↦ elim (Bool-cases (n == 3000)) [
          | inl b ↦
              let e = eq_true n 3000 b in
              by_round n _ Reference.second Reference.stopped (given_second n e) (rw e refl)
                (rw e refl) (λ i. second_round (on_time n) i ticks) m
          | inr b ↦
              by_round n none (due n) (due n) (given_quiet k a b) refl (due_same n a b)
                (λ i. round (on_time n) (due n) i ticks) m
        ]
      ]

  -- The threads have an interleaving that computes what the reactors compute when no deadline is
  -- missed: after each of the first 4999 rounds a state can be reached in which the plant, the
  -- reference, the tick, the control applied and the optimizer's sequence are those of the closed
  -- loop, and the reference thread has made its changes at 1 s and 3 s.
  pub threads-Mirrors : (n : ℕ) → n < max_ticks → Mirrors (on_time n) (due n)
  threads-Mirrors zero h = record {
    rest = record {
      x_current = zero_vector;
      u_sequence = replicate horizon zero_f;
      new_measurement = false;
      new_solution = false;
      prediction = Prediction.enters;
      last = 0;
      reference = Reference.first;
    };
    placed = refl;
    reach = Reach.start;
  }
  threads-Mirrors (suc n) h = advance n h (threads-Mirrors n (omega (arith, h)))
