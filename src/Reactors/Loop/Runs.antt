-- ===== src/Reactors/Loop/Runs.antt =====
-- Runs of the generated program from its initial state, with the loop that they implement.
use lf_benchmarks.Common.{
  ℕ, ◌*◌, ◌-◌, ◌%◌, ◌≡◌, ◌↔◌, refl, sym, inl, inr, Bool, true, false, Bool-cases, Option, none,
  some, List, [], ◌∷◌, length, ◌==◌, leb, arith,
}
use std.Path.{subst}
use lf_benchmarks.Double.{Double, IsOrdered}
use lf_benchmarks.Mpc.Params.{Vector, horizon, zero_f}
use lf_benchmarks.Mpc.Solve.Bounds.{IsBounded, zero-IsBounded, mpc_solve-IsBounded}
use lf_benchmarks.Reactors.Types.{ReactionId}
use lf_benchmarks.Reactors.Main.{Program, initialize, sec, msec}
use lf_benchmarks.Reactors.Runtime.{start_tag, enabled_at, Executes}
use lf_benchmarks.Reactors.Loop.Order.{among, exactly, exactly-among}
use lf_benchmarks.Reactors.Loop.Tags.{
  cleared, quiet_tag, reference_1_tag, reference_2_tag, startup_tag,
}
use lf_benchmarks.Reactors.Loop.{Loop, wired, loop_step, reference_at, closed_loop}

eq_true : (n m : ℕ) → (n == m) ≡ true → n ≡ m
eq_true n m h = ground arith

module _ {F : Type 0} ⦃d : Double F⦄ where
  open d use {lit}

  -- The enabled reactions when none of the three special times is the present one.
  quiet_enabled :
      (s : Loop F) (k : ℕ)
      → (k * msec 1 == 0) ≡ false
      → (k * msec 1 == sec 1) ≡ false
      → (k * msec 1 == sec 3) ≡ false
      → exactly (enabled_at (wired s) (k * msec 1)) (ReactionId.plant_0 ∷ []) ≡ true
  quiet_enabled s k a b c =
      let e : (leb 0 (k * msec 1)) ≡ true = ground arith in
      let f : (((k * msec 1 - 0) % msec 1) == 0) ≡ true = ground arith in simp (a, b, c, e, f) refl

  -- What an execution of the tag at a whole millisecond ends in.
  abbrev EndsIn : Bool → ℕ → Loop F → Program F → Type 0
  EndsIn m k s q =
      Executes m (enabled_at (wired s) (k * msec 1)) (start_tag (wired s)) q
      ↔ (q ≡ wired (loop_step m (reference_at (k * msec 1)) s))

  from_stages :
      (m : Bool) (k : ℕ) (s : Loop F) (q : Program F) (rs : List ReactionId) (v : Option (Vector F))
      → exactly (enabled_at (wired s) (k * msec 1)) rs ≡ true
      → reference_at (k * msec 1) ≡ v
      → Executes m (among rs) (wired (cleared s)) q ↔ (q ≡ wired (loop_step m v s))
      → EndsIn m k s q
  from_stages m k s q rs v e f run =
      rw (exactly-among (enabled_at (wired s) (k * msec 1)) rs e, f) run

  tag_runs : (m : Bool) (k : ℕ) (s : Loop F) (q : Program F) → EndsIn m k s q
  unfolding reference_at
  tag_runs m k s q =
      let plant = ReactionId.plant_0 ∷ [] in
      let ref : F → Option (Vector F) = λ a. some (record { c0 = a; c1 = zero_f }) in
      elim (Bool-cases (k * msec 1 == 0)) [
        | inl a ↦
            from_stages m k s q (ReactionId.reference_0 ∷ plant) (ref zero_f)
              (rw (eq_true _ _ a) refl) (rw (eq_true _ _ a) refl) (startup_tag s)
        | inr a ↦ elim (Bool-cases (k * msec 1 == sec 1)) [
          | inl b ↦
              from_stages m k s q (ReactionId.reference_1 ∷ plant) (ref (lit 1 0))
                (rw (eq_true _ _ b) refl) (rw (eq_true _ _ b) refl) (reference_1_tag s)
          | inr b ↦ elim (Bool-cases (k * msec 1 == sec 3)) [
            | inl c ↦
                from_stages m k s q (ReactionId.reference_2 ∷ plant) (ref (lit 5 1))
                  (rw (eq_true _ _ c) refl) (rw (eq_true _ _ c) refl) (reference_2_tag s)
            | inr c ↦
                from_stages m k s q plant none (quiet_enabled s k a b c) (simp (a, b, c) refl)
                  (quiet_tag s)
          ]
        ]
      ]

  -- The runs of the program over a tag for each element of the list, the first of them at time 0
  -- and one each millisecond; an element says whether the optimizer's deadline had passed, the
  -- latest first.
  pub data Runs : List Bool → Program F → Type 0 where
    begin : Runs [] initialize
    tag :
        {earlier : List Bool} {p q : Program F} (missed : Bool)
        → Runs earlier p
        → Executes missed (enabled_at p (length earlier * msec 1)) (start_tag p) q
        → Runs (missed ∷ earlier) q

  run_state : (missed : List Bool) {p : Program F} → Runs missed p → p ≡ wired (closed_loop missed)
  run_state [] Runs.begin = refl
  run_state (m ∷ earlier) {p = q} (Runs.tag _ run execution) =
      let e = run_state earlier run in
      (tag_runs m (length earlier) (closed_loop earlier) q).0 (
        subst (λ z. Executes m (enabled_at z (length earlier * msec 1)) (start_tag z) q) e
          execution)

  a_run : (missed : List Bool) → Runs missed (wired (closed_loop missed))
  a_run [] = Runs.begin
  a_run (m ∷ earlier) =
      Runs.tag m (a_run earlier) ((tag_runs m (length earlier) (closed_loop earlier) _).1 refl)

  -- Whatever order the runtime chooses where the levels leave one, the program's states after the
  -- tags of whole milliseconds, and only they, are the closed loop's: at each tag the plant is
  -- sampled, a reference that is due is set and already used by the solve of that tag, the control
  -- is the solver's (zero if the deadline was missed, and then the sequence is kept), and the plant
  -- moves by it; every table stays as it was initialized.
  pub Runs-closed_loop :
      (missed : List Bool) (p : Program F) → Runs missed p ↔ (p ≡ wired (closed_loop missed))
  Runs-closed_loop missed p = (run_state missed, λ e. subst (Runs missed) (sym e) (a_run missed))

  module _ (o : IsOrdered d) where
    loop_control :
        (missed : List Bool)
        → (length {A = F} (closed_loop missed).u_seq ≡ horizon)
          × IsBounded {F = F} (closed_loop missed).u_apply.value
    loop_control [] = (refl, zero-IsBounded o)
    loop_control (true ∷ earlier) = ((loop_control earlier).0, zero-IsBounded o)
    loop_control (false ∷ earlier) =
        let s = closed_loop earlier in
        let (bounded, kept) = mpc_solve-IsBounded o _ _ s.u_seq (loop_control earlier).0 in
        (kept.rows, bounded)

    -- In every state that a run of tags of whole milliseconds ends in, the control on the
    -- optimizer's output port is NaN or within `[U_MIN, U_MAX]`, whichever deadlines were missed.
    Runs-IsBounded :
        (missed : List Bool) (p : Program F) → Runs missed p → IsBounded p.optimizer.u_apply.value
    Runs-IsBounded missed p run =
        subst (λ z. IsBounded z.optimizer.u_apply.value) (sym (run_state missed run))
          (loop_control missed).1
