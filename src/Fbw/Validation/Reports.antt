-- ===== src/Fbw/Validation/Reports.antt =====
-- What WES reports in the validation build.
use lf_benchmarks.Common.{
  ℕ, zero, suc, ◌≡◌, refl, ap, Bool, false, Bool-cases, inl, inr, get_elem?, Option, none, some,
  List, [], ◌∷◌, if◌then◌else◌, arith,
}
use lf_benchmarks.Double.{Double}
use lf_benchmarks.Int.{pos, eqb_refl}
use lf_benchmarks.Fbw.Nav.{Line, SpeedMsg, Status, ok, emergency}
use lf_benchmarks.Fbw.Vote.{Wes, vote, decide, verdict}
use lf_benchmarks.Fbw.System.{hear1, hear2, hear3, hear_status}
use lf_benchmarks.Fbw.System.Computers.{IsFresh}
use lf_benchmarks.Fbw.Validation.{
  Reading, ValidationPfc, ValidationSystem, Libc, validation_tick, validation_startup,
  validation_second, validation_run, validation_initial,
}
use lf_benchmarks.Fbw.Validation.Lag.{
  message, readings, lagged, validation_state, validation_tick-lagged,
}

module _ {F : Type 0} ⦃d : Double F⦄ where
  -- The report on three equal messages: they agree unless their speed is not a number.
  abbrev pub report_of : Option (SpeedMsg F) → Option Status
  report_of none = none
  report_of (some m) = some (if d.eq m.speed m.speed then ok else emergency)

  -- The reports of `n` seconds from the second `time` on, until one of them asks for a stop.
  abbrev pub expected_run : Bool → (ℕ → Option (SpeedMsg F)) → (time n : ℕ) → List (Option Status)
  expected_run stop sent time zero = []
  expected_run stop sent time (suc n) =
      let report = report_of (sent time) in
      let rest = expected_run (hear_status report stop) sent (suc time) n in
      if stop then [] else report ∷ rest

  vote_three :
      (n : ℕ) (v : F) (w : Wes F)
      → IsFresh w
      → let m = message n v in
        let r = vote (hear3 (some m) (hear2 (some m) (hear1 (some m) w))) in
        (r.0 ≡ report_of (some m)) × IsFresh r.1
  unfolding vote decide verdict
  vote_three n v w h =
      let same = eqb_refl (pos n) in
      elim (Bool-cases (d.eq v v)) [
        | inl e ↦ (rw (same, e) refl, (refl, refl, refl))
        | inr e ↦ (rw (same, e) refl, (refl, refl, refl))
      ]

  vote-none : (w : Wes F) → IsFresh w → vote w ≡ (none, w)
  unfolding vote
  vote-none w h = ground arith

  abbrev pub heard_thrice : Option (SpeedMsg F) → Wes F → Option Status × Wes F
  heard_thrice o w = vote (hear3 o (hear2 o (hear1 o w)))

  -- Three computers in the same state.
  abbrev pub all_at : ValidationPfc F → Wes F → Bool → ValidationSystem F
  all_at p w stop = record { pfc1 = p; pfc2 = p; pfc3 = p; wes = w; stop_requested = stop }

  vote_message :
      {A : Type 0} (n : ℕ) (v : F) (found : Option A) (w : Wes F)
      → IsFresh w
      → let o : Option (SpeedMsg F) = elim found [ none ↦ none | some a ↦ some (message n v) ] in
        let r = heard_thrice o w in (r.0 ≡ report_of o) × IsFresh r.1
  vote_message n v none w h = rw (vote-none w h) (refl, h)
  vote_message n v (some a) w h = vote_three n v w h

module _ {F : Type 0} ⦃d : Double F⦄ (libc : Libc F) where
  pub vote_lagged :
      (rs : List (Reading F)) (t : ℕ) (w : Wes F)
      → IsFresh w
      → let r = heard_thrice (lagged libc rs t) w in
        (r.0 ≡ report_of (lagged libc rs t)) × IsFresh r.1
  vote_lagged rs t w h = vote_message t _ (get_elem? rs t) w h

  pub state-suc :
      (n : ℕ) (p : ValidationPfc F)
      → (validation_tick libc (validation_state libc n p)).1 ≡ validation_state libc (suc n) p
  unfolding validation_state
  state-suc zero p = refl
  state-suc (suc n) p = state-suc n (validation_tick libc p).1

  module _ (lines : List Line) where
    unfoldable pub state_at : ℕ → ValidationPfc F
    state_at t = validation_state libc t (validation_startup libc (some lines))

    pub second_at :
        (t : ℕ) (w : Wes F) (stop : Bool)
        → let r = heard_thrice (lagged libc (readings libc lines) t) w in
          validation_second libc (all_at (state_at t) w stop)
          ≡ (r.0, all_at (state_at (suc t)) r.1 (hear_status r.0 stop))
    unfolding validation_second state_at
    second_at t w stop =
        rw (validation_tick-lagged libc lines t, state-suc t (validation_startup libc (some lines)))
          refl

    run_at :
        (t n : ℕ) (w : Wes F) (stop : Bool)
        → IsFresh w
        → validation_run libc n (all_at (state_at t) w stop)
          ≡ expected_run stop (lagged libc (readings libc lines)) t n
    unfolding validation_run
    run_at t zero w stop h = refl
    run_at t (suc n) w stop h =
        let (report, fresh) = vote_lagged (readings libc lines) t w h in
        let o = lagged libc (readings libc lines) t in
        let rest = run_at (suc t) n (heard_thrice o w).1 (hear_status (report_of o) stop) fresh in
        rw (second_at t w stop, report) (ap (λ z. if stop then [] else report_of o ∷ z) rest)

    -- On a position file, while the run goes on, WES reports nothing in a second for which the file
    -- has no position; otherwise it reports `ok`, if the computers' lagged speed is a number, and
    -- else an emergency, with which the run ends.
    pub validation_run-expected :
        (n : ℕ)
        → validation_run libc n (validation_initial libc (some lines))
          ≡ expected_run false (lagged libc (readings libc lines)) 0 n
    unfolding state_at validation_state
    validation_run-expected n = run_at 0 n _ false (refl, refl, refl)
