-- ===== src/Fbw/Reactions/Execution.antt =====
-- Every execution, whatever the order of the reactions within the seconds, reports the same.
use lf_benchmarks.Common.{
  ℕ, zero, suc, ◌≡◌, ◌≢◌, ◌↔◌, ◌⊎◌, inl, inr, refl, sym, ap, ◌∙◌, true, false, Bool-cases, Option,
  List, [], ◌∷◌, arith,
}
use mathlib.Core.Path.{subst}
use lf_benchmarks.Double.{Double}
use lf_benchmarks.Fbw.Nav.{Line, Scanned, Status}
use lf_benchmarks.Fbw.System.{Second, System, second, run}
use lf_benchmarks.Fbw.System.Computers.{Computer}
use lf_benchmarks.Fbw.Reactions.{
  Stage, Network, lane_of, begin, IsOver, ahead, react, Runs, finish, Executes,
}
use lf_benchmarks.Fbw.Reactions.Order.{finish-second}

finished_cases : (g : Stage) → (g ≡ Stage.finished) ⊎ (g ≢ Stage.finished)
finished_cases Stage.finished = inl refl
finished_cases Stage.waits_fault = inr (λ e. absurd cc)
finished_cases Stage.waits_tick = inr (λ e. absurd cc)
finished_cases Stage.waits_relay = inr (λ e. absurd cc)
finished_cases Stage.waits_wes = inr (λ e. absurd cc)

module _ {F : Type 0} ⦃d : Double F⦄ (sscanf : Line → Scanned F) where
  react-ahead :
      (i : Second F) (c : Computer) (t : Network F)
      → (lane_of c t).stage ≢ Stage.finished
      → suc (ahead (react sscanf i c t)) ≡ ahead t
  react-ahead i c t h = ground arith

  some_left : (t : Network F) → IsOver t ⊎ ((c : Computer) × ((lane_of c t).stage ≢ Stage.finished))
  some_left t = elim (finished_cases t.lane1.stage) [
    | inr m ↦ inr (Computer.first, m)
    | inl e1 ↦ elim (finished_cases t.lane2.stage) [
      | inr m ↦ inr (Computer.second, m)
      | inl e2 ↦ elim (finished_cases t.lane3.stage) [
        | inr m ↦ inr (Computer.third, m)
        | inl e3 ↦ inl (e1, e2, e3)
      ]
    ]
  ]

  Completes : Second F → Network F → Type 0
  Completes i t = (n : ℕ) × (u : Network F) × Runs sscanf i n t u × IsOver u

  completed : (i : Second F) (n : ℕ) (t : Network F) → ahead t ≡ n → Completes i t
  unfolding Completes
  completed i zero t e = elim (some_left t) [
    | inl o ↦ (0, t, Runs.stay, o)
    | inr (c, more) ↦ absurd (omega (arith, e, react-ahead i c t more))
  ]
  completed i (suc n) t e = elim (some_left t) [
    | inl o ↦ (0, t, Runs.stay, o)
    | inr (c, more) ↦
        let (k, u, r, o) =
          completed i n (react sscanf i c t) (omega (arith, e, react-ahead i c t more)) in
        (suc k, u, Runs.step c more r, o)
  ]

  run_running :
      (i : Second F) (is : List (Second F)) (s : System F)
      → s.stop_requested ≡ false
      → run sscanf (i ∷ is) s ≡ (second sscanf i s).0 ∷ run sscanf is (second sscanf i s).1
  unfolding run
  run_running i is s e = simp e refl

  run_stopped :
      (i : Second F) (is : List (Second F)) (s : System F)
      → s.stop_requested ≡ true
      → run sscanf (i ∷ is) s ≡ []
  unfolding run
  run_stopped i is s e = simp e refl

  elapse_run :
      {n : ℕ} (i : Second F) (is : List (Second F)) (s : System F) (t : Network F)
      → s.stop_requested ≡ false
      → Runs sscanf i n (begin s) t
      → IsOver t
      → (finish t).0 ∷ run sscanf is (finish t).1 ≡ run sscanf (i ∷ is) s
  elapse_run i is s t e r o =
      ap (λ x. x.0 ∷ run sscanf is x.1) (finish-second sscanf i s t r o)
      ∙ sym (run_running i is s e)

  executed :
      (is : List (Second F)) (s : System F) (out : List (Option Status))
      → Executes sscanf is s out
      → out ≡ run sscanf is s
  unfolding run
  executed [] s (_ ∷ out) run = elim run [ ]
  executed [] s [] Executes.over = refl
  executed (i ∷ is) s [] (Executes.stopped e) = sym (run_stopped i is s e)
  executed (i ∷ is) s (_ ∷ out) (Executes.elapse {t = t} e r o rest) =
      ap (λ l. (finish t).0 ∷ l) (executed is (finish t).1 out rest) ∙ elapse_run i is s t e r o

  executes : (is : List (Second F)) (s : System F) → Executes sscanf is s (run sscanf is s)
  unfolding run Completes
  executes [] s = Executes.over
  executes (i ∷ is) s = elim (Bool-cases s.stop_requested) [
    | inl e ↦ subst (Executes sscanf (i ∷ is) s) (sym (run_stopped i is s e)) (Executes.stopped e)
    | inr e ↦
        let (n, t, r, o) = completed i 12 (begin s) refl in
        subst (Executes sscanf (i ∷ is) s) (elapse_run i is s t e r o)
          (Executes.elapse e r o (executes is (finish t).1))
  ]

  -- The executions are there, and each of them reports the statuses that `run` gives, whatever order
  -- the reactions of the computers come in.
  pub Executes-run :
      (is : List (Second F)) (s : System F) (out : List (Option Status))
      → Executes sscanf is s out ↔ (out ≡ run sscanf is s)
  Executes-run is s out =
      (executed is s out, λ e. subst (Executes sscanf is s) (sym e) (executes is s))
