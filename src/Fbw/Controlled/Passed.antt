-- ===== src/Fbw/Controlled/Passed.antt =====
-- The log of the scripted run passes fbw-lf/scripts/check_e2e_faults.py.
use std.Path.{subst}
use lf_benchmarks.Common.{
  ◌≡◌, ℕ, ◌<◌, refl, sym, false, Option, some, List, [], ◌∷◌, ◌++◌, All, All-append, arith,
}
use lf_benchmarks.Text.{decimal}
use lf_benchmarks.Double.{Double}
use lf_benchmarks.Fbw.Nav.{Line, Scanned, Status, ok, error_pfc2, error_pfc3, apply_bias}
use lf_benchmarks.Fbw.Pfc.{startup}
use lf_benchmarks.Fbw.Vote.{Wes}
use lf_benchmarks.Fbw.System.{Second, initial}
use lf_benchmarks.Fbw.System.Computers.{Computer}
use lf_benchmarks.Fbw.Controlled.{script, expected_status, speed_at, Flies}
use lf_benchmarks.Fbw.Controlled.Log.{fman_lines, status_lines, wes_lines, log}
use lf_benchmarks.Fbw.Controlled.Lines.{flown_lines, expected_lines}
use lf_benchmarks.Fbw.Controlled.Calm.{PrintsNumbers, IsCalm}
use lf_benchmarks.Fbw.Controlled.Reports.{first_Holds}
use lf_benchmarks.Scripts.Patterns.{Pattern, search}
use lf_benchmarks.Scripts.EndToEnd.{
  stop_sent, stop_applied, stop_noticed, stop_reported, cont_sent, cont_applied, ok_after_cont,
  bias_sent, bias_applied, bias_noticed, bias_reported, ok_after_bias, Found, Found-left,
  Found-right, matching_lines, check_e2e_faults, check_e2e_faults_passed,
}
use lf_benchmarks.Fbw.Controlled.Found.{lines_at, log-AllFound, log-IsCalm}

-- The checks by the second in which their lines are printed.
abbrev stops : List Pattern
stops = stop_sent ∷ stop_applied ∷ stop_noticed ∷ stop_reported ∷ []

abbrev conts : List Pattern
conts = cont_sent ∷ cont_applied ∷ ok_after_cont ∷ []

abbrev biases : List Pattern
biases = bias_sent ∷ bias_applied ∷ bias_noticed ∷ bias_reported ∷ []

module _ {F : Type 0} ⦃d : Double F⦄ (fixed4 : F → List ℕ) (sscanf : Line → Scanned F) where
  -- Where in a second's lines a line can be found.
  module _ (q : Pattern) (t : ℕ) (v : F) (status : Option Status) (w : Wes F) where
    abbrev Printed : List Line → Type 0
    Printed lines = Found lines q

    by_fman : Printed (fman_lines t) → Printed (expected_lines fixed4 sscanf t v status w)
    by_fman h = Found-left q (fman_lines t) _ h

    by_second :
        Printed (flown_lines fixed4 sscanf t v Computer.second)
        → Printed (expected_lines fixed4 sscanf t v status w)
    by_second h =
        Found-right q (fman_lines t) _
          (Found-left q (flown_lines fixed4 sscanf t v Computer.second) _ h)

    by_third :
        Printed (flown_lines fixed4 sscanf t v Computer.third)
        → Printed (expected_lines fixed4 sscanf t v status w)
    by_third h = Found-right q (fman_lines t) _ (
        Found-right q (flown_lines fixed4 sscanf t v Computer.second) _
          (Found-left q (flown_lines fixed4 sscanf t v Computer.third) _ h))

    by_wes :
        Printed (wes_lines fixed4 t status w) → Printed (expected_lines fixed4 sscanf t v status w)
    by_wes h = Found-right q (fman_lines t) _ (
        Found-right q (flown_lines fixed4 sscanf t v Computer.second) _ (
          Found-right q (flown_lines fixed4 sscanf t v Computer.third) _
            (Found-left q (wes_lines fixed4 t status w) _ h)))

    by_pfcds : Printed (status_lines t status) → Printed (expected_lines fixed4 sscanf t v status w)
    by_pfcds h = Found-right q (fman_lines t) _ (
        Found-right q (flown_lines fixed4 sscanf t v Computer.second) _ (
          Found-right q (flown_lines fixed4 sscanf t v Computer.third) _
            (Found-right q (wes_lines fixed4 t status w) _ h)))

  stop-Found : (v : F) (w : Wes F) → All (Found (lines_at fixed4 sscanf 5 v w)) stops
  unfolding fman_lines wes_lines status_lines matching_lines search decimal
  stop-Found v w =
      let s = some error_pfc2 in
      (
        by_fman stop_sent 5 v s w refl,
        (
          by_second stop_applied 5 v s w refl,
          (by_wes stop_noticed 5 v s w refl, (by_pfcds stop_reported 5 v s w refl, tt)),
        ),
      )

  cont-Found : (v : F) (w : Wes F) → All (Found (lines_at fixed4 sscanf 8 v w)) conts
  unfolding fman_lines wes_lines matching_lines search decimal
  cont-Found v w =
      let s = some ok in
      (
        by_fman cont_sent 8 v s w refl,
        (by_second cont_applied 8 v s w refl, (by_wes ok_after_cont 8 v s w refl, tt)),
      )

  bias-Found :
      (v : F) (w : Wes F)
      → d.eq v (apply_bias v) ≡ false
      → All (Found (lines_at fixed4 sscanf 640 v w)) biases
  unfolding fman_lines wes_lines status_lines matching_lines search decimal
  bias-Found v w e =
      let s = some error_pfc3 in
      let t : expected_status sscanf 640 v ≡ error_pfc3 = simp e refl in
      subst (λ z. All (Found (expected_lines fixed4 sscanf 640 v (some z) w)) biases) (sym t)
        (
          by_fman bias_sent 640 v s w refl,
          (
            by_third bias_applied 640 v s w refl,
            (by_wes bias_noticed 640 v s w refl, (by_pfcds bias_reported 640 v s w refl, tt)),
          ),
        )

  ok-Found : (v : F) (w : Wes F) → Found (lines_at fixed4 sscanf 641 v w) ok_after_bias
  unfolding wes_lines matching_lines search decimal
  ok-Found v w = by_wes ok_after_bias 641 v (some ok) w refl

  -- If `%.4f` prints numbers, the position file gives positions for 642 seconds or more while the
  -- program runs, with speeds that are numbers, and the bias changes the speed of the tick at 640 s:
  -- the log of the scripted run passes the end-to-end check. All twelve checks find their line and
  -- no emergency is reported; the script exits with 0.
  pub check_e2e_faults-log :
      PrintsNumbers fixed4
      → (file : Option (List Line)) (stacks : ℕ → Second F) (n : ℕ) → 641 < n
      → Flies sscanf n (startup sscanf file)
      → let v = speed_at sscanf 640 (startup sscanf file) in
        d.eq v (apply_bias v) ≡ false
        → check_e2e_faults (some (log fixed4 sscanf 0 (script stacks 0 n) (initial sscanf file)))
          ≡ 0
  unfolding IsCalm
  check_e2e_faults-log prints file stacks n long f e =
      let p = startup sscanf file in
      let s = initial sscanf file in
      let h = first_Holds sscanf file in
      let v = λ (j : ℕ). speed_at sscanf j p in
      let found = λ (qs : List Pattern) (j : ℕ) (lt : j < n).
        log-AllFound fixed4 sscanf stacks qs j n 0 s p lt f h in
      let lines = log fixed4 sscanf 0 (script stacks 0 n) s in
      check_e2e_faults_passed lines
        (All-append (Found lines) stops (conts ++ (biases ++ (ok_after_bias ∷ [])))
          (found stops 5 (omega (arith, long)) (λ w. stop-Found (v 5) w))
          (All-append (Found lines) conts (biases ++ (ok_after_bias ∷ []))
            (found conts 8 (omega (arith, long)) (λ w. cont-Found (v 8) w))
            (All-append (Found lines) biases (ok_after_bias ∷ [])
              (found biases 640 (omega (arith, long)) (λ w. bias-Found (v 640) w e))
              (found (ok_after_bias ∷ []) 641 long (λ w. (ok-Found (v 641) w, tt))))))
        (log-IsCalm fixed4 sscanf prints stacks n 0 s p f h)
