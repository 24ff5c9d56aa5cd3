-- ===== src/Fbw/Controlled/Found.antt =====
-- Where the lines of a second stand in the log of the scripted run.
use std.Path.{subst}
use lf_benchmarks.Common.{
  ◌≡◌, ℕ, zero, suc, ◌<◌, refl, sym, ap, ◌∙◌, false, some, List, [], ◌∷◌, ◌++◌, All, All-append,
  arith,
}
use lf_benchmarks.Double.{Double}
use lf_benchmarks.Fbw.Nav.{Line, Scanned}
use lf_benchmarks.Fbw.Pfc.{Pfc}
use lf_benchmarks.Fbw.Vote.{Wes}
use lf_benchmarks.Fbw.System.{Second, System, second}
use lf_benchmarks.Fbw.System.Computers.{clean_tick}
use lf_benchmarks.Fbw.Controlled.{scripted, script, expected_status, speed_at, Flies}
use lf_benchmarks.Fbw.Controlled.Log.{wes_at, second_lines, log}
use lf_benchmarks.Fbw.Controlled.Lines.{expected_lines, second_lines-expected}
use lf_benchmarks.Fbw.Controlled.Calm.{PrintsNumbers, IsCalm, expected_lines-AllCalm}
use lf_benchmarks.Fbw.Controlled.Reports.{Holds, second-Holds, expected_status-going}
use lf_benchmarks.Scripts.Patterns.{Pattern}
use lf_benchmarks.Scripts.EndToEnd.{Found, Found-left, Found-right}

-- The number that is `j` above `t`.
abbrev pub above : (j t : ℕ) → ℕ
above zero t = t
above (suc j) t = above j (suc t)

module _ {F : Type 0} ⦃d : Double F⦄ (fixed4 : F → List ℕ) (sscanf : Line → Scanned F) where
  log_running :
      (t : ℕ) (i : Second F) (is : List (Second F)) (s : System F)
      → s.stop_requested ≡ false
      → log fixed4 sscanf t (i ∷ is) s
        ≡ second_lines fixed4 sscanf t i s ++ log fixed4 sscanf (suc t) is (second sscanf i s).1
  unfolding log
  log_running t i is s e = simp e refl

  -- The lines of a second as it is expected, whatever WES holds.
  abbrev pub lines_at : ℕ → F → Wes F → List Line
  lines_at t v w = expected_lines fixed4 sscanf t v (some (expected_status sscanf t v)) w

  log-script :
      (stacks : ℕ → Second F) (t n : ℕ) (s : System F) (p : Pfc F)
      → Flies sscanf (suc n) p
      → Holds sscanf t p s
      → log fixed4 sscanf t (script stacks t (suc n)) s
        ≡ lines_at t
            (clean_tick sscanf p).1.accumulated_speed
            (wes_at sscanf (scripted t (stacks t)) s)
          ++ log fixed4 sscanf
              (suc t)
              (script stacks (suc t) n)
              (second sscanf (scripted t (stacks t)) s).1
  unfolding script
  log-script stacks t n s p (found, number, f) h =
      log_running t (scripted t (stacks t)) (script stacks (suc t) n) s h.going
      ∙ ap
          (λ l.
            l
            ++ log fixed4 sscanf (suc t) (script stacks (suc t) n)
                (second sscanf (scripted t (stacks t)) s).1)
          (second_lines-expected fixed4 sscanf t (stacks t) s p h found number)

  -- What is printed in the `j`-th second from `t` on is found in the log.
  log-Found :
      (stacks : ℕ → Second F) (q : Pattern) (j n t : ℕ) (s : System F) (p : Pfc F)
      → j < n
      → Flies sscanf n p
      → Holds sscanf t p s
      → ((w : Wes F) → Found (lines_at (above j t) (speed_at sscanf j p) w) q)
      → Found (log fixed4 sscanf t (script stacks t n) s) q
  unfolding speed_at
  log-Found stacks q j zero t s p lt f h here = absurd (omega arith)
  log-Found stacks q zero (suc n) t s p lt f h here =
      subst (λ l. Found l q) (sym (log-script stacks t n s p f h))
        (Found-left q _ _ (here (wes_at sscanf (scripted t (stacks t)) s)))
  log-Found stacks q (suc j) (suc n) t s p lt (found, number, f) h here =
      let (_, h') = second-Holds sscanf t (stacks t) s p h found number in
      subst (λ l. Found l q) (sym (log-script stacks t n s p (found, number, f) h))
        (Found-right q (lines_at t _ _) _
          (log-Found stacks q j n (suc t) _ _ (omega (arith, lt)) f h' here))

  pub log-AllFound :
      (stacks : ℕ → Second F) (qs : List Pattern) (j n t : ℕ) (s : System F) (p : Pfc F)
      → j < n
      → Flies sscanf n p
      → Holds sscanf t p s
      → ((w : Wes F) → All (Found (lines_at (above j t) (speed_at sscanf j p) w)) qs)
      → All (Found (log fixed4 sscanf t (script stacks t n) s)) qs
  log-AllFound stacks [] j n t s p lt f h here = tt
  log-AllFound stacks (q ∷ qs) j n t s p lt f h here = (
    log-Found stacks q j n t s p lt f h (λ w. (here w).0),
    log-AllFound stacks qs j n t s p lt f h (λ w. (here w).1),
  )

  pub log-IsCalm :
      (prints : PrintsNumbers fixed4)
      → (stacks : ℕ → Second F) (n t : ℕ) (s : System F) (p : Pfc F) → Flies sscanf n p
      → Holds sscanf t p s
      → All IsCalm (log fixed4 sscanf t (script stacks t n) s)
  unfolding script log
  log-IsCalm prints stacks zero t s p f h = tt
  log-IsCalm prints stacks (suc n) t s p (found, number, f) h =
      let (_, h') = second-Holds sscanf t (stacks t) s p h found number in
      let v = (clean_tick sscanf p).1.accumulated_speed in
      subst (All IsCalm) (sym (log-script stacks t n s p (found, number, f) h)) (
        All-append IsCalm (lines_at t v _) _
          (expected_lines-AllCalm fixed4 prints sscanf t v _ _ (expected_status-going sscanf t v))
          (log-IsCalm prints stacks n (suc t) _ _ f h'))
