-- ===== src/Fbw/Controlled/Lines.antt =====
-- What is printed in a second of the scripted run.
use lf_benchmarks.Common.{
  ◌≢◌, ◌≡◌, ℕ, suc, refl, sym, ap, ◌∙◌, inl, inr, Bool, true, false, Bool-cases, not, ◌&&◌, ◌||◌,
  Option, none, some, List, [], ◌∷◌, ◌++◌, ◌==◌, if◌then◌else◌, arith,
}
use lf_benchmarks.Text.{codes}
use lf_benchmarks.Double.{Double}
use lf_benchmarks.Fbw.Nav.{Line, GllFix, Scanned, Status}
use lf_benchmarks.Fbw.Pfc.{Pfc, no_fix, tick, advance, tick_found, tick_open}
use lf_benchmarks.Fbw.Pfc.Course.{find_fix-junk}
use lf_benchmarks.Fbw.Vote.{Wes}
use lf_benchmarks.Fbw.System.{Second, System, maybe_fault}
use lf_benchmarks.Fbw.System.Computers.{Computer, pfc_of, fault_of, junk_of, clean_tick}
use lf_benchmarks.Fbw.Controlled.{scripted_fault, scripted, expected_status}
use lf_benchmarks.Fbw.Controlled.Ticks.{flagged, flagged-healthy}
use lf_benchmarks.Fbw.Controlled.Log.{
  print, name_of, when, fman_lines, fault_lines, status_lines, wes_lines, bias_line, found_lines,
  open_lines, tick_lines, computer_lines, wes_at, second_lines,
}
use lf_benchmarks.Fbw.Controlled.Reports.{
  runs, faulted_1, faulted_2, faulted_3, Holds, second-Holds,
}

-- What the second and the third computer print of the script's faults.
abbrev pub halted_lines : ℕ → List Line
halted_lines t =
    if t == 5
    then print (name_of Computer.second) t (codes "STOPPED by failure generator") ∷ []
    else if t == 8
    then print (name_of Computer.second) t (codes "RESUMED by failure generator") ∷ []
    else []

abbrev pub scheduled_lines : ℕ → List Line
scheduled_lines t = when (t == 640) (print (name_of Computer.third) t (codes "BIAS scheduled"))

module _ {F : Type 0} where
  fault_lines-1 :
      (t : ℕ) (p : Pfc F) → fault_lines Computer.first t (scripted_fault t Computer.first) p ≡ []
  unfolding fault_lines scripted_fault
  fault_lines-1 t p = ground arith

  fault_lines-2 :
      (t : ℕ) (p : Pfc F)
      → p.alive ≡ true
      → fault_lines Computer.second t (scripted_fault t Computer.second) (flagged (runs t) false p)
        ≡ halted_lines t
  unfolding fault_lines scripted_fault
  fault_lines-2 t p l = ground arith

  fault_lines-3 :
      (t : ℕ) (p : Pfc F)
      → p.alive ≡ true
      → fault_lines Computer.third t (scripted_fault t Computer.third) (flagged true false p)
        ≡ scheduled_lines t
  unfolding fault_lines scripted_fault
  fault_lines-3 t p l = ground arith

module _ {F : Type 0} ⦃d : Double F⦄ (fixed4 : F → List ℕ) (sscanf : Line → Scanned F) where
  speed_advance :
      (k : Computer) (t : ℕ) (fix : GllFix F) (rest : List Line) (b c : Bool) (p : Pfc F)
      → found_lines fixed4 k t (some (fix, rest)) (flagged b c p)
        ≡ when (b && c) (bias_line fixed4 k t (advance sscanf fix rest p).1.accumulated_speed)
  unfolding advance
  speed_advance k t fix rest b c p = ap (λ v. when (b && c) (bias_line fixed4 k t v)) (ground arith)

  open_lines-flagged :
      (k : Computer) (t : ℕ) (file : Option (List Line)) (x y : GllFix F) (b c : Bool) (p : Pfc F)
      → (tick_open sscanf file y p).0 ≢ none
      → open_lines fixed4 sscanf k t file x (flagged b c p)
        ≡ when (b && c) (bias_line fixed4 k t (tick_open sscanf file y p).1.accumulated_speed)
  open_lines-flagged k t none x y b c p h = absurd (h refl)
  open_lines-flagged k t (some lines) x y b c p h = rw (find_fix-junk sscanf lines x y) (go _ h)
    where
      go :
          (found : Option (GllFix F × List Line))
          → (tick_found sscanf found p).0 ≢ none
          → found_lines fixed4 k t found (flagged b c p)
            ≡ when (b && c) (bias_line fixed4 k t (tick_found sscanf found p).1.accumulated_speed)
      go none h = absurd (h refl)
      go (some (fix, rest)) h = speed_advance k t fix rest b c p

  tick_lines-flagged :
      (k : Computer) (t : ℕ) (x : GllFix F) (b c : Bool) (p : Pfc F)
      → (clean_tick sscanf p).0 ≢ none
      → tick_lines fixed4 sscanf k t x (flagged b c p)
        ≡ when (b && c) (bias_line fixed4 k t (clean_tick sscanf p).1.accumulated_speed)
  unfolding tick tick_lines
  tick_lines-flagged k t x b c p h = elim (Bool-cases (not p.alive || p.eof_reached)) [
    | inl e ↦ absurd (h (rw e refl))
    | inr e ↦ rw e (open_lines-flagged k t p.fp x (no_fix sscanf) b c p (rw e at h))
  ]

  -- What a computer prints in a second in which it is active or not, with a bias due or not.
  computer_lines-flagged :
      (k : Computer) (t : ℕ) (i : Second F) (s : System F) (p : Pfc F) (lines : List Line)
      (b c : Bool)
      → (clean_tick sscanf p).0 ≢ none
      → fault_lines k t (fault_of k i) (pfc_of k s) ≡ lines
      → maybe_fault (fault_of k i) (pfc_of k s) ≡ flagged b c p
      → computer_lines fixed4 sscanf k t i s
        ≡ lines ++ when (b && c) (bias_line fixed4 k t (clean_tick sscanf p).1.accumulated_speed)
  computer_lines-flagged k t i s p lines b c found e f =
      ap
        (λ l.
          l ++ tick_lines fixed4 sscanf k t (junk_of k i) (maybe_fault (fault_of k i) (pfc_of k s)))
        e
      ∙ ap (λ l. lines ++ l)
          (ap (tick_lines fixed4 sscanf k t (junk_of k i)) f
            ∙ tick_lines-flagged k t (junk_of k i) b c p found)

  -- The lines of the computers and of a second in which the computed speed is `v`.
  abbrev pub flown_lines : ℕ → F → Computer → List Line
  flown_lines t v Computer.first = []
  flown_lines t v Computer.second =
      halted_lines t ++ when (runs (suc t) && false) (bias_line fixed4 Computer.second t v)
  flown_lines t v Computer.third =
      scheduled_lines t ++ when (t == 640) (bias_line fixed4 Computer.third t v)

  abbrev pub expected_lines : ℕ → F → Option Status → Wes F → List Line
  expected_lines t v status w =
      fman_lines t
      ++ (flown_lines t v Computer.first
          ++ (flown_lines t v Computer.second
              ++ (flown_lines t v Computer.third
                  ++ (wes_lines fixed4 t status w ++ status_lines t status))))

  computer_lines-flown :
      (t : ℕ) (i : Second F) (s : System F) (p : Pfc F)
      → Holds sscanf t p s
      → (clean_tick sscanf p).0 ≢ none
      → (k : Computer)
      → computer_lines fixed4 sscanf k t (scripted t i) s
        ≡ flown_lines t (clean_tick sscanf p).1.accumulated_speed k
  computer_lines-flown t i s p h found Computer.first =
      computer_lines-flagged Computer.first t (scripted t i) s p [] true false found
        (fault_lines-1 t s.pfc1) (faulted_1 t s.pfc1 ∙ (h.one ∙ sym (flagged-healthy p h.healthy)))
  computer_lines-flown t i s p h found Computer.second =
      computer_lines-flagged Computer.second t (scripted t i) s p (halted_lines t) (runs (suc t))
        false found
        (ap (fault_lines Computer.second t (scripted_fault t Computer.second)) h.two
          ∙ fault_lines-2 t p h.healthy.alive)
        (ap (maybe_fault (scripted_fault t Computer.second)) h.two ∙ faulted_2 t p h.healthy.alive)
  computer_lines-flown t i s p h found Computer.third =
      let same = h.three ∙ sym (flagged-healthy p h.healthy) in
      computer_lines-flagged Computer.third t (scripted t i) s p (scheduled_lines t) true (t == 640)
        found
        (ap (fault_lines Computer.third t (scripted_fault t Computer.third)) same
          ∙ fault_lines-3 t p h.healthy.alive)
        (ap (maybe_fault (scripted_fault t Computer.third)) same ∙ faulted_3 t p h.healthy.alive)

  pub second_lines-expected :
      (t : ℕ) (i : Second F) (s : System F) (p : Pfc F)
      → Holds sscanf t p s
      → (clean_tick sscanf p).0 ≢ none
      → let v = (clean_tick sscanf p).1.accumulated_speed in
        d.eq v v ≡ true
        → second_lines fixed4 sscanf t (scripted t i) s
          ≡ expected_lines t v (some (expected_status sscanf t v)) (wes_at sscanf (scripted t i) s)
  unfolding second_lines
  second_lines-expected t i s p h found number =
      let flown = computer_lines-flown t i s p h found in
      let (report, _) = second-Holds sscanf t i s p h found number in
      simp (flown Computer.first, flown Computer.second, flown Computer.third, report) refl
