-- ===== src/Fbw/Controlled/Reports.antt =====
-- What WES reports while the script runs.
use std.Path.{fun_ext, subst}
use lf_benchmarks.Common.{
  ◌≢◌, ◌≡◌, ℕ, zero, suc, refl, sym, ap, ◌∙◌, Bool, true, false, ◌||◌, Option, none, some, List,
  leb, ltb, ◌==◌, arith,
}
use lf_benchmarks.Int.{eqb_refl}
use lf_benchmarks.Double.{Double}
use lf_benchmarks.Fbw.Nav.{Line, Scanned, Status}
use lf_benchmarks.Fbw.Pfc.{Pfc, on_fault, no_fix, tick, startup}
use lf_benchmarks.Fbw.Pfc.Course.{IsHealthy, tick-healthy}
use lf_benchmarks.Fbw.Vote.{Wes, decide, verdict, vote, requests_stop}
use lf_benchmarks.Fbw.System.{Second, System, maybe_fault, hear_status, second, run, initial}
use lf_benchmarks.Fbw.System.Computers.{
  Computer, pfc_of, fault_of, junk_of, Ticked, IsFresh, heard, joined, clean_tick,
}
use lf_benchmarks.Fbw.Controlled.Ticks.{flagged, flagged-healthy, altered, tick-flagged}
use lf_benchmarks.Fbw.Controlled.{
  scripted_fault, scripted, script, expected_status, expected_reports, Flies,
}

-- Whether the second computer is active as a second begins.
abbrev pub runs : ℕ → Bool
runs t = leb t 5 || ltb 8 t

module _ {F : Type 0} where
  -- The computers' flags after the script's faults of a second.
  abbrev pub flags : ℕ → Computer → Pfc F → Pfc F
  flags t Computer.first p = flagged true false p
  flags t Computer.second p = flagged (runs (suc t)) false p
  flags t Computer.third p = flagged true (t == 640) p

  pub faulted_2 :
      (t : ℕ) (p : Pfc F)
      → p.alive ≡ true
      → maybe_fault (scripted_fault t Computer.second) (flagged (runs t) false p)
        ≡ flagged (runs (suc t)) false p
  unfolding scripted_fault on_fault
  faulted_2 t p l = ground arith

  pub faulted_3 :
      (t : ℕ) (p : Pfc F)
      → p.alive ≡ true
      → maybe_fault (scripted_fault t Computer.third) (flagged true false p)
        ≡ flagged true (t == 640) p
  unfolding scripted_fault on_fault
  faulted_3 t p l = ground arith

  pub faulted_1 : (t : ℕ) (p : Pfc F) → maybe_fault (scripted_fault t Computer.first) p ≡ p
  unfolding scripted_fault on_fault
  faulted_1 t p = ground arith

module _ {F : Type 0} ⦃d : Double F⦄ where
  -- The ticks of the three computers, if one with no faults becomes `r`.
  abbrev ticked : ℕ → Pfc F → Computer → Ticked F
  ticked t r Computer.first = altered true false r
  ticked t r Computer.second = altered (runs (suc t)) false r
  ticked t r Computer.third = altered true (t == 640) r

  module _ (sscanf : Line → Scanned F) where
    heard-ticked :
        (t : ℕ) (r : Pfc F) (w : Wes F)
        → IsFresh w
        → d.eq r.accumulated_speed r.accumulated_speed ≡ true
        → let v = heard (ticked t r) w in
          (v.0 ≡ some (expected_status sscanf t r.accumulated_speed)) × IsFresh v.1
    unfolding vote decide verdict
    heard-ticked t r w f n = ground (arith, eqb_refl r.counter)

    -- The system as second `t` begins, when a computer with no faults is in state `p`.
    pub record Holds (t : ℕ) (p : Pfc F) (s : System F) : Type 0 where
      pub one : s.pfc1 ≡ p
      pub two : s.pfc2 ≡ flagged (runs t) false p
      pub three : s.pfc3 ≡ p
      pub healthy : IsHealthy p
      pub fresh : IsFresh s.wes
      pub going : s.stop_requested ≡ false

    -- The ticks of a second, the faults first.
    abbrev ticks : Second F → System F → Computer → Ticked F
    ticks i s c = tick sscanf (junk_of c i) (maybe_fault (fault_of c i) (pfc_of c s))

    ticks-ticked :
        (t : ℕ) (i : Second F) (s : System F) (p : Pfc F)
        → Holds t p s
        → (clean_tick sscanf p).0 ≢ none
        → (c : Computer) → ticks (scripted t i) s c ≡ ticked t (clean_tick sscanf p).1 c
    ticks-ticked t i s p h found Computer.first =
        ap (tick sscanf i.junk1) (faulted_1 t s.pfc1 ∙ (h.one ∙ sym (flagged-healthy p h.healthy)))
        ∙ tick-flagged sscanf i.junk1 true false p found
    ticks-ticked t i s p h found Computer.second =
        ap (tick sscanf i.junk2) (
          ap (maybe_fault (scripted_fault t Computer.second)) h.two ∙ faulted_2 t p h.healthy.alive)
        ∙ tick-flagged sscanf i.junk2 (runs (suc t)) false p found
    ticks-ticked t i s p h found Computer.third =
        ap (tick sscanf i.junk3) (
          ap (maybe_fault (scripted_fault t Computer.third))
            (h.three ∙ sym (flagged-healthy p h.healthy))
          ∙ faulted_3 t p h.healthy.alive)
        ∙ tick-flagged sscanf i.junk3 true (t == 640) p found

    pub expected_status-going : (t : ℕ) (v : F) → requests_stop (expected_status sscanf t v) ≡ false
    unfolding requests_stop
    expected_status-going t v = ground arith

    -- What a second is to give.
    abbrev pub GivesReport : ℕ → Pfc F → Option Status × System F → Type 0
    GivesReport t r result =
        (result.0 ≡ some (expected_status sscanf t r.accumulated_speed)) × Holds (suc t) r result.1

    joined-Holds :
        (t : ℕ) (r : Pfc F) (w : Wes F)
        → IsHealthy r
        → IsFresh w
        → d.eq r.accumulated_speed r.accumulated_speed ≡ true
        → GivesReport t r (joined (ticked t r) w false)
    joined-Holds t r w healthy f n =
        let (report, fresh) = heard-ticked t r w f n in
        (
          report,
          record {
            one = flagged-healthy r healthy;
            two = ground arith;
            three = flagged-healthy r healthy;
            healthy = healthy;
            fresh = fresh;
            going =
                ap (λ o. hear_status o false) report
                ∙ ground (arith, expected_status-going t r.accumulated_speed);
          },
        )

    pub second-Holds :
        (t : ℕ) (i : Second F) (s : System F) (p : Pfc F)
        → Holds t p s
        → (clean_tick sscanf p).0 ≢ none
        → let r = (clean_tick sscanf p).1 in
          d.eq r.accumulated_speed r.accumulated_speed ≡ true
          → GivesReport t r (second sscanf (scripted t i) s)
    unfolding second
    second-Holds t i s p h found n =
        let r = (clean_tick sscanf p).1 in
        let healthy = (tick-healthy sscanf (no_fix sscanf) p h.healthy).1 in
        subst (λ f. GivesReport t r (joined f s.wes s.stop_requested))
          (sym (fun_ext (ticks-ticked t i s p h found)))
          (subst (λ stop. GivesReport t r (joined (ticked t r) s.wes stop)) (sym h.going)
            (joined-Holds t r s.wes healthy h.fresh n))

    run-script :
        (stacks : ℕ → Second F) (t n : ℕ) (s : System F) (p : Pfc F)
        → Flies sscanf n p
        → Holds t p s
        → run sscanf (script stacks t n) s ≡ expected_reports sscanf t n p
    unfolding run script expected_reports
    run-script stacks t zero s p f h = refl
    run-script stacks t (suc n) s p (found, number, f) h =
        let (report, h') = second-Holds t (stacks t) s p h found number in
        let rest = run-script stacks (suc t) n _ (clean_tick sscanf p).1 f h' in
        simp (h.going, report, rest) refl

    pub first_Holds :
        (file : Option (List Line)) → Holds 0 (startup sscanf file) (initial sscanf file)
    first_Holds file = record {
      one = refl;
      two = refl;
      three = refl;
      healthy = record { alive = refl; active = refl; unbiased = refl };
      fresh = (refl, refl, refl);
      going = refl;
    }

    -- On a position file in which every second finds a position, as long as the speeds are numbers:
    -- whatever lies on the stacks, WES reports in each second of the scripted run exactly what is
    -- expected. The second computer is faulty from 5 s until it is resumed at 8 s, the third one is
    -- at 640 s if the bias changes its speed, and in all other seconds the report is `ok`.
    pub controlled_run :
        (file : Option (List Line)) (stacks : ℕ → Second F) (n : ℕ)
        → Flies sscanf n (startup sscanf file)
        → run sscanf (script stacks 0 n) (initial sscanf file)
          ≡ expected_reports sscanf 0 n (startup sscanf file)
    controlled_run file stacks n f =
        run-script stacks 0 n (initial sscanf file) (startup sscanf file) f (first_Holds file)
