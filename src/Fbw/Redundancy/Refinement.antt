-- ===== src/Fbw/Redundancy/Refinement.antt =====
-- The system of flight computers does what it is to do.
use lf_benchmarks.Common.{
  ◌≡◌, ◌≢◌, refl, Bool, true, false, Option, none, some, List, [], ◌∷◌, length, arith,
}
use lf_benchmarks.Int.{ℤ, eqb_refl}
use lf_benchmarks.Double.{Double}
use lf_benchmarks.Fbw.Nav.{Line, Scanned}
use lf_benchmarks.Fbw.Pfc.{Pfc, no_fix, startup, tick}
use lf_benchmarks.Fbw.Pfc.Course.{IsHealthy, tick-healthy}
use lf_benchmarks.Fbw.Vote.{Wes, vote, decide, verdict}
use lf_benchmarks.Fbw.System.{
  Second, System, maybe_fault, hear1, hear2, hear3, hear_status, second, initial, run,
}
use lf_benchmarks.Fbw.System.Computers.{IsFresh, clean_tick}
use lf_benchmarks.Fbw.Redundancy.{Health, struck, spent, spoken, spec_report, spec_run, Finds}
use lf_benchmarks.Fbw.Redundancy.Computer.{Shows, said, Shows-struck, tick-Shows}

module _ {F : Type 0} ⦃d : Double F⦄ where
  vote-said :
      (n : ℤ) (a b c : Option F) (w : Wes F)
      → IsFresh w
      → let v = vote (hear3 (said n c) (hear2 (said n b) (hear1 (said n a) w))) in
        (v.0 ≡ spec_report a b c) × IsFresh v.1
  unfolding vote decide verdict
  vote-said n none none none w f = ground arith
  vote-said n none none (some z) w f = ground (arith, eqb_refl n)
  vote-said n none (some y) none w f = ground (arith, eqb_refl n)
  vote-said n none (some y) (some z) w f = ground (arith, eqb_refl n)
  vote-said n (some x) none none w f = ground (arith, eqb_refl n)
  vote-said n (some x) none (some z) w f = ground (arith, eqb_refl n)
  vote-said n (some x) (some y) none w f = ground (arith, eqb_refl n)
  vote-said n (some x) (some y) (some z) w f = ground (arith, eqb_refl n)

module _ {F : Type 0} ⦃d : Double F⦄ (sscanf : Line → Scanned F) where
  -- The system shows the health of its computers, on the course of `p`.
  pub record Refines (h1 h2 h3 : Health) (stop : Bool) (p : Pfc F) (s : System F) : Type 0 where
    pub one : Shows h1 s.pfc1 p
    pub two : Shows h2 s.pfc2 p
    pub three : Shows h3 s.pfc3 p
    pub healthy : IsHealthy p
    pub fresh : IsFresh s.wes
    pub stopping : s.stop_requested ≡ stop

  second-Refines :
      (h1 h2 h3 : Health) (stop : Bool) (p : Pfc F) (i : Second F) (s : System F)
      → (clean_tick sscanf p).0 ≢ none
      → Refines h1 h2 h3 stop p s
      → let next = (clean_tick sscanf p).1 in
        let say : Health → Option F = spoken next.accumulated_speed in
        let report =
          spec_report
            (say (struck i.fault1 h1))
            (say (struck i.fault2 h2))
            (say (struck i.fault3 h3)) in
        let r = second sscanf i s in
        (r.0 ≡ report)
        × Refines
            (spent (struck i.fault1 h1))
            (spent (struck i.fault2 h2))
            (spent (struck i.fault3 h3))
            (hear_status report stop)
            next
            r.1
  unfolding second
  second-Refines h1 h2 h3 stop p i s found r =
      let next = (clean_tick sscanf p).1 in
      let g1 = struck i.fault1 h1 in
      let g2 = struck i.fault2 h2 in
      let g3 = struck i.fault3 h3 in
      let (o1, q1) =
        tick-Shows sscanf g1 i.junk1 _ p found
          (Shows-struck i.fault1 h1 s.pfc1 p r.healthy r.one) in
      let (o2, q2) =
        tick-Shows sscanf g2 i.junk2 _ p found
          (Shows-struck i.fault2 h2 s.pfc2 p r.healthy r.two) in
      let (o3, q3) =
        tick-Shows sscanf g3 i.junk3 _ p found
          (Shows-struck i.fault3 h3 s.pfc3 p r.healthy r.three) in
      let say : Health → Option F = spoken next.accumulated_speed in
      let out1 = (tick sscanf i.junk1 (maybe_fault i.fault1 s.pfc1)).0 in
      let out2 = (tick sscanf i.junk2 (maybe_fault i.fault2 s.pfc2)).0 in
      let out3 = (tick sscanf i.junk3 (maybe_fault i.fault3 s.pfc3)).0 in
      let voted = vote (hear3 out3 (hear2 out2 (hear1 out1 s.wes))) in
      let told : (voted.0 ≡ spec_report (say g1) (say g2) (say g3)) × IsFresh voted.1 =
        rw (o1, o2, o3) (vote-said next.counter (say g1) (say g2) (say g3) s.wes r.fresh) in
      (
        told.0,
        record {
          one = q1;
          two = q2;
          three = q3;
          healthy = (tick-healthy sscanf (no_fix sscanf) p r.healthy).1;
          fresh = told.1;
          stopping = rw (told.0, r.stopping) refl;
        },
      )

  run-Refines :
      (is : List (Second F)) (h1 h2 h3 : Health) (stop : Bool) (p : Pfc F) (s : System F)
      → Finds sscanf (length is) p
      → Refines h1 h2 h3 stop p s
      → run sscanf is s ≡ spec_run sscanf is p h1 h2 h3 stop
  unfolding run spec_run
  run-Refines [] h1 h2 h3 stop p s f r = refl
  run-Refines (i ∷ is) h1 h2 h3 stop p s (found, f) r =
      let (report, after) = second-Refines h1 h2 h3 stop p i s found r in
      let rest = run-Refines is _ _ _ _ (clean_tick sscanf p).1 (second sscanf i s).1 f after in
      simp (r.stopping, report, rest) refl

  -- As long as positions are found, whatever stop, interrupt, continue and bias messages the three
  -- computers get: WES reports in each second the verdict on the speeds that computers of that
  -- health send, or nothing if none sends, until it reports an emergency. The right speed is that of
  -- a computer which gets no messages.
  pub run-spec_run :
      (file : Option (List Line)) (is : List (Second F))
      → Finds sscanf (length is) (startup sscanf file)
      → run sscanf is (initial sscanf file)
        ≡ spec_run sscanf is
            (startup sscanf file)
            (Health.live true false)
            (Health.live true false)
            (Health.live true false)
            false
  run-spec_run file is f =
      run-Refines is (Health.live true false) (Health.live true false) (Health.live true false)
        false (startup sscanf file) (initial sscanf file) f
        (record {
          one = refl;
          two = refl;
          three = refl;
          healthy = record { alive = refl; active = refl; unbiased = refl };
          fresh = (refl, refl, refl);
          stopping = refl;
        })
