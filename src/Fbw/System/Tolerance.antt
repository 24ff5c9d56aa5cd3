-- ===== src/Fbw/System/Tolerance.antt =====
-- One faulty flight computer is told from the others and never stops the program.
use std.Path.{fun_ext, subst}
use lf_benchmarks.Common.{
  ℕ, zero, suc, ◌≡◌, refl, sym, Bool-cases, ap, ◌∙◌, inl, inr, true, false, Option, none, some,
  List, [], ◌∷◌, arith, All, length,
}
use lf_benchmarks.Double.{Double}
use lf_benchmarks.Fbw.Nav.{Line, GllFix, Scanned}
use lf_benchmarks.Fbw.Pfc.{FaultMsg, Pfc, no_fix, tick, startup}
use lf_benchmarks.Fbw.Pfc.Course.{
  course, on_fault-course, IsHealthy, Sends, tick-course, tick-junk, tick-healthy, tick-silent,
  tick-dead, on_fault-alive,
}
use lf_benchmarks.Fbw.Vote.{Wes}
use lf_benchmarks.Fbw.System.{Second, System, maybe_fault, second, run, initial}
use lf_benchmarks.Fbw.System.Computers.{
  Computer, place, place_self, place-cases, pfc_of, fault_of, junk_of, Ticked, IsFresh, heard,
  joined, clean_tick,
}
use lf_benchmarks.Fbw.System.Round.{Blames, OnlyFaults, hear_status-going, round}

module _ {F : Type 0} ⦃d : Double F⦄ where
  module _ (sscanf : Line → Scanned F) where
    -- The faulty computer, if it lives, is where the others are.
    abbrev Follows : Pfc F → Pfc F → Type 0
    Follows q p = (q.alive ≡ true → course q ≡ course p)

    maybe_fault-Follows :
        (f : Option FaultMsg) (q p : Pfc F) → Follows q p → Follows (maybe_fault f q) p
    maybe_fault-Follows none q p h = h
    maybe_fault-Follows (some f) q p h = λ l. (on_fault-course f q).0 ∙ h (on_fault-alive f q l)

    tick-Follows :
        (a b : GllFix F) (q p : Pfc F)
        → IsHealthy p
        → Follows q p
        → Follows (tick sscanf a q).1 (tick sscanf b p).1
          × ((tick sscanf b p).0 ≡ none → (tick sscanf a q).0 ≡ none)
    tick-Follows a b q p h f = elim (Bool-cases q.alive) [
      | inl live ↦ (
        λ l. (tick-course sscanf a b q p (f live) (live ∙ sym h.alive)).0,
        tick-silent sscanf b a p q h (f live),
      )
      | inr dead ↦
          let (silent, still) = tick-dead sscanf a q dead in (λ l. cc (still, l), λ e. silent)
    ]

    -- A state in which two computers are in one state, with no fault, and the named one may have had
    -- any.
    record IsTolerant (k : Computer) (good : Pfc F) (s : System F) : Type 0 where
      agrees : (c : Computer) → pfc_of c s ≡ place k (pfc_of k s) good c
      healthy : IsHealthy good
      follows : Follows (pfc_of k s) good
      fresh : IsFresh s.wes
      going : s.stop_requested ≡ false

    joined-IsTolerant :
        (k : Computer) (rk r : Ticked F) (w : Wes F)
        → Sends r.0 r.1 × IsHealthy r.1
        → Follows rk.1 r.1 × (r.0 ≡ none → rk.0 ≡ none)
        → IsFresh w
        → d.eq (r.1).accumulated_speed (r.1).accumulated_speed ≡ true
        → let j = joined (place k rk r) w false in Blames k j.0 × IsTolerant k r.1 j.1
    joined-IsTolerant k rk r w (sends, healthy) (follows, silent) fresh number =
        let (blames, fresh') = round k rk r w sends silent fresh number in
        let here : pfc_of k (joined (place k rk r) w false).1 ≡ rk.1 = ground arith in
        (
          blames,
          record {
            agrees = λ c. ground arith;
            healthy = healthy;
            follows = rw here follows;
            fresh = fresh';
            going = hear_status-going k (heard (place k rk r) w).0 blames;
          },
        )

    good_tick :
        (a : GllFix F) (f : Option FaultMsg) (q p : Pfc F)
        → f ≡ none
        → q ≡ p
        → tick sscanf a (maybe_fault f q) ≡ clean_tick sscanf p
    good_tick a f q p e h =
        ap (λ g. tick sscanf a (maybe_fault g q)) e
        ∙ (ap (tick sscanf a) h ∙ tick-junk sscanf a (no_fix sscanf) p)

    -- The ticks of a second, the faults first.
    abbrev ticks : Second F → System F → Computer → Ticked F
    ticks i s c = tick sscanf (junk_of c i) (maybe_fault (fault_of c i) (pfc_of c s))

    ticks-place :
        (k : Computer) (i : Second F) (s : System F) (good : Pfc F)
        → OnlyFaults k i
        → ((c : Computer) → pfc_of c s ≡ place k (pfc_of k s) good c)
        → (c : Computer) → ticks i s c ≡ place k (ticks i s k) (clean_tick sscanf good) c
    ticks-place k i s good o a c = elim (place-cases k c) [
      | inl e ↦ rw e (sym (place_self k _ _))
      | inr other ↦
          good_tick (junk_of c i) (fault_of c i) (pfc_of c s) good
            (o c ∙ other _ (fault_of k i) none) (a c ∙ other _ (pfc_of k s) good)
          ∙ sym (other _ (ticks i s k) (clean_tick sscanf good))
    ]

    second-IsTolerant :
        (k : Computer) (i : Second F) (s : System F) (good : Pfc F)
        → OnlyFaults k i
        → IsTolerant k good s
        → d.eq
            (clean_tick sscanf good).1.accumulated_speed
            (clean_tick sscanf good).1.accumulated_speed
          ≡ true
        → Blames k (second sscanf i s).0
          × IsTolerant k (clean_tick sscanf good).1 (second sscanf i s).1
    unfolding second
    second-IsTolerant k i s good o t number =
        let after =
          joined-IsTolerant k (ticks i s k) (clean_tick sscanf good) s.wes
            (tick-healthy sscanf (no_fix sscanf) good t.healthy)
            (tick-Follows (junk_of k i) (no_fix sscanf) (maybe_fault (fault_of k i) (pfc_of k s))
              good t.healthy (maybe_fault-Follows (fault_of k i) (pfc_of k s) good t.follows))
            t.fresh number in
        subst
          (λ f.
            Blames k (joined f s.wes s.stop_requested).0
            × IsTolerant k (clean_tick sscanf good).1 (joined f s.wes s.stop_requested).1)
          (sym (fun_ext (ticks-place k i s good o t.agrees)))
          (subst
            (λ stop.
              Blames k (joined (place k (ticks i s k) (clean_tick sscanf good)) s.wes stop).0
              × IsTolerant k (clean_tick sscanf good).1
                  (joined (place k (ticks i s k) (clean_tick sscanf good)) s.wes stop).1)
            (sym t.going) after)

    -- The speeds that a computer without faults computes are numbers (`==` themselves), for so many
    -- seconds.
    abbrev pub Numbers : ℕ → Pfc F → Type 0
    Numbers zero p = Unit
    Numbers (suc n) p =
        let next = clean_tick sscanf p in
        (d.eq (next.1).accumulated_speed (next.1).accumulated_speed ≡ true) × Numbers n next.1

    run-Blames :
        (k : Computer) (is : List (Second F)) (s : System F) (good : Pfc F)
        → All (OnlyFaults k) is
        → Numbers (length is) good
        → IsTolerant k good s
        → All (Blames k) (run sscanf is s) × (length (run sscanf is s) ≡ length is)
    unfolding run
    run-Blames k [] s good o n t = (tt, refl)
    run-Blames k (i ∷ is) s good (o, os) (n, ns) t =
        let (blames, t') = second-IsTolerant k i s good o t n in
        let (all, long) =
          run-Blames k is (second sscanf i s).1 (clean_tick sscanf good).1 os ns t' in
        simp (t.going) ((blames, all), ap suc long)

    initial-IsTolerant :
        (k : Computer) (file : Option (List Line))
        → IsTolerant k (startup sscanf file) (initial sscanf file)
    initial-IsTolerant k file = record {
      agrees = λ c. ground arith;
      healthy = record { alive = refl; active = refl; unbiased = refl };
      follows = λ _. ground arith;
      fresh = (refl, refl, refl);
      going = refl;
    }

    -- From the start on one position file, if only one flight computer gets faults, of any kinds
    -- and in any order, and the speeds of a computer without faults are numbers, then the program
    -- runs on for as many seconds as it is given, and WES reports nothing, `ok` or that this
    -- computer is faulty.
    pub one_faulty :
        (k : Computer) (file : Option (List Line)) (is : List (Second F))
        → All (OnlyFaults k) is
        → Numbers (length is) (startup sscanf file)
        → All (Blames k) (run sscanf is (initial sscanf file))
          × (length (run sscanf is (initial sscanf file)) ≡ length is)
    one_faulty k file is o n =
        run-Blames k is (initial sscanf file) (startup sscanf file) o n (initial-IsTolerant k file)
