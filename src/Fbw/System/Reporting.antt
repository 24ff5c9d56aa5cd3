-- ===== src/Fbw/System/Reporting.antt =====
-- When WES reports.
use lf_benchmarks.Common.{
  ◌≡◌, ◌↔◌, refl, true, Bool-cases, not, ◌||◌, inl, inr, Option, none, some, List, [], ◌∷◌, arith,
}
use lf_benchmarks.Double.{Double}
use lf_benchmarks.Fbw.Nav.{Line, GllFix, SpeedMsg, Scanned}
use lf_benchmarks.Fbw.Pfc.{Pfc, find_fix, advance, tick, tick_found, tick_open}
use lf_benchmarks.Fbw.Vote.{Wes, vote}
use lf_benchmarks.Fbw.System.{Second, System, maybe_fault, hear1, hear2, hear3, second, initial}
use lf_benchmarks.Fbw.System.Computers.{Computer, IsFresh, pfc_of, fault_of, junk_of}
use lf_benchmarks.Fbw.System.Lockstep.{after_seconds}

module _ {F : Type 0} where
  -- A message that is sent is marked valid.
  abbrev IsValid : Option (SpeedMsg F) → Type 0
  IsValid none = Unit
  IsValid (some m) = m.valid ≡ true

module _ {F : Type 0} ⦃d : Double F⦄ where
  -- The vote on valid messages of one second leaves no flag set, and it reports exactly if there is
  -- a message.
  vote-Fresh :
      (a b c : Option (SpeedMsg F)) (w : Wes F)
      → IsValid a
      → IsValid b
      → IsValid c
      → IsFresh w
      → let v = vote (hear3 c (hear2 b (hear1 a w))) in
        IsFresh v.1 × ((v.0 ≡ none) ↔ ((a ≡ none) × (b ≡ none) × (c ≡ none)))
  unfolding vote
  vote-Fresh none none none w h i j f = ground arith
  vote-Fresh none none (some z) w h i j f = ground arith
  vote-Fresh none (some y) none w h i j f = ground arith
  vote-Fresh none (some y) (some z) w h i j f = ground arith
  vote-Fresh (some x) none none w h i j f = ground arith
  vote-Fresh (some x) none (some z) w h i j f = ground arith
  vote-Fresh (some x) (some y) none w h i j f = ground arith
  vote-Fresh (some x) (some y) (some z) w h i j f = ground arith

module _ {F : Type 0} ⦃d : Double F⦄ (sscanf : Line → Scanned F) where
  advance-IsValid :
      (fix : GllFix F) (rest : List Line) (p : Pfc F) → IsValid (advance sscanf fix rest p).0
  unfolding advance
  advance-IsValid fix rest p = ground arith

  tick_found-IsValid :
      (found : Option (GllFix F × List Line)) (p : Pfc F) → IsValid (tick_found sscanf found p).0
  tick_found-IsValid none p = tt
  tick_found-IsValid (some (fix, rest)) p = advance-IsValid fix rest p

  tick_open-IsValid :
      (file : Option (List Line)) (junk : GllFix F) (p : Pfc F)
      → IsValid (tick_open sscanf file junk p).0
  tick_open-IsValid none junk p = tt
  tick_open-IsValid (some lines) junk p = tick_found-IsValid (find_fix sscanf lines junk) p

  tick-IsValid : (junk : GllFix F) (p : Pfc F) → IsValid (tick sscanf junk p).0
  unfolding tick
  tick-IsValid junk p = elim (Bool-cases (not p.alive || p.eof_reached)) [
    | inl e ↦ rw e tt
    | inr e ↦ rw e (tick_open-IsValid p.fp junk p)
  ]

  -- What a computer sends in a second.
  abbrev pub sent : Computer → Second F → System F → Option (SpeedMsg F)
  sent c i s = (tick sscanf (junk_of c i) (maybe_fault (fault_of c i) (pfc_of c s))).0

  second-IsFresh :
      (i : Second F) (s : System F)
      → IsFresh s.wes
      → IsFresh (second sscanf i s).1.wes
        × (((second sscanf i s).0 ≡ none) ↔ (
            (sent Computer.first i s ≡ none)
            × (sent Computer.second i s ≡ none)
            × (sent Computer.third i s ≡ none)))
  unfolding second
  second-IsFresh i s f =
      vote-Fresh (sent Computer.first i s) (sent Computer.second i s) (sent Computer.third i s)
        s.wes (tick-IsValid _ _) (tick-IsValid _ _) (tick-IsValid _ _) f

  run-IsFresh :
      (is : List (Second F)) (s : System F)
      → IsFresh s.wes
      → IsFresh (after_seconds sscanf is s).wes
  unfolding after_seconds
  run-IsFresh [] s f = f
  run-IsFresh (i ∷ is) s f = run-IsFresh is (second sscanf i s).1 (second-IsFresh i s f).0

  -- Whatever faults the computers have had, no message of an earlier second is left for the vote,
  -- and WES reports nothing in a second exactly if no computer sends in it.
  pub reports_iff :
      (file : Option (List Line)) (is : List (Second F)) (i : Second F)
      → let s = after_seconds sscanf is (initial sscanf file) in
        IsFresh s.wes
        × (((second sscanf i s).0 ≡ none) ↔ (
            (sent Computer.first i s ≡ none)
            × (sent Computer.second i s ≡ none)
            × (sent Computer.third i s ≡ none)))
  reports_iff file is i =
      let fresh = run-IsFresh is (initial sscanf file) (refl, refl, refl) in
      (fresh, (second-IsFresh i (after_seconds sscanf is (initial sscanf file)) fresh).1)
