-- ===== src/Fbw/Pfc/Course.antt =====
-- Faults do not move a flight computer off its course through the position file.
use mathlib.Core.Path.{subst}
use lf_benchmarks.Common.{
  ◌≡◌, ◌≢◌, ◌⊎◌, inl, refl, sym, ap, Bool, true, false, Option, none, some, List, [], ◌∷◌, arith,
}
use lf_benchmarks.Int.{ℤ}
use lf_benchmarks.Double.{Double}
use lf_benchmarks.Fbw.Nav.{Line, GllFix, SpeedMsg, Scanned, parse_gpgll}
use lf_benchmarks.Fbw.Pfc.{FaultMsg, Pfc, on_fault, find_fix, advance, tick, tick_found, tick_open}

-- What navigation depends on.
pub record Course (F : Type 0) : Type 0 where
  pub fp : Option (List Line)
  pub prev_fix : GllFix F
  pub has_prev : Bool
  pub accumulated_speed : F
  pub counter : ℤ
  pub eof_reached : Bool

module _ {F : Type 0} where
  abbrev pub course : Pfc F → Course F
  course p = record {
    fp = p.fp;
    prev_fix = p.prev_fix;
    has_prev = p.has_prev;
    accumulated_speed = p.accumulated_speed;
    counter = p.counter;
    eof_reached = p.eof_reached;
  }

  -- A computer that is neither stopped nor biased sends its own state, or nothing.
  abbrev pub Sends : Option (SpeedMsg F) → Pfc F → Type 0
  Sends o p =
      (o ≡ none)
      ⊎ (o ≡ some (record { counter = p.counter; speed = p.accumulated_speed; valid = true }))

  pub record IsHealthy (p : Pfc F) : Type 0 where
    pub alive : p.alive ≡ true
    pub active : p.active ≡ true
    pub unbiased : p.bias ≡ false

  pub on_fault-course :
      (f : FaultMsg) (p : Pfc F)
      → (course (on_fault f p) ≡ course p)
        × (f.interrupt ≡ false → p.alive ≡ true → (on_fault f p).alive ≡ true)
  unfolding on_fault
  on_fault-course f p = ground arith

  -- No fault brings a computer back to life.
  pub on_fault-alive : (f : FaultMsg) (p : Pfc F) → (on_fault f p).alive ≡ true → p.alive ≡ true
  unfolding on_fault
  on_fault-alive f p l = ground arith

module _ {F : Type 0} ⦃d : Double F⦄ (sscanf : Line → Scanned F) where
  -- What the local `fix` holds at first never matters.
  pub find_fix-junk :
      (lines : List Line) (a b : GllFix F) → find_fix sscanf lines a ≡ find_fix sscanf lines b
  unfolding find_fix parse_gpgll
  find_fix-junk [] a b = refl
  find_fix-junk (line ∷ lines) a b =
      ground
        (arith, find_fix-junk lines (parse_gpgll sscanf line a).1 (parse_gpgll sscanf line b).1)

  -- The same course, and both as alive as before.
  abbrev SameCourse : Pfc F → Pfc F → Pfc F → Pfc F → Type 0
  SameCourse p q p' q' = (course p' ≡ course q') × (p'.alive ≡ p.alive) × (q'.alive ≡ q.alive)

  advance-course :
      (fix : GllFix F) (rest : List Line) (p q : Pfc F)
      → course p ≡ course q
      → SameCourse p q (advance sscanf fix rest p).1 (advance sscanf fix rest q).1
  unfolding advance
  advance-course fix rest p q e = ground arith

  tick_found-course :
      (found : Option (GllFix F × List Line)) (p q : Pfc F)
      → course p ≡ course q
      → SameCourse p q (tick_found sscanf found p).1 (tick_found sscanf found q).1
  tick_found-course none p q e = ground arith
  tick_found-course (some (fix, rest)) p q e = advance-course fix rest p q e

  tick_open-course :
      (file : Option (List Line)) (a b : GllFix F) (p q : Pfc F)
      → course p ≡ course q
      → SameCourse p q (tick_open sscanf file a p).1 (tick_open sscanf file b q).1
  tick_open-course none a b p q e = (e, refl, refl)
  tick_open-course (some lines) a b p q e =
      rw (find_fix-junk lines a b) (tick_found-course (find_fix sscanf lines b) p q e)

  pub tick-course :
      (a b : GllFix F) (p q : Pfc F)
      → course p ≡ course q
      → p.alive ≡ q.alive
      → SameCourse p q (tick sscanf a p).1 (tick sscanf b q).1
  unfolding tick
  tick-course a b p q e l =
      let moved : SameCourse p q (tick_open sscanf p.fp a p).1 (tick_open sscanf q.fp b q).1 =
        subst (λ file. SameCourse p q (tick_open sscanf p.fp a p).1 (tick_open sscanf file b q).1)
          (ap (λ (c : Course F). c.fp) e) (tick_open-course p.fp a b p q e) in
      ground arith

  tick_open-junk :
      (file : Option (List Line)) (a b : GllFix F) (p : Pfc F)
      → tick_open sscanf file a p ≡ tick_open sscanf file b p
  tick_open-junk none a b p = refl
  tick_open-junk (some lines) a b p = rw (find_fix-junk lines a b)

  pub tick-junk : (a b : GllFix F) (p : Pfc F) → tick sscanf a p ≡ tick sscanf b p
  unfolding tick
  tick-junk a b p = rw (tick_open-junk p.fp a b p)

  pub tick-dead :
      (a : GllFix F) (p : Pfc F)
      → p.alive ≡ false
      → ((tick sscanf a p).0 ≡ none) × ((tick sscanf a p).1.alive ≡ false)
  unfolding tick
  tick-dead a p h = ground arith

  abbrev SendsHealthy : Option (SpeedMsg F) × Pfc F → Type 0
  SendsHealthy r = Sends r.0 r.1 × IsHealthy r.1

  advance-healthy :
      (fix : GllFix F) (rest : List Line) (p : Pfc F)
      → IsHealthy p
      → SendsHealthy (advance sscanf fix rest p)
  unfolding advance
  advance-healthy fix rest p h = ground arith

  tick_open-healthy :
      (file : Option (List Line)) (a : GllFix F) (p : Pfc F)
      → IsHealthy p
      → SendsHealthy (tick_open sscanf file a p)
  tick_open-healthy none a p h = (inl refl, h)
  tick_open-healthy (some lines) a p h = go (find_fix sscanf lines a)
    where
      go : (found : Option (GllFix F × List Line)) → SendsHealthy (tick_found sscanf found p)
      go none = ground arith
      go (some (fix, rest)) = advance-healthy fix rest p h

  pub tick-healthy : (a : GllFix F) (p : Pfc F) → IsHealthy p → SendsHealthy (tick sscanf a p)
  unfolding tick
  tick-healthy a p h = let opened = tick_open-healthy p.fp a p h in ground arith

  -- Where a healthy computer finds nothing to send, one on the same course has nothing to send.
  advance-sends :
      (fix : GllFix F) (rest : List Line) (p : Pfc F)
      → IsHealthy p
      → (advance sscanf fix rest p).0 ≢ none
  unfolding advance
  advance-sends fix rest p h = ground arith

  tick_open-silent :
      (file : Option (List Line)) (a b : GllFix F) (p q : Pfc F)
      → IsHealthy p
      → (tick_open sscanf file a p).0 ≡ none
      → (tick_open sscanf file b q).0 ≡ none
  tick_open-silent none a b p q h e = refl
  tick_open-silent (some lines) a b p q h e =
      rw (find_fix-junk lines b a) (go (find_fix sscanf lines a) e)
    where
      go :
          (found : Option (GllFix F × List Line))
          → (tick_found sscanf found p).0 ≡ none
          → (tick_found sscanf found q).0 ≡ none
      go none e = refl
      go (some (fix, rest)) e = absurd (advance-sends fix rest p h e)

  pub tick-silent :
      (a b : GllFix F) (p q : Pfc F)
      → IsHealthy p
      → course q ≡ course p
      → (tick sscanf a p).0 ≡ none
      → (tick sscanf b q).0 ≡ none
  unfolding tick
  tick-silent a b p q h e s =
      let file : p.fp ≡ q.fp = sym (ap (λ (c : Course F). c.fp) e) in
      let silent : (tick_open sscanf p.fp a p).0 ≡ none → (tick_open sscanf q.fp b q).0 ≡ none =
        subst (λ f. (tick_open sscanf p.fp a p).0 ≡ none → (tick_open sscanf f b q).0 ≡ none) file
          (tick_open-silent p.fp a b p q h) in
      ground arith
