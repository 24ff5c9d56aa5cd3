-- ===== src/Fbw/System/Silence.antt =====
-- The end of the position file.
use lf_benchmarks.Common.{
  ℕ, suc, ◌≤◌, ◌<◌, ◌≡◌, refl, sym, ap, ◌∙◌, Bool, true, false, Bool-cases, not, ◌||◌, inl, inr,
  Option, none, some, List, [], ◌∷◌, length, arith,
}
use lf_benchmarks.Double.{Double}
use lf_benchmarks.Fbw.Nav.{Line, GllFix, Scanned, parse_gpgll}
use lf_benchmarks.Fbw.Pfc.{FaultMsg, Pfc, on_fault, find_fix, advance, tick, tick_found, tick_open}
use lf_benchmarks.Fbw.Pfc.Course.{on_fault-alive}
use lf_benchmarks.Fbw.System.{Second, System, maybe_fault, second, initial}
use lf_benchmarks.Fbw.System.Computers.{Computer}
use lf_benchmarks.Fbw.System.Lockstep.{after_seconds}
use lf_benchmarks.Fbw.System.Reporting.{sent, reports_iff}

open_file : (a b : Bool) → not a || b ≡ false → (a ≡ true) × (b ≡ false)
open_file a b h = ground arith

module _ {F : Type 0} where
  -- A computer that still reads has at most so many lines ahead.
  abbrev Ahead : ℕ → Pfc F → Type 0
  Ahead n p =
      p.alive ≡ true
      → p.eof_reached ≡ false
      → (lines : List Line) → p.fp ≡ some lines
      → length lines ≤ n

  on_fault-kept :
      (f : FaultMsg) (p : Pfc F)
      → ((on_fault f p).fp ≡ p.fp) × ((on_fault f p).eof_reached ≡ p.eof_reached)
  unfolding on_fault
  on_fault-kept f p = ground arith

  Ahead-fault : (n : ℕ) (f : Option FaultMsg) (p : Pfc F) → Ahead n p → Ahead n (maybe_fault f p)
  Ahead-fault n none p h = h
  Ahead-fault n (some f) p h = λ l e lines g.
      let (file, eof) = on_fault-kept f p in
      h (on_fault-alive f p l) (sym eof ∙ e) lines (sym file ∙ g)

  found_rest :
      {a b : GllFix F} {r s : List Line}
      → ◌≡◌ {A = Option (GllFix F × List Line)} (some (a, r)) (some (b, s))
      → r ≡ s
  found_rest e = ap rest_of e
    where
      rest_of : Option (GllFix F × List Line) → List Line
      rest_of none = []
      rest_of (some x) = x.1

module _ {F : Type 0} ⦃d : Double F⦄ (sscanf : Line → Scanned F) where
  pub find_fix-length :
      (lines : List Line) (junk fix : GllFix F) (rest : List Line)
      → find_fix sscanf lines junk ≡ some (fix, rest)
      → length rest < length lines
  unfolding find_fix
  find_fix-length [] junk fix rest e = absurd cc
  find_fix-length (line ∷ lines) junk fix rest e =
      elim (Bool-cases (parse_gpgll sscanf line junk).0) [
        | inl b ↦ let same : lines ≡ rest = found_rest (rw b at e) in rw same (omega arith)
        | inr b ↦
            omega
              (arith, find_fix-length lines (parse_gpgll sscanf line junk).1 fix rest (rw b at e))
      ]

  advance-file :
      (fix : GllFix F) (rest : List Line) (p : Pfc F) → (advance sscanf fix rest p).1.fp ≡ some rest
  unfolding advance
  advance-file fix rest p = ground arith

  tick_found-Ahead :
      (n : ℕ) (lines : List Line) (found : Option (GllFix F × List Line)) (p : Pfc F)
      → ((fix : GllFix F) (rest : List Line) → found ≡ some (fix, rest) → length rest ≤ n)
      → Ahead n (tick_found sscanf found p).1
  tick_found-Ahead n lines none p h = λ l e ls g. absurd cc
  tick_found-Ahead n lines (some (fix, rest)) p h = λ l e ls g.
      let same : rest ≡ ls = cc (advance-file fix rest p, g) in rw (← same) (h fix rest refl)

  tick_open-Ahead :
      (n : ℕ) (file : Option (List Line)) (junk : GllFix F) (p : Pfc F)
      → p.fp ≡ file
      → ((lines : List Line) → file ≡ some lines → length lines ≤ suc n)
      → Ahead n (tick_open sscanf file junk p).1
  tick_open-Ahead n none junk p f h = λ l e ls g. absurd cc
  tick_open-Ahead n (some lines) junk p f h =
      tick_found-Ahead n lines (find_fix sscanf lines junk) p
        (λ fix rest e. omega (arith, find_fix-length lines junk fix rest e, h lines refl))

  tick-Ahead :
      (n : ℕ) (junk : GllFix F) (p : Pfc F) → Ahead (suc n) p → Ahead n (tick sscanf junk p).1
  unfolding tick
  tick-Ahead n junk p h = elim (Bool-cases (not p.alive || p.eof_reached)) [
    | inl e ↦ rw e (λ l g ls q. absurd (ground arith))
    | inr e ↦ rw e (tick_open-Ahead n p.fp junk p refl (h (open_file _ _ e).0 (open_file _ _ e).1))
  ]

  tick_open-silent :
      (file : Option (List Line)) (junk : GllFix F) (p : Pfc F)
      → ((lines : List Line) → file ≡ some lines → length lines ≤ 0)
      → (tick_open sscanf file junk p).0 ≡ none
  unfolding find_fix
  tick_open-silent none junk p h = refl
  tick_open-silent (some []) junk p h = refl
  tick_open-silent (some (line ∷ lines)) junk p h = absurd (omega (arith, h (line ∷ lines) refl))

  tick-silent : (junk : GllFix F) (p : Pfc F) → Ahead 0 p → (tick sscanf junk p).0 ≡ none
  unfolding tick
  tick-silent junk p h = elim (Bool-cases (not p.alive || p.eof_reached)) [
    | inl e ↦ rw e refl
    | inr e ↦ rw e (tick_open-silent p.fp junk p (h (open_file _ _ e).0 (open_file _ _ e).1))
  ]

  AllAhead : ℕ → System F → Type 0
  AllAhead n s = Ahead n s.pfc1 × Ahead n s.pfc2 × Ahead n s.pfc3

  second-AllAhead :
      (n : ℕ) (i : Second F) (s : System F) → AllAhead (suc n) s → AllAhead n (second sscanf i s).1
  unfolding second AllAhead
  second-AllAhead n i s (a, b, c) = (
    tick-Ahead n i.junk1 _ (Ahead-fault (suc n) i.fault1 s.pfc1 a),
    tick-Ahead n i.junk2 _ (Ahead-fault (suc n) i.fault2 s.pfc2 b),
    tick-Ahead n i.junk3 _ (Ahead-fault (suc n) i.fault3 s.pfc3 c),
  )

  -- After as many seconds as there were lines ahead none is.
  after-AllAhead :
      (is : List (Second F)) (s : System F)
      → AllAhead (length is) s
      → AllAhead 0 (after_seconds sscanf is s)
  unfolding after_seconds
  after-AllAhead [] s a = a
  after-AllAhead (i ∷ is) s a =
      after-AllAhead is (second sscanf i s).1 (second-AllAhead (length is) i s a)

  -- From as many seconds on as the position file has lines, whatever messages the computers get: no
  -- computer sends anything, and WES reports nothing.
  pub silent_after_file :
      (lines : List Line) (is : List (Second F)) (i : Second F)
      → length lines ≤ length is
      → let s = after_seconds sscanf is (initial sscanf (some lines)) in
        (sent sscanf Computer.first i s ≡ none)
        × (sent sscanf Computer.second i s ≡ none)
        × (sent sscanf Computer.third i s ≡ none)
        × ((second sscanf i s).0 ≡ none)
  unfolding AllAhead
  silent_after_file lines is i h =
      let s = after_seconds sscanf is (initial sscanf (some lines)) in
      let start : Ahead (length is) (initial sscanf (some lines)).pfc1 =
        λ l e ls g. let same : lines ≡ ls = cc g in rw (← same) h in
      let (a, b, c) = after-AllAhead is (initial sscanf (some lines)) (start, start, start) in
      let one = tick-silent i.junk1 _ (Ahead-fault 0 i.fault1 s.pfc1 a) in
      let two = tick-silent i.junk2 _ (Ahead-fault 0 i.fault2 s.pfc2 b) in
      let three = tick-silent i.junk3 _ (Ahead-fault 0 i.fault3 s.pfc3 c) in
      let (_, (_, silent)) = reports_iff sscanf (some lines) is i in
      (one, two, three, silent (one, two, three))
