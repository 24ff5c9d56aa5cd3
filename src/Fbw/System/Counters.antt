-- ===== src/Fbw/System/Counters.antt =====
-- The counters of the flight computers, which the program keeps in an `int`.
use std.Path.{subst}
use lf_benchmarks.Common.{
  ◌⊎◌, ℕ, zero, suc, ◌+◌, ◌≤◌, ◌<◌, ◌≡◌, refl, sym, ap, ◌∙◌, Bool-cases, not, ◌||◌, inl, inr,
  Option, none, some, List, [], ◌∷◌, length, arith,
}
use lf_benchmarks.Int.{ℤ, pos, negsuc, sub_ℕ, ◌+ℤ◌}
use lf_benchmarks.Double.{Double}
use lf_benchmarks.Fbw.Nav.{Line, GllFix, Scanned}
use lf_benchmarks.Fbw.Pfc.{FaultMsg, Pfc, find_fix, advance, tick, tick_found, tick_open, startup}
use lf_benchmarks.Fbw.Pfc.Course.{on_fault-course}
use lf_benchmarks.Fbw.System.{Second, System, maybe_fault, second, initial}
use lf_benchmarks.Fbw.System.Computers.{Computer, pfc_of}
use lf_benchmarks.Fbw.System.Lockstep.{after_seconds}
use lf_benchmarks.Fbw.System.Silence.{find_fix-length}

-- One less than a number, which -1 is for 0.
abbrev pub counted : ℕ → ℤ
counted m = sub_ℕ m 1

counted-suc : (m : ℕ) → counted m +ℤ pos 1 ≡ counted (suc m)
counted-suc m = ground arith

counted_cases :
    (m a b : ℕ) (z : ℤ)
    → z ≡ counted m
    → m ≤ a
    → m ≤ b
    → (z ≡ negsuc 0) ⊎ ((k : ℕ) × (z ≡ pos k) × (k < a) × (k < b))
counted_cases zero a b z e h k = inl e
counted_cases (suc m) a b z e h k = inr (m, e ∙ ground arith, omega (arith, h), omega (arith, k))

module _ {F : Type 0} where
  -- So many positions were found in so many ticks, and the lines still ahead are not among the lines
  -- they were found in.
  record Counts (lines ticks : ℕ) (p : Pfc F) : Type 0 where
    found : ℕ
    value : p.counter ≡ counted found
    in_time : found ≤ ticks
    in_file : (rest : List Line) → p.fp ≡ some rest → found + length rest ≤ lines
    all : found ≤ lines

  Counts-fault :
      (n u : ℕ) (f : Option FaultMsg) (p : Pfc F) → Counts n u p → Counts n u (maybe_fault f p)
  Counts-fault n u none p h = h
  Counts-fault n u (some f) p h =
      let (same, _) = on_fault-course f p in
      record {
        found = h.found;
        value = ap (λ c. c.counter) same ∙ h.value;
        in_time = h.in_time;
        in_file = λ rest e. h.in_file rest (sym (ap (λ c. c.fp) same) ∙ e);
        all = h.all;
      }

  -- A tick in which no position is found.
  Counts-later : (n u : ℕ) (p : Pfc F) → Counts n u p → Counts n (suc u) p
  Counts-later n u p h = record {
    found = h.found;
    value = h.value;
    in_time = omega (arith, h.in_time);
    in_file = h.in_file;
    all = h.all;
  }

module _ {F : Type 0} ⦃d : Double F⦄ (sscanf : Line → Scanned F) where
  advance-counter :
      (fix : GllFix F) (rest : List Line) (p : Pfc F)
      → ((advance sscanf fix rest p).1.counter ≡ p.counter +ℤ pos 1)
        × ((advance sscanf fix rest p).1.fp ≡ some rest)
  unfolding advance
  advance-counter fix rest p = ground arith

  tick_found-Counts :
      (n u : ℕ) (lines : List Line) (found : Option (GllFix F × List Line)) (p : Pfc F)
      → ((fix : GllFix F) (rest : List Line)
          → found ≡ some (fix, rest)
          → length rest < length lines)
      → p.fp ≡ some lines
      → Counts n u p
      → Counts n (suc u) (tick_found sscanf found p).1
  tick_found-Counts n u lines none p shorter e h = record {
    found = h.found;
    value = h.value;
    in_time = omega (arith, h.in_time);
    in_file = λ rest f. let same : [] ≡ rest = cc f in rw (← same) (omega (arith, h.all));
    all = h.all;
  }
  tick_found-Counts n u lines (some (fix, rest)) p shorter e h =
      let (count, file) = advance-counter fix rest p in
      let short = shorter fix rest refl in
      let before = h.in_file lines e in
      record {
        found = suc h.found;
        value = count ∙ (ap (λ z. z +ℤ pos 1) h.value ∙ counted-suc h.found);
        in_time = omega (arith, h.in_time);
        in_file = λ rest' f.
            let same : rest ≡ rest' = cc (file, f) in rw (← same) (omega (arith, short, before));
        all = omega (arith, short, before);
      }

  tick-Counts :
      (n u : ℕ) (junk : GllFix F) (p : Pfc F)
      → Counts n u p
      → Counts n (suc u) (tick sscanf junk p).1
  unfolding tick
  tick-Counts n u junk p h = elim (Bool-cases (not p.alive || p.eof_reached)) [
    | inl e ↦ rw e (Counts-later n u p h)
    | inr e ↦ rw e (opened p.fp refl)
  ]
    where
      opened :
          (file : Option (List Line))
          → p.fp ≡ file
          → Counts n (suc u) (tick_open sscanf file junk p).1
      opened none e = Counts-later n u p h
      opened (some lines) e =
          tick_found-Counts n u lines (find_fix sscanf lines junk) p
            (λ fix rest. find_fix-length sscanf lines junk fix rest) e h

  AllCount : (n u : ℕ) → System F → Type 0
  AllCount n u s = (c : Computer) → Counts n u (pfc_of c s)

  second-AllCount :
      (n u : ℕ) (i : Second F) (s : System F)
      → AllCount n u s
      → AllCount n (suc u) (second sscanf i s).1
  unfolding second AllCount
  second-AllCount n u i s h Computer.first =
      tick-Counts n u i.junk1 _ (Counts-fault n u i.fault1 s.pfc1 (h Computer.first))
  second-AllCount n u i s h Computer.second =
      tick-Counts n u i.junk2 _ (Counts-fault n u i.fault2 s.pfc2 (h Computer.second))
  second-AllCount n u i s h Computer.third =
      tick-Counts n u i.junk3 _ (Counts-fault n u i.fault3 s.pfc3 (h Computer.third))

  after-AllCount :
      (n u : ℕ) (is : List (Second F)) (s : System F)
      → AllCount n u s
      → AllCount n (length is + u) (after_seconds sscanf is s)
  unfolding after_seconds AllCount
  after-AllCount n u [] s h c = subst (λ k. Counts n k (pfc_of c s)) (omega arith) (h c)
  after-AllCount n u (i ∷ is) s h c =
      subst (λ k. Counts n k (pfc_of c (after_seconds sscanf is (second sscanf i s).1)))
        (omega arith)
        (after-AllCount n (suc u) is (second sscanf i s).1 (second-AllCount n u i s h) c)

  startup-Counts : (lines : List Line) → Counts (length lines) 0 (startup sscanf (some lines))
  startup-Counts lines = record {
    found = 0;
    value = refl;
    in_time = omega arith;
    in_file = λ rest e. let same : lines ≡ rest = cc e in rw same (omega arith);
    all = omega arith;
  }

  initial-AllCount : (lines : List Line) → AllCount (length lines) 0 (initial sscanf (some lines))
  unfolding AllCount
  initial-AllCount lines Computer.first = startup-Counts lines
  initial-AllCount lines Computer.second = startup-Counts lines
  initial-AllCount lines Computer.third = startup-Counts lines

  -- After any number of seconds, whatever messages the computers get, the counter of each is -1, or
  -- a number below that of the seconds and below that of the position file's lines. It is always in
  -- the range of `int` if the file has at most `2 ^ 31` lines.
  pub counters_bounded :
      (lines : List Line) (is : List (Second F)) (c : Computer)
      → let counter = (pfc_of c (after_seconds sscanf is (initial sscanf (some lines)))).counter in
        (counter ≡ negsuc 0) ⊎ ((k : ℕ) × (counter ≡ pos k) × (k < length is) × (k < length lines))
  unfolding AllCount
  counters_bounded lines is c =
      let h =
        after-AllCount (length lines) 0 is (initial sscanf (some lines)) (initial-AllCount lines)
          c in
      counted_cases h.found (length is) (length lines) _ h.value (omega (arith, h.in_time)) h.all
