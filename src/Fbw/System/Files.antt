-- ===== src/Fbw/System/Files.antt =====
-- The file handle of a flight computer.
use lf_benchmarks.Common.{
  ◌≡◌, ◌≢◌, ◌↔◌, refl, sym, ◌∙◌, true, Bool-cases, not, ◌||◌, inl, inr, Option, none, some, List,
  [], ◌∷◌, arith,
}
use std.Path.{subst}
use lf_benchmarks.Double.{Double}
use lf_benchmarks.Fbw.Nav.{Line, GllFix, Scanned}
use lf_benchmarks.Fbw.Pfc.{
  FaultMsg, Pfc, startup, on_fault, tick, tick_found, tick_open, find_fix, advance, closes_file,
}
use lf_benchmarks.Fbw.System.{maybe_fault}

module _ {F : Type 0} ⦃d : Double F⦄ (sscanf : Line → Scanned F) where
  -- The state after some timer events, each with the message on `fault_in` and what lies on the
  -- stack, the latest first.
  unfoldable pub events : List (Option FaultMsg × GllFix F) → Pfc F → Pfc F
  events [] p = p
  events ((fault, junk) ∷ earlier) p = (tick sscanf junk (maybe_fault fault (events earlier p))).1

  closes_file-fault :
      (f : Option FaultMsg) (p : Pfc F) → closes_file (maybe_fault f p) ≡ closes_file p
  unfolding closes_file on_fault
  closes_file-fault none p = refl
  closes_file-fault (some f) p = ground arith

  closes_file-found :
      (lines : List Line) (found : Option (GllFix F × List Line)) (p : Pfc F)
      → p.fp ≡ some lines
      → closes_file (tick_found sscanf found p).1 ≡ closes_file p
  unfolding closes_file advance
  closes_file-found lines none p e = ground arith
  closes_file-found lines (some (fix, rest)) p e = ground arith

  closes_file-open :
      (file : Option (List Line)) (junk : GllFix F) (p : Pfc F)
      → p.fp ≡ file
      → closes_file (tick_open sscanf file junk p).1 ≡ closes_file p
  closes_file-open none junk p e = refl
  closes_file-open (some lines) junk p e = closes_file-found lines (find_fix sscanf lines junk) p e

  closes_file-tick :
      (junk : GllFix F) (p : Pfc F) → closes_file (tick sscanf junk p).1 ≡ closes_file p
  unfolding tick
  closes_file-tick junk p = elim (Bool-cases (not p.alive || p.eof_reached)) [
    | inl e ↦ rw e refl
    | inr e ↦ rw e (closes_file-open p.fp junk p refl)
  ]

  closes_file-events :
      (es : List (Option FaultMsg × GllFix F)) (p : Pfc F)
      → closes_file (events es p) ≡ closes_file p
  unfolding events
  closes_file-events [] p = refl
  closes_file-events ((fault, junk) ∷ earlier) p =
      closes_file-tick junk _
      ∙ closes_file-fault fault (events earlier p)
      ∙ closes_file-events earlier p

  -- A computer closes a file at the end exactly if `fopen` gave it one, whatever messages and ticks
  -- it has had: the handle is neither lost nor closed when it was never opened.
  pub closes_file-startup :
      (file : Option (List Line)) (es : List (Option FaultMsg × GllFix F))
      → (closes_file (events es (startup sscanf file)) ≡ true) ↔ (file ≢ none)
  unfolding closes_file
  closes_file-startup file es =
      subst (λ b. (b ≡ true) ↔ (file ≢ none)) (sym (closes_file-events es (startup sscanf file)))
        (opened file)
    where
      opened : (f : Option (List Line)) → (closes_file (startup sscanf f) ≡ true) ↔ (f ≢ none)
      opened none = (λ e. absurd cc, λ n. absurd (n refl))
      opened (some lines) = (λ e. λ q. cc, λ n. refl)
