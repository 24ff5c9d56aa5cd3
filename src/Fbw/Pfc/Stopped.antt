-- ===== src/Fbw/Pfc/Stopped.antt =====
-- A flight computer that is stopped and, some ticks later, resumed.
use lf_benchmarks.Common.{
  ◌≡◌, refl, true, false, not, ◌||◌, Bool-cases, Option, none, some, List, [], ◌∷◌, inl, inr, arith,
  All,
}
use lf_benchmarks.Double.{Double}
use lf_benchmarks.Fbw.Nav.{Line, GllFix, Scanned, SpeedMsg}
use lf_benchmarks.Fbw.Pfc.{FaultMsg, Pfc, on_fault, advance, tick, tick_found, tick_open, find_fix}
use lf_benchmarks.Fbw.Pfc.Course.{IsHealthy, tick-healthy}

abbrev pub stop_msg : FaultMsg
stop_msg = record { stop = true; interrupt = false; cont = false; bias = false }

abbrev pub cont_msg : FaultMsg
cont_msg = record { stop = false; interrupt = false; cont = true; bias = false }

module _ {F : Type 0} where
  abbrev stopped : Pfc F → Pfc F
  stopped p = record p { active = false }

  on_fault-stop : (p : Pfc F) → IsHealthy p → on_fault stop_msg p ≡ stopped p
  unfolding on_fault
  on_fault-stop p h = ground arith

  on_fault-cont : (p : Pfc F) → IsHealthy p → on_fault cont_msg (stopped p) ≡ p
  unfolding on_fault
  on_fault-cont p h = ground arith

module _ {F : Type 0} ⦃d : Double F⦄ (sscanf : Line → Scanned F) where
  -- What it sends at its next ticks, and the state after them, with what lies on the stack at each.
  unfoldable pub ticks : List (GllFix F) → Pfc F → List (Option (SpeedMsg F)) × Pfc F
  ticks [] p = ([], p)
  ticks (junk ∷ later) p =
      let now = tick sscanf junk p in let rest = ticks later now.1 in (now.0 ∷ rest.0, rest.1)

  abbrev IsStoppedAs : Option (SpeedMsg F) × Pfc F → Option (SpeedMsg F) × Pfc F → Type 0
  IsStoppedAs a b = (a.0 ≡ none) × (a.1 ≡ stopped b.1)

  tick_found-stopped :
      (found : Option (GllFix F × List Line)) (p : Pfc F)
      → IsHealthy p
      → IsStoppedAs (tick_found sscanf found (stopped p)) (tick_found sscanf found p)
  unfolding advance
  tick_found-stopped none p h = (refl, refl)
  tick_found-stopped (some (fix, rest)) p h = ground arith

  tick_open-stopped :
      (file : Option (List Line)) (junk : GllFix F) (p : Pfc F)
      → IsHealthy p
      → IsStoppedAs (tick_open sscanf file junk (stopped p)) (tick_open sscanf file junk p)
  tick_open-stopped none junk p h = (refl, refl)
  tick_open-stopped (some lines) junk p h = tick_found-stopped (find_fix sscanf lines junk) p h

  tick-stopped :
      (junk : GllFix F) (p : Pfc F)
      → IsHealthy p
      → IsStoppedAs (tick sscanf junk (stopped p)) (tick sscanf junk p)
  unfolding tick
  tick-stopped junk p h = elim (Bool-cases (not p.alive || p.eof_reached)) [
    | inl e ↦ rw e (refl, refl)
    | inr e ↦ rw e (tick_open-stopped p.fp junk p h)
  ]

  ticks-stopped :
      (junks : List (GllFix F)) (p : Pfc F)
      → IsHealthy p
      → All (λ o. o ≡ none) (ticks junks (stopped p)).0
        × ((ticks junks (stopped p)).1 ≡ stopped (ticks junks p).1)
        × IsHealthy (ticks junks p).1
  unfolding ticks
  ticks-stopped [] p h = (tt, refl, h)
  ticks-stopped (junk ∷ later) p h =
      let (silent, state) = tick-stopped junk p h in
      let rest = ticks-stopped later (tick sscanf junk p).1 (tick-healthy sscanf junk p h).1 in
      ((silent, rw state rest.0), rw state rest.1, rest.2)

  -- A computer that is alive, active and not biased, and that is stopped and later resumed, with any
  -- number of ticks between, sends nothing in that time, and is then in the state in which it would
  -- be had it not been stopped.
  pub stop_cont :
      (junks : List (GllFix F)) (p : Pfc F)
      → IsHealthy p
      → let after = ticks junks (on_fault stop_msg p) in
        All (λ o. o ≡ none) after.0 × (on_fault cont_msg after.1 ≡ (ticks junks p).1)
  stop_cont junks p h =
      let (silent, state, healthy) = ticks-stopped junks p h in
      rw (on_fault-stop p h) (silent, rw state (on_fault-cont (ticks junks p).1 healthy))
