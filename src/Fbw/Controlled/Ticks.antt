-- ===== src/Fbw/Controlled/Ticks.antt =====
-- What a stopped or biased computer does in a second, by what one with no faults does.
use lf_benchmarks.Common.{
  ◌≡◌, ◌≢◌, refl, inl, inr, not, ◌||◌, Bool-cases, Bool, true, false, Option, none, some, List,
  if◌then◌else◌, arith,
}
use lf_benchmarks.Double.{Double}
use lf_benchmarks.Fbw.Nav.{Line, GllFix, Scanned, apply_bias}
use lf_benchmarks.Fbw.Pfc.{Pfc, no_fix, advance, tick, tick_found, tick_open}
use lf_benchmarks.Fbw.Pfc.Course.{IsHealthy, find_fix-junk}
use lf_benchmarks.Fbw.System.Computers.{Ticked, clean_tick}

module _ {F : Type 0} where
  -- The computer stopped or not, with or without a bias that is due.
  abbrev pub flagged : Bool → Bool → Pfc F → Pfc F
  flagged active bias p = record p { active = active; bias = bias }

  pub flagged-healthy : (p : Pfc F) → IsHealthy p → flagged true false p ≡ p
  flagged-healthy p h = ground arith

module _ {F : Type 0} ⦃d : Double F⦄ where
  -- What it sends and becomes, if one with no faults becomes `r`.
  abbrev pub altered : Bool → Bool → Pfc F → Ticked F
  altered active bias r = (
    if active
        then some (record {
          counter = r.counter;
          speed = if bias then apply_bias r.accumulated_speed else r.accumulated_speed;
          valid = true;
        })
        else none,
    flagged active (if active then false else bias) r,
  )

module _ {F : Type 0} ⦃d : Double F⦄ (sscanf : Line → Scanned F) where
  advance-flagged :
      (fix : GllFix F) (rest : List Line) (b c : Bool) (p : Pfc F)
      → advance sscanf fix rest (flagged b c p) ≡ altered b c (advance sscanf fix rest p).1
  unfolding advance
  advance-flagged fix rest b c p = ground arith

  tick_open-flagged :
      (file : Option (List Line)) (x y : GllFix F) (b c : Bool) (p : Pfc F)
      → (tick_open sscanf file y p).0 ≢ none
      → tick_open sscanf file x (flagged b c p) ≡ altered b c (tick_open sscanf file y p).1
  tick_open-flagged none x y b c p h = absurd (h refl)
  tick_open-flagged (some lines) x y b c p h = rw (find_fix-junk sscanf lines x y) (go _ h)
    where
      go :
          (found : Option (GllFix F × List Line))
          → (tick_found sscanf found p).0 ≢ none
          → tick_found sscanf found (flagged b c p) ≡ altered b c (tick_found sscanf found p).1
      go none h = absurd (h refl)
      go (some (fix, rest)) h = advance-flagged fix rest b c p

  pub tick-flagged :
      (x : GllFix F) (b c : Bool) (p : Pfc F)
      → (clean_tick sscanf p).0 ≢ none
      → tick sscanf x (flagged b c p) ≡ altered b c (clean_tick sscanf p).1
  unfolding tick
  tick-flagged x b c p h = elim (Bool-cases (not p.alive || p.eof_reached)) [
    | inl e ↦ absurd (h (rw e refl))
    | inr e ↦ rw e (tick_open-flagged p.fp x (no_fix sscanf) b c p (rw e at h))
  ]
