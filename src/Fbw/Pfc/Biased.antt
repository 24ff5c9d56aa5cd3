-- ===== src/Fbw/Pfc/Biased.antt =====
-- A flight computer with a bias.
use lf_benchmarks.Common.{
  ◌≡◌, refl, Bool-cases, not, ◌||◌, true, false, inl, inr, Option, none, some, List, arith,
}
use lf_benchmarks.Double.{Double}
use lf_benchmarks.Fbw.Nav.{Line, GllFix, Scanned, SpeedMsg, apply_bias}
use lf_benchmarks.Fbw.Pfc.{FaultMsg, Pfc, on_fault, find_fix, advance, tick, tick_found, tick_open}
use lf_benchmarks.Fbw.Pfc.Course.{IsHealthy}

abbrev pub bias_msg : FaultMsg
bias_msg = record { stop = false; interrupt = false; cont = false; bias = true }

module _ {F : Type 0} ⦃d : Double F⦄ where
  -- What a tick is with a bias, if it is `r` without one: it corrupts the message, if there is one,
  -- and is spent by it.
  abbrev pub corrupted : Option (SpeedMsg F) × Pfc F → Option (SpeedMsg F) × Pfc F
  corrupted (none, p) = (none, record p { bias = true })
  corrupted (some m, p) = (some (record m { speed = apply_bias m.speed }), p)

module _ {F : Type 0} where
  abbrev biased : Pfc F → Pfc F
  biased p = record p { bias = true }

  on_fault-bias : (p : Pfc F) → IsHealthy p → on_fault bias_msg p ≡ biased p
  unfolding on_fault
  on_fault-bias p h = ground arith

module _ {F : Type 0} ⦃d : Double F⦄ (sscanf : Line → Scanned F) where
  tick_found-biased :
      (found : Option (GllFix F × List Line)) (p : Pfc F)
      → IsHealthy p
      → tick_found sscanf found (biased p) ≡ corrupted (tick_found sscanf found p)
  unfolding advance
  tick_found-biased none p h = refl
  tick_found-biased (some (fix, rest)) p h = ground arith

  tick_open-biased :
      (file : Option (List Line)) (junk : GllFix F) (p : Pfc F)
      → IsHealthy p
      → tick_open sscanf file junk (biased p) ≡ corrupted (tick_open sscanf file junk p)
  tick_open-biased none junk p h = refl
  tick_open-biased (some lines) junk p h = tick_found-biased (find_fix sscanf lines junk) p h

  tick-biased :
      (junk : GllFix F) (p : Pfc F)
      → IsHealthy p
      → tick sscanf junk (biased p) ≡ corrupted (tick sscanf junk p)
  unfolding tick
  tick-biased junk p h = elim (Bool-cases (not p.alive || p.eof_reached)) [
    | inl e ↦ rw e refl
    | inr e ↦ rw e (tick_open-biased p.fp junk p h)
  ]

  -- A bias that a computer gets, which is alive, active and not biased, corrupts the speed of its next
  -- message and nothing else: after it the state is what it would be without the bias. While there
  -- is no message the bias stays.
  bias_corrupts_one :
      (junk : GllFix F) (p : Pfc F)
      → IsHealthy p
      → tick sscanf junk (on_fault bias_msg p) ≡ corrupted (tick sscanf junk p)
  bias_corrupts_one junk p h = rw (on_fault-bias p h) (tick-biased junk p h)
