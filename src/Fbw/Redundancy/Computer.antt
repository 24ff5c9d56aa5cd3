-- ===== src/Fbw/Redundancy/Computer.antt =====
-- A flight computer and its health.
use lf_benchmarks.Common.{◌≡◌, ◌≢◌, refl, ◌∙◌, ap, Bool, true, false, Option, none, some, arith}
use lf_benchmarks.Int.{ℤ}
use lf_benchmarks.Double.{Double}
use lf_benchmarks.Fbw.Nav.{Line, GllFix, SpeedMsg, Scanned}
use lf_benchmarks.Fbw.Pfc.{FaultMsg, Pfc, on_fault, tick}
use lf_benchmarks.Fbw.Pfc.Course.{IsHealthy, tick-dead}
use lf_benchmarks.Fbw.System.{maybe_fault}
use lf_benchmarks.Fbw.System.Computers.{clean_tick}
use lf_benchmarks.Fbw.Controlled.Ticks.{flagged, altered, tick-flagged}
use lf_benchmarks.Fbw.Redundancy.{Health, struck, spent, spoken}

module _ {F : Type 0} where
  -- The computer `p` has the health, and if it lives it is on the course of `c`, which never gets a
  -- message.
  abbrev pub Shows : Health → Pfc F → Pfc F → Type 0
  Shows Health.dead p c = p.alive ≡ false
  Shows (Health.live active bias) p c = p ≡ flagged active bias c

  -- The message with a speed.
  abbrev pub said : ℤ → Option F → Option (SpeedMsg F)
  said n none = none
  said n (some v) = some (record { counter = n; speed = v; valid = true })

  fault-live :
      (m : FaultMsg) (a b : Bool) (c : Pfc F)
      → IsHealthy c
      → Shows (struck (some m) (Health.live a b)) (on_fault m (flagged a b c)) c
  unfolding on_fault
  fault-live m a b c h = ground arith

  fault-dead : (m : FaultMsg) (p : Pfc F) → p.alive ≡ false → (on_fault m p).alive ≡ false
  unfolding on_fault
  fault-dead m p e = ground arith

  pub Shows-struck :
      (f : Option FaultMsg) (h : Health) (p c : Pfc F)
      → IsHealthy c
      → Shows h p c
      → Shows (struck f h) (maybe_fault f p) c
  Shows-struck none h p c healthy s = s
  Shows-struck (some m) Health.dead p c healthy s = fault-dead m p s
  Shows-struck (some m) (Health.live a b) p c healthy s = rw s (fault-live m a b c healthy)

module _ {F : Type 0} ⦃d : Double F⦄ where
  altered-said :
      (a b : Bool) (r : Pfc F)
      → altered a b r
        ≡ (said r.counter (spoken r.accumulated_speed (Health.live a b)), (altered a b r).1)
  altered-said true b r = refl
  altered-said false b r = refl

  Shows-spent : (a b : Bool) (r : Pfc F) → Shows (spent (Health.live a b)) (altered a b r).1 r
  Shows-spent true b r = refl
  Shows-spent false b r = refl

module _ {F : Type 0} ⦃d : Double F⦄ (sscanf : Line → Scanned F) where
  pub tick-Shows :
      (h : Health) (junk : GllFix F) (p c : Pfc F)
      → (clean_tick sscanf c).0 ≢ none
      → Shows h p c
      → let next = (clean_tick sscanf c).1 in
        let r = tick sscanf junk p in
        (r.0 ≡ said next.counter (spoken next.accumulated_speed h)) × Shows (spent h) r.1 next
  tick-Shows Health.dead junk p c found s = tick-dead sscanf junk p s
  tick-Shows (Health.live a b) junk p c found s =
      let next = (clean_tick sscanf c).1 in
      let e = ap (tick sscanf junk) s ∙ tick-flagged sscanf junk a b c found in
      rw e (ap (λ r. r.0) (altered-said a b next), Shows-spent a b next)
