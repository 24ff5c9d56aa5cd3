-- ===== src/Fbw/Redundancy.antt =====
-- What the redundant system of fbw-lf/src/fbw.lf is to report: of each computer only its health
-- counts, and of the navigation only the speed of a computer that never gets a message.
pub mod Computer
pub mod Refinement
use lf_benchmarks.Common.{
  ℕ, zero, suc, ◌≢◌, Bool, true, false, not, ◌&&◌, ◌||◌, Option, none, some, List, [], ◌∷◌,
  if◌then◌else◌,
}
use lf_benchmarks.Double.{Double}
use lf_benchmarks.Fbw.Nav.{Line, Scanned, Status, apply_bias}
use lf_benchmarks.Fbw.Pfc.{FaultMsg, Pfc}
use lf_benchmarks.Fbw.Vote.{verdict}
use lf_benchmarks.Fbw.System.{Second, hear_status}
use lf_benchmarks.Fbw.System.Computers.{clean_tick}

-- A computer that was killed, or one that lives, is active or stopped, and may have a bias.
pub data Health : Type 0 where
  dead : Health
  live : (active bias : Bool) → Health

-- After a message of the failure generator.
abbrev pub struck : Option FaultMsg → Health → Health
struck none h = h
struck (some m) Health.dead = Health.dead
struck (some m) (Health.live active bias) =
    if m.interrupt
    then Health.dead
    else Health.live (m.cont || (active && not m.stop)) (m.bias || bias)

-- After a tick: what is sent takes the bias with it.
abbrev pub spent : Health → Health
spent Health.dead = Health.dead
spent (Health.live true bias) = Health.live true false
spent (Health.live false bias) = Health.live false bias

module _ {F : Type 0} ⦃d : Double F⦄ where
  -- The speed that a computer sends where the right one is `v`.
  abbrev pub spoken : F → Health → Option F
  spoken v Health.dead = none
  spoken v (Health.live true bias) = some (if bias then apply_bias v else v)
  spoken v (Health.live false bias) = none

  abbrev pub concur : Option F → Option F → Bool
  concur (some x) (some y) = d.eq x y
  concur _ _ = false

  -- The verdict on the speeds sent, and nothing if there are none.
  abbrev pub spec_report : Option F → Option F → Option F → Option Status
  spec_report none none none = none
  spec_report a b c = some (verdict (concur a b) (concur a c) (concur b c))

module _ {F : Type 0} ⦃d : Double F⦄ (sscanf : Line → Scanned F) where
  -- The reports in some seconds, until one asks for a stop: `p` is the computer without messages.
  unfoldable pub spec_run :
      List (Second F) → Pfc F → (h1 h2 h3 : Health) → Bool → List (Option Status)
  spec_run [] p h1 h2 h3 stop = []
  spec_run (i ∷ is) p h1 h2 h3 stop =
      let next = (clean_tick sscanf p).1 in
      let say : Health → Option F = spoken next.accumulated_speed in
      let g1 = struck i.fault1 h1 in
      let g2 = struck i.fault2 h2 in
      let g3 = struck i.fault3 h3 in
      let report = spec_report (say g1) (say g2) (say g3) in
      let rest = spec_run is next (spent g1) (spent g2) (spent g3) (hear_status report stop) in
      if stop then [] else report ∷ rest

  -- For so many seconds the computer without messages finds a position.
  abbrev pub Finds : ℕ → Pfc F → Type 0
  Finds zero p = Unit
  Finds (suc n) p = ((clean_tick sscanf p).0 ≢ none) × Finds n (clean_tick sscanf p).1
