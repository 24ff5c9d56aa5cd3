-- ===== src/Fbw/Reactions.antt =====
-- The reactions of fbw-lf/src/fbw.lf at the timers of the flight computers, one at a time: each
-- computer's fault and tick, the transducer's for its port and that of WES for its port follow one
-- another; the reactions of different computers come in any order. Half a second later WES votes
-- and the disconnect switch hears of it.
pub mod Execution
pub mod Order
use lf_benchmarks.Common.{
  ℕ, zero, suc, ◌+◌, ◌≡◌, ◌≢◌, Bool, true, false, Option, none, List, [], ◌∷◌,
}
use lf_benchmarks.Double.{Double}
use lf_benchmarks.Fbw.Nav.{Line, SpeedMsg, Scanned, Status}
use lf_benchmarks.Fbw.Pfc.{Pfc, tick}
use lf_benchmarks.Fbw.Vote.{Wes, vote}
use lf_benchmarks.Fbw.System.{Second, System, maybe_fault, hear1, hear2, hear3, hear_status}
use lf_benchmarks.Fbw.System.Computers.{Computer, pfc_of, fault_of, junk_of}

-- The reaction that comes next for a computer.
pub data Stage : Type 0 where
  waits_fault waits_tick waits_relay waits_wes finished : Stage

-- How many reactions are still to come.
abbrev pub left : Stage → ℕ
left Stage.waits_fault = 4
left Stage.waits_tick = 3
left Stage.waits_relay = 2
left Stage.waits_wes = 1
left Stage.finished = 0

-- A computer, its port and the transducer's port for it.
pub record Lane (F : Type 0) : Type 0 where
  pub stage : Stage
  pub pfc : Pfc F
  pub speed_out : Option (SpeedMsg F)
  pub out : Option (SpeedMsg F)

pub record Network (F : Type 0) : Type 0 where
  pub lane1 : Lane F
  pub lane2 : Lane F
  pub lane3 : Lane F
  pub wes : Wes F
  pub stop_requested : Bool

module _ {F : Type 0} where
  abbrev pub lane_of : Computer → Network F → Lane F
  lane_of Computer.first t = t.lane1
  lane_of Computer.second t = t.lane2
  lane_of Computer.third t = t.lane3

  abbrev pub set_lane : Computer → Lane F → Network F → Network F
  set_lane Computer.first l t = record t { lane1 = l }
  set_lane Computer.second l t = record t { lane2 = l }
  set_lane Computer.third l t = record t { lane3 = l }

  abbrev pub hear : Computer → Option (SpeedMsg F) → Wes F → Wes F
  hear Computer.first = hear1
  hear Computer.second = hear2
  hear Computer.third = hear3

  -- The tag begins with empty ports.
  abbrev pub waiting : Pfc F → Lane F
  waiting p = record { stage = Stage.waits_fault; pfc = p; speed_out = none; out = none }

  abbrev pub begin : System F → Network F
  begin s = record {
    lane1 = waiting s.pfc1;
    lane2 = waiting s.pfc2;
    lane3 = waiting s.pfc3;
    wes = s.wes;
    stop_requested = s.stop_requested;
  }

  abbrev pub IsOver : Network F → Type 0
  IsOver t =
      (t.lane1.stage ≡ Stage.finished)
      × (t.lane2.stage ≡ Stage.finished)
      × (t.lane3.stage ≡ Stage.finished)

  -- The number of reactions still to come at the tag.
  abbrev pub ahead : Network F → ℕ
  ahead t = left t.lane1.stage + (left t.lane2.stage + left t.lane3.stage)

module _ {F : Type 0} ⦃d : Double F⦄ (sscanf : Line → Scanned F) where
  -- The next reaction of a computer's chain. The runtime passes over one whose port is empty: here
  -- that is a step which changes nothing but the stage.
  abbrev pub react_at : Stage → Second F → Computer → Network F → Network F
  react_at Stage.waits_fault i c t =
      let l = lane_of c t in
      set_lane c (record l { stage = Stage.waits_tick; pfc = maybe_fault (fault_of c i) l.pfc }) t
  react_at Stage.waits_tick i c t =
      let l = lane_of c t in
      let (message, p) = tick sscanf (junk_of c i) l.pfc in
      set_lane c (record l { stage = Stage.waits_relay; pfc = p; speed_out = message }) t
  react_at Stage.waits_relay i c t =
      let l = lane_of c t in set_lane c (record l { stage = Stage.waits_wes; out = l.speed_out }) t
  react_at Stage.waits_wes i c t =
      let l = lane_of c t in
      set_lane c (record l { stage = Stage.finished }) (record t { wes = hear c l.out t.wes })
  react_at Stage.finished i c t = t

  abbrev pub react : Second F → Computer → Network F → Network F
  react i c t = react_at (lane_of c t).stage i c t

  -- So many reactions, each of a computer that has one left, lead from one network to another.
  pub data Runs (i : Second F) : ℕ → Network F → Network F → Type 0 where
    stay : {t : Network F} → Runs i 0 t t
    step :
        {n : ℕ} {t u : Network F} (c : Computer)
        → (lane_of c t).stage ≢ Stage.finished
        → Runs i n (react i c t) u
        → Runs i (suc n) t u

module _ {F : Type 0} ⦃d : Double F⦄ where
  -- Half a second later: the vote, and the disconnect switch.
  abbrev pub finish : Network F → Option Status × System F
  finish t =
      let (status, wes) = vote t.wes in
      (
        status,
        record {
          pfc1 = t.lane1.pfc;
          pfc2 = t.lane2.pfc;
          pfc3 = t.lane3.pfc;
          wes = wes;
          stop_requested = hear_status status t.stop_requested;
        },
      )

module _ {F : Type 0} ⦃d : Double F⦄ (sscanf : Line → Scanned F) where
  -- The executions of the program: in each second some order of the reactions, until someone has
  -- asked for a stop; with the statuses that WES reports.
  pub data Executes : List (Second F) → System F → List (Option Status) → Type 0 where
    over : {s : System F} → Executes [] s []
    stopped :
        {i : Second F} {is : List (Second F)} {s : System F}
        → s.stop_requested ≡ true
        → Executes (i ∷ is) s []
    elapse :
        {n : ℕ} {i : Second F} {is : List (Second F)} {s : System F} {t : Network F}
        {out : List (Option Status)}
        → s.stop_requested ≡ false
        → Runs sscanf i n (begin s) t
        → IsOver t
        → Executes is (finish t).1 out
        → Executes (i ∷ is) s ((finish t).0 ∷ out)
