-- ===== src/Fbw/Reactions/Order.antt =====
-- The order in which the computers' reactions come at a tag makes no difference.
use lf_benchmarks.Common.{ℕ, ◌≡◌, refl, sym, ap, ◌∙◌, Option, none, arith}
use lf_benchmarks.Double.{Double}
use lf_benchmarks.Fbw.Nav.{Line, SpeedMsg, Scanned}
use lf_benchmarks.Fbw.Pfc.{tick}
use lf_benchmarks.Fbw.Vote.{Wes}
use lf_benchmarks.Fbw.System.{Second, System, maybe_fault, hear1, hear2, hear3, second}
use lf_benchmarks.Fbw.System.Computers.{Computer, Ticked, pfc_of, fault_of, junk_of}
use lf_benchmarks.Fbw.Reactions.{Stage, Lane, Network, begin, IsOver, react, Runs, finish}

-- Where each computer stands.
abbrev Stages : Type 0
Stages = Stage × Stage × Stage

abbrev next : Stage → Stage
next Stage.waits_fault = Stage.waits_tick
next Stage.waits_tick = Stage.waits_relay
next Stage.waits_relay = Stage.waits_wes
next _ = Stage.finished

module _ {F : Type 0} where
  -- What WES has heard through one port.
  abbrev when_finished : Stage → (Wes F → Wes F) → Wes F → Wes F
  when_finished Stage.finished f w = f w
  when_finished _ f w = w

  hear1-hear2 :
      (g : Stage) (a b : Option (SpeedMsg F)) (w : Wes F)
      → hear1 a (when_finished g (hear2 b) w) ≡ when_finished g (hear2 b) (hear1 a w)
  hear1-hear2 g a b w = ground arith

  hear1-hear3 :
      (g : Stage) (a b : Option (SpeedMsg F)) (w : Wes F)
      → hear1 a (when_finished g (hear3 b) w) ≡ when_finished g (hear3 b) (hear1 a w)
  hear1-hear3 g a b w = ground arith

  hear2-hear3 :
      (g : Stage) (a b : Option (SpeedMsg F)) (w : Wes F)
      → hear2 a (when_finished g (hear3 b) w) ≡ when_finished g (hear3 b) (hear2 a w)
  hear2-hear3 g a b w = ground arith

module _ {F : Type 0} ⦃d : Double F⦄ (sscanf : Line → Scanned F) where
  -- What the second makes of one computer.
  abbrev ticked : Second F → System F → Computer → Ticked F
  ticked i s c =
      let (message, p) = tick sscanf (junk_of c i) (maybe_fault (fault_of c i) (pfc_of c s)) in
      (message, p)

  -- A computer's lane where the computer stands.
  abbrev lane_at : Second F → System F → Computer → Stage → Lane F
  lane_at i s c Stage.waits_fault = record {
    stage = Stage.waits_fault;
    pfc = pfc_of c s;
    speed_out = none;
    out = none;
  }
  lane_at i s c Stage.waits_tick = record {
    stage = Stage.waits_tick;
    pfc = maybe_fault (fault_of c i) (pfc_of c s);
    speed_out = none;
    out = none;
  }
  lane_at i s c Stage.waits_relay =
      let (message, p) = ticked i s c in
      record { stage = Stage.waits_relay; pfc = p; speed_out = message; out = none }
  lane_at i s c g =
      let (message, p) = ticked i s c in
      record { stage = g; pfc = p; speed_out = message; out = message }

  abbrev network_at : Second F → System F → Stages → Network F
  network_at i s (g1, g2, g3) = record {
    lane1 = lane_at i s Computer.first g1;
    lane2 = lane_at i s Computer.second g2;
    lane3 = lane_at i s Computer.third g3;
    wes = when_finished g3 (hear3 (ticked i s Computer.third).0) (
        when_finished g2 (hear2 (ticked i s Computer.second).0)
          (when_finished g1 (hear1 (ticked i s Computer.first).0) s.wes));
    stop_requested = s.stop_requested;
  }

  abbrev next_of : Computer → Stages → Stages
  next_of Computer.first (g1, g2, g3) = (next g1, g2, g3)
  next_of Computer.second (g1, g2, g3) = (g1, next g2, g3)
  next_of Computer.third (g1, g2, g3) = (g1, g2, next g3)

  react-network_at :
      (i : Second F) (s : System F) (c : Computer) (g : Stages)
      → react sscanf i c (network_at i s g) ≡ network_at i s (next_of c g)
  react-network_at i s Computer.first (Stage.waits_fault, g2, g3) = refl
  react-network_at i s Computer.first (Stage.waits_tick, g2, g3) = refl
  react-network_at i s Computer.first (Stage.waits_relay, g2, g3) = refl
  react-network_at i s Computer.first (Stage.waits_wes, g2, g3) =
      ap (λ w. record (network_at i s (Stage.finished, g2, g3)) { wes = w })
        (hear1-hear3 g3 (ticked i s Computer.first).0 _ _
          ∙ ap (when_finished g3 (hear3 (ticked i s Computer.third).0))
              (hear1-hear2 g2 (ticked i s Computer.first).0 _ s.wes))
  react-network_at i s Computer.first (Stage.finished, g2, g3) = refl
  react-network_at i s Computer.second (g1, Stage.waits_fault, g3) = refl
  react-network_at i s Computer.second (g1, Stage.waits_tick, g3) = refl
  react-network_at i s Computer.second (g1, Stage.waits_relay, g3) = refl
  react-network_at i s Computer.second (g1, Stage.waits_wes, g3) =
      ap (λ w. record (network_at i s (g1, Stage.finished, g3)) { wes = w })
        (hear2-hear3 g3 (ticked i s Computer.second).0 _ _)
  react-network_at i s Computer.second (g1, Stage.finished, g3) = refl
  react-network_at i s Computer.third (g1, g2, Stage.waits_fault) = refl
  react-network_at i s Computer.third (g1, g2, Stage.waits_tick) = refl
  react-network_at i s Computer.third (g1, g2, Stage.waits_relay) = refl
  react-network_at i s Computer.third (g1, g2, Stage.waits_wes) = refl
  react-network_at i s Computer.third (g1, g2, Stage.finished) = refl

  second-network_at :
      (i : Second F) (s : System F)
      → finish (network_at i s (Stage.finished, Stage.finished, Stage.finished)) ≡ second sscanf i s
  unfolding second
  second-network_at i s = refl

  Stands : Second F → System F → Network F → Type 0
  Stands i s t = (g : Stages) × (t ≡ network_at i s g)

  begin-Stands : (i : Second F) (s : System F) → Stands i s (begin s)
  unfolding Stands
  begin-Stands i s = ((Stage.waits_fault, Stage.waits_fault, Stage.waits_fault), refl)

  Runs-Stands :
      (i : Second F) (s : System F) {n : ℕ} {t u : Network F}
      → Runs sscanf i n t u
      → Stands i s t
      → Stands i s u
  unfolding Stands
  Runs-Stands i s Runs.stay h = h
  Runs-Stands i s (Runs.step c more rest) (g, e) =
      Runs-Stands i s rest (next_of c g, ap (react sscanf i c) e ∙ react-network_at i s c g)

  lane_at-stage :
      (i : Second F) (s : System F) (c : Computer) (g : Stage) → (lane_at i s c g).stage ≡ g
  lane_at-stage i s c g = ground arith

  -- Whatever order the reactions of the three computers come in: when none is left, the vote and the
  -- disconnect switch make of it the status and the system that `second` gives.
  pub finish-second :
      {n : ℕ} (i : Second F) (s : System F) (t : Network F)
      → Runs sscanf i n (begin s) t
      → IsOver t
      → finish t ≡ second sscanf i s
  unfolding Stands
  finish-second i s t run (o1, o2, o3) =
      let ((g1, g2, g3), e) = Runs-Stands i s run (begin-Stands i s) in
      let e1 = sym (lane_at-stage i s Computer.first g1) ∙ (sym (ap (λ t. t.lane1.stage) e) ∙ o1) in
      let e2 =
        sym (lane_at-stage i s Computer.second g2) ∙ (sym (ap (λ t. t.lane2.stage) e) ∙ o2) in
      let e3 = sym (lane_at-stage i s Computer.third g3) ∙ (sym (ap (λ t. t.lane3.stage) e) ∙ o3) in
      ap finish (
        e
        ∙ ap (network_at i s) {y = (Stage.finished, Stage.finished, Stage.finished)}
            (simp (e1, e2, e3) refl))
      ∙ second-network_at i s
