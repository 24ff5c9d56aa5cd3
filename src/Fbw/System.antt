-- ===== src/Fbw/System.antt =====
-- The main reactor of fbw-lf/src/fbw.lf, a second at a time: at the timers of the flight computers
-- the failure generator's messages come first, then each computer's tick; the transducer passes the
-- messages on; half a second later WES votes and the disconnect switch hears of it.
pub mod Computers
pub mod Files
pub mod Generator
pub mod Lockstep
pub mod Round
pub mod Reporting
pub mod Silence
pub mod Counters
pub mod Tolerance
use lf_benchmarks.Common.{
  ℕ, zero, suc, Bool, true, false, not, ◌||◌, Option, none, some, List, [], ◌∷◌, if◌then◌else◌,
}
use lf_benchmarks.Int.{ℤ, pos}
use lf_benchmarks.Double.{Double}
use lf_benchmarks.Fbw.Nav.{Line, GllFix, SpeedMsg, Scanned, Status}
use lf_benchmarks.Fbw.Pfc.{FaultMsg, Pfc, on_fault, tick, startup}
use lf_benchmarks.Fbw.Vote.{Wes, vote, requests_stop}

-- What comes from outside in one second: the faults and the stack's contents.
pub record Second (F : Type 0) : Type 0 where
  pub fault1 : Option FaultMsg
  pub fault2 : Option FaultMsg
  pub fault3 : Option FaultMsg
  pub junk1 : GllFix F
  pub junk2 : GllFix F
  pub junk3 : GllFix F

pub record System (F : Type 0) : Type 0 where
  pub pfc1 : Pfc F
  pub pfc2 : Pfc F
  pub pfc3 : Pfc F
  pub wes : Wes F
  pub stop_requested : Bool

-- The reaction of the disconnect switch.
abbrev pub hear_status : Option Status → Bool → Bool
hear_status none stop = stop
hear_status (some s) stop = requests_stop s || stop

module _ {F : Type 0} where
  -- A reaction to `fault_in` runs only if the port has a message.
  abbrev pub maybe_fault : Option FaultMsg → Pfc F → Pfc F
  maybe_fault none p = p
  maybe_fault (some f) p = on_fault f p

  -- The reactions of WES to `speed1`, `speed2` and `speed3`, behind those of the transducer.
  abbrev pub hear1 : Option (SpeedMsg F) → Wes F → Wes F
  hear1 none w = w
  hear1 (some m) w = record w { last_s1 = m; has_s1 = true }

  abbrev pub hear2 : Option (SpeedMsg F) → Wes F → Wes F
  hear2 none w = w
  hear2 (some m) w = record w { last_s2 = m; has_s2 = true }

  abbrev pub hear3 : Option (SpeedMsg F) → Wes F → Wes F
  hear3 none w = w
  hear3 (some m) w = record w { last_s3 = m; has_s3 = true }

module _ {F : Type 0} ⦃d : Double F⦄ where
  abbrev pub no_message : SpeedMsg F
  no_message = record { counter = pos 0; speed = d.lit 0 0; valid = false }

module _ {F : Type 0} ⦃d : Double F⦄ (sscanf : Line → Scanned F) where
  open d use {lit, le}

  unfoldable pub second : Second F → System F → Option Status × System F
  second i s =
      let (out1, pfc1) = tick sscanf i.junk1 (maybe_fault i.fault1 s.pfc1) in
      let (out2, pfc2) = tick sscanf i.junk2 (maybe_fault i.fault2 s.pfc2) in
      let (out3, pfc3) = tick sscanf i.junk3 (maybe_fault i.fault3 s.pfc3) in
      let (status, wes) = vote (hear3 out3 (hear2 out2 (hear1 out1 s.wes))) in
      (
        status,
        record {
          pfc1 = pfc1;
          pfc2 = pfc2;
          pfc3 = pfc3;
          wes = wes;
          stop_requested = hear_status status s.stop_requested;
        },
      )

  -- The statuses that WES reports, second after second, while nobody asks for a stop.
  unfoldable pub run : List (Second F) → System F → List (Option Status)
  run [] s = []
  run (i ∷ is) s =
      let (status, s') = second i s in
      let rest = run is s' in if s.stop_requested then [] else status ∷ rest

  -- The start, with the position file that all three computers open.
  abbrev pub initial : Option (List Line) → System F
  initial file = record {
    pfc1 = startup sscanf file;
    pfc2 = startup sscanf file;
    pfc3 = startup sscanf file;
    wes = record {
      last_s1 = no_message;
      last_s2 = no_message;
      last_s3 = no_message;
      has_s1 = false;
      has_s2 = false;
      has_s3 = false;
    };
    stop_requested = false;
  }

-- Whether a message is sent, and on which port: that of the computer drawn.
abbrev pub is_fault : FaultMsg → Bool
is_fault m = m.stop || (m.interrupt || (m.cont || m.bias))

abbrev pub to_port : ℕ → ℕ → FaultMsg → Option FaultMsg
to_port zero zero m = some m
to_port (suc port) (suc selected) m = to_port port selected m
to_port _ _ m = none

-- The reaction of the failure generator to its timer, with what `rand` gives: the computer drawn
-- (below 3) and four numbers from 0 to 1.
module _ {F : Type 0} ⦃d : Double F⦄ where
  open d use {lit, le}

  abbrev pub drawn : F → F → F → F → FaultMsg
  drawn r1 r2 r3 r4 = record {
    stop = le r1 (lit 1 2);
    interrupt = le r2 (lit 1 4);
    cont = le r3 (lit 1 1);
    bias = le r4 (lit 1 1);
  }

  unfoldable pub generate_fault : ℕ → ℕ → F → F → F → F → Option FaultMsg
  generate_fault port selected r1 r2 r3 r4 =
      let m = drawn r1 r2 r3 r4 in if is_fault m then to_port port selected m else none
