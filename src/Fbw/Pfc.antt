-- ===== src/Fbw/Pfc.antt =====
-- The reactor PFC of fbw-lf/src/fbw.lf: a flight computer that follows the position file.
pub mod Course
pub mod Stopped
pub mod Biased
use lf_benchmarks.Common.{
  ℕ, ◌≡◌, Bool, true, false, not, ◌&&◌, ◌||◌, Option, none, some, List, [], ◌∷◌, if◌then◌else◌,
}
use lf_benchmarks.Int.{ℤ, pos, negsuc, ◌+ℤ◌}
use lf_benchmarks.Double.{Double}
use lf_benchmarks.Fbw.Nav.{Line, GllFix, SpeedMsg, Scanned, parse_gpgll, compute_speed, apply_bias}

-- `fault_msg_t`
pub record FaultMsg : Type 0 where
  pub stop : Bool
  pub interrupt : Bool
  pub cont : Bool
  pub bias : Bool

-- The state of the reactor. `fp` holds what `fgets` has still to return, with the line ends cut off,
-- or `none` for the null pointer.
pub record Pfc (F : Type 0) : Type 0 where
  pub fp : Option (List Line)
  pub prev_fix : GllFix F
  pub has_prev : Bool
  pub accumulated_speed : F
  pub counter : ℤ
  pub active : Bool
  pub alive : Bool
  pub bias : Bool
  pub eof_reached : Bool

module _ {F : Type 0} where
  -- The reaction to `fault_in`: four tests, one after the other.
  abbrev pub on_stop : FaultMsg → Pfc F → Pfc F
  on_stop f p = if f.stop && p.alive && p.active then record p { active = false } else p

  abbrev pub on_interrupt : FaultMsg → Pfc F → Pfc F
  on_interrupt f p = if f.interrupt && p.alive then record p { alive = false } else p

  abbrev pub on_cont : FaultMsg → Pfc F → Pfc F
  on_cont f p = if f.cont && p.alive && not p.active then record p { active = true } else p

  abbrev on_bias : FaultMsg → Pfc F → Pfc F
  on_bias f p = if f.bias && p.alive then record p { bias = true } else p

  unfoldable pub on_fault : FaultMsg → Pfc F → Pfc F
  on_fault f p = on_bias f (on_cont f (on_interrupt f (on_stop f p)))

  -- The reaction to `shutdown`: whether it closes the file.
  unfoldable pub closes_file : Pfc F → Bool
  closes_file p = elim p.fp [ none ↦ false | some lines ↦ true ]

module _ {F : Type 0} ⦃d : Double F⦄ (sscanf : Line → Scanned F) where
  open d use {lit}

  -- `memset(…, 0, …)`
  abbrev pub no_fix : GllFix F
  no_fix = record {
    latitude = lit 0 0;
    lat_dir = 0;
    longitude = lit 0 0;
    lon_dir = 0;
    fix_time = pos 0;
    valid = false;
  }

  -- The loop over the lines, up to the first that parses; with the local `fix`, which starts with
  -- whatever is on the stack.
  unfoldable pub find_fix : List Line → GllFix F → Option (GllFix F × List Line)
  find_fix [] fix = none
  find_fix (line ∷ rest) fix =
      let (parsed, fix') = parse_gpgll sscanf line fix in
      let later = find_fix rest fix' in if parsed then some (fix', rest) else later

  -- What is sent, once the computer is active; a bias is spent by it.
  unfoldable pub transmit : F → Pfc F → Option (SpeedMsg F) × Pfc F
  transmit nominal p =
      if p.bias
      then (
        some (record { counter = p.counter; speed = apply_bias nominal; valid = true }),
        record p { bias = false },
      )
      else (some (record { counter = p.counter; speed = nominal; valid = true }), p)

  -- The rest of the tick, when a position was found.
  unfoldable pub advance : GllFix F → List Line → Pfc F → Option (SpeedMsg F) × Pfc F
  unfolding transmit
  advance fix rest p =
      let nominal =
        if p.has_prev then compute_speed p.accumulated_speed p.prev_fix fix else lit 0 0 in
      let p' : Pfc F = record p {
        fp = some rest;
        has_prev = true;
        accumulated_speed = nominal;
        prev_fix = fix;
        counter = p.counter +ℤ pos 1;
      } in
      if p.active then transmit nominal p' else (none, p')

  abbrev pub tick_found : Option (GllFix F × List Line) → Pfc F → Option (SpeedMsg F) × Pfc F
  tick_found none p = (none, record p { fp = some []; eof_reached = true })
  tick_found (some (fix, rest)) p = advance fix rest p

  abbrev pub tick_open : Option (List Line) → GllFix F → Pfc F → Option (SpeedMsg F) × Pfc F
  tick_open none junk p = (none, p)
  tick_open (some lines) junk p = tick_found (find_fix lines junk) p

  -- The reaction to the timer `t`, with what the local `fix` holds at its start.
  unfoldable pub tick : GllFix F → Pfc F → Option (SpeedMsg F) × Pfc F
  unfolding advance
  tick junk p = if not p.alive || p.eof_reached then (none, p) else tick_open p.fp junk p

  -- The reaction to `startup`, with what `fopen` gives.
  abbrev pub startup : Option (List Line) → Pfc F
  startup file = record {
    fp = file;
    prev_fix = no_fix;
    has_prev = false;
    accumulated_speed = lit 0 0;
    counter = negsuc 0;
    active = true;
    alive = true;
    bias = false;
    eof_reached = false;
  }
