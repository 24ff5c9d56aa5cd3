-- ===== src/Fbw/Validation.antt =====
-- fbw-lf/src/fbw_c_equiv_validation.lf: the system without faults, on the arithmetic of `float`. Its
-- transducer, WES and disconnect switch are those of fbw.lf.
pub mod Compared
pub mod Files
pub mod Lag
pub mod Log
pub mod Noted
pub mod ReadBack
pub mod Reports
use lf_benchmarks.Common.{
  ℕ, zero, suc, Bool, true, false, not, ◌||◌, Option, none, some, List, [], ◌∷◌, if◌then◌else◌,
}
use lf_benchmarks.Int.{ℤ, pos, negsuc, ◌+ℤ◌, eqb_ℤ}
use lf_benchmarks.Double.{Double}
use lf_benchmarks.Fbw.Nav.{Line, SpeedMsg, Status}
use lf_benchmarks.Fbw.Vote.{Wes, vote}
use lf_benchmarks.Fbw.System.{hear1, hear2, hear3, hear_status, no_message}

-- What `sscanf(line, "$GPGLL,%f,%c,%f,%c,%u,%31s", …)` returns, and the coordinates it stores.
pub record Reading (F : Type 0) : Type 0 where
  pub parsed : ℤ
  pub lat : F
  pub lon : F

-- The state of the reactor PFC.
pub record ValidationPfc (F : Type 0) : Type 0 where
  pub fp : Option (List Line)
  pub prev_lat : F
  pub prev_lon : F
  pub has_prev : Bool
  pub current_speed : F
  pub counter : ℤ
  pub eof_reached : Bool

pub record ValidationSystem (F : Type 0) : Type 0 where
  pub pfc1 : ValidationPfc F
  pub pfc2 : ValidationPfc F
  pub pfc3 : ValidationPfc F
  pub wes : Wes F
  pub stop_requested : Bool

-- The parts of the C library that the reactor uses: the cast to `float` of a `double`, `acos`, and
-- `sscanf` on a line. A `float` is a `double` that the cast leaves as it is; C's operations on two of
-- them are those on `double`, cast.
pub record Libc (F : Type 0) : Type 0 where
  pub to_float : F → F
  pub acos : F → F
  pub sscanf : Line → Reading F

module _ {F : Type 0} where
  -- The reaction to `shutdown`: whether it closes the file.
  unfoldable pub validation_closes_file : ValidationPfc F → Bool
  validation_closes_file p = elim p.fp [ none ↦ false | some lines ↦ true ]

module _ {F : Type 0} (libc : Libc F) where
  -- The loop over the lines, up to the first that parses.
  unfoldable pub find_reading : List Line → Option (Reading F × List Line)
  find_reading [] = none
  find_reading (line ∷ rest) =
      let r = libc.sscanf line in
      let later = find_reading rest in if eqb_ℤ r.parsed (pos 6) then some (r, rest) else later

module _ {F : Type 0} ⦃d : Double F⦄ (libc : Libc F) where
  open d use {lit, add, sub, mul, div, of_int, sin, cos, sqrt, pow, atan2}
  open libc use {to_float, acos}

  -- `(float)((deg * acos(-1)) / 180)`
  unfoldable pub to_radians : F → F
  to_radians deg = to_float (div (mul deg (acos (of_int (negsuc 0)))) (of_int (pos 180)))

  -- `distance`, from the previous position to the present one.
  unfoldable pub float_distance : (prev_lat prev_lon lat lon : F) → F
  float_distance prev_lat prev_lon lat lon =
      let int : ℕ → F = λ n. of_int (pos n) in
      let d_lat = to_radians (to_float (sub lat prev_lat)) in
      let d_lon = to_radians (to_float (sub lon prev_lon)) in
      let start_lat = to_radians prev_lat in
      let end_lat = to_radians lat in
      let h_a = to_float (
        add (pow (sin (to_float (div d_lat (int 2)))) (int 2)) (
          mul (mul (pow (sin (to_float (div d_lon (int 2)))) (int 2)) (cos start_lat))
            (cos end_lat))) in
      let h_c = to_float (mul (int 2) (atan2 (sqrt h_a) (sqrt (to_float (sub (int 1) h_a))))) in
      to_float (mul (int 6371) h_c)

  -- `next_speed`, when there is a previous position.
  unfoldable pub float_speed : F → F → F
  float_speed current_speed distance =
      to_float (add current_speed (to_float (div distance (of_int (pos 1)))))

  -- The rest of the reaction, when a position was found.
  unfoldable pub deliver :
      Reading F → List Line → ValidationPfc F → Option (SpeedMsg F) × ValidationPfc F
  deliver r rest p =
      let next_speed =
        if p.has_prev
        then float_speed p.current_speed (float_distance p.prev_lat p.prev_lon r.lat r.lon)
        else p.current_speed in
      let counter = p.counter +ℤ pos 1 in
      (
        some (record { counter = counter; speed = p.current_speed; valid = true }),
        record {
          fp = some rest;
          prev_lat = r.lat;
          prev_lon = r.lon;
          has_prev = true;
          current_speed = next_speed;
          counter = counter;
          eof_reached = p.eof_reached;
        },
      )

  abbrev pub deliver_found :
      Option (Reading F × List Line) → ValidationPfc F → Option (SpeedMsg F) × ValidationPfc F
  deliver_found none p = (none, record p { fp = some []; eof_reached = true })
  deliver_found (some (r, rest)) p = deliver r rest p

  abbrev pub validation_open :
      Option (List Line) → ValidationPfc F → Option (SpeedMsg F) × ValidationPfc F
  validation_open none p = (none, p)
  validation_open (some lines) p = deliver_found (find_reading libc lines) p

  -- The reaction to the timer `t`.
  unfoldable pub validation_tick : ValidationPfc F → Option (SpeedMsg F) × ValidationPfc F
  validation_tick p = if p.eof_reached then (none, p) else validation_open p.fp p

  -- The reaction to `startup`, with what the two tries of `fopen` give.
  abbrev pub validation_startup : Option (List Line) → ValidationPfc F
  validation_startup file = record {
    fp = file;
    prev_lat = lit 0 0;
    prev_lon = lit 0 0;
    has_prev = false;
    current_speed = lit 0 0;
    counter = negsuc 0;
    eof_reached = false;
  }

  -- A second of the main reactor.
  unfoldable pub validation_second : ValidationSystem F → Option Status × ValidationSystem F
  validation_second s =
      let (out1, pfc1) = validation_tick s.pfc1 in
      let (out2, pfc2) = validation_tick s.pfc2 in
      let (out3, pfc3) = validation_tick s.pfc3 in
      let (status, wes) = vote (hear3 out3 (hear2 out2 (hear1 out1 s.wes))) in
      (
        status,
        record {
          pfc1 = pfc1;
          pfc2 = pfc2;
          pfc3 = pfc3;
          wes = wes;
          stop_requested = hear_status status s.stop_requested;
        },
      )

  -- The reports of WES in the first seconds, while nobody asks for a stop.
  unfoldable pub validation_run : ℕ → ValidationSystem F → List (Option Status)
  validation_run zero s = []
  validation_run (suc n) s =
      let (status, s') = validation_second s in
      let rest = validation_run n s' in if s.stop_requested then [] else status ∷ rest

  -- The start, with the position file that all three computers open.
  abbrev pub validation_initial : Option (List Line) → ValidationSystem F
  validation_initial file = record {
    pfc1 = validation_startup file;
    pfc2 = validation_startup file;
    pfc3 = validation_startup file;
    wes = record {
      last_s1 = no_message;
      last_s2 = no_message;
      last_s3 = no_message;
      has_s1 = false;
      has_s2 = false;
      has_s3 = false;
    };
    stop_requested = false;
  }
