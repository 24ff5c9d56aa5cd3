-- ===== src/Fbw/Nav.antt =====
-- fbw-lf/src/fbw_nav.h: the parser of position sentences and the speed computed from them. `sscanf`
-- is a parameter.
pub mod Parse
use lf_benchmarks.Common.{ℕ, Bool, true, false, not, List, [], ◌∷◌, ltb, ◌==◌, if◌then◌else◌}
use lf_benchmarks.Int.{ℤ, pos, ◌*ℤ◌}
use lf_benchmarks.Double.{Double}

-- A line of text, in bytes.
abbrev pub Line : Type 0
Line = List ℕ

pub data Status : Type 0 where
  ok error_pfc1 error_pfc2 error_pfc3 emergency exit : Status

-- `gll_fix_t`
pub record GllFix (F : Type 0) : Type 0 where
  pub latitude : F
  pub lat_dir : ℕ
  pub longitude : F
  pub lon_dir : ℕ
  pub fix_time : ℤ
  pub valid : Bool

-- `speed_msg_t`
pub record SpeedMsg (F : Type 0) : Type 0 where
  pub counter : ℤ
  pub speed : F
  pub valid : Bool

-- What `sscanf(line, "$GPGLL,%lf,%c,%lf,%c,%d,%31s", …)` returns and stores.
pub record Scanned (F : Type 0) : Type 0 where
  pub count : ℤ
  pub lat : F
  pub lat_dir : ℕ
  pub lon : F
  pub lon_dir : ℕ
  pub time_val : ℤ

-- "$GPGLL"
abbrev pub gpgll_sentence : Line
gpgll_sentence = 36 ∷ 71 ∷ 80 ∷ 71 ∷ 76 ∷ 76 ∷ []

-- `strncmp(line, word, strlen(word)) == 0`
unfoldable pub starts_with : Line → Line → Bool
starts_with line [] = true
starts_with [] (w ∷ word) = false
starts_with (c ∷ line) (w ∷ word) = if c == w then starts_with line word else false

module _ {F : Type 0} ⦃d : Double F⦄ where
  open d use {lit, add, sub, mul, div, of_int, round_int, sin, cos, sqrt, pow, atan2}

  -- `M_PI`
  abbrev pi : F
  pi = lit 314159265358979323846 20

  unfoldable pub degrees_to_radians : F → F
  degrees_to_radians deg = div (mul deg pi) (lit 180 0)

  unfoldable pub haversine_distance : GllFix F → GllFix F → F
  haversine_distance start end =
      let d_lat = degrees_to_radians (sub end.latitude start.latitude) in
      let d_lon = degrees_to_radians (sub end.longitude start.longitude) in
      let s_lat = degrees_to_radians start.latitude in
      let e_lat = degrees_to_radians end.latitude in
      let two : F = of_int (pos 2) in
      let ha =
        add (pow (sin (div d_lat (lit 2 0))) two)
          (mul (mul (pow (sin (div d_lon (lit 2 0))) two) (cos s_lat)) (cos e_lat)) in
      let hc = mul (lit 2 0) (atan2 (sqrt ha) (sqrt (sub (lit 1 0) ha))) in
      mul (of_int (pos 6371)) hc

  unfoldable pub compute_speed : F → GllFix F → GllFix F → F
  compute_speed prev_speed prev_fix curr_fix =
      let dist = haversine_distance prev_fix curr_fix in add prev_speed (div dist (of_int (pos 1)))

  -- `<< 2` of an `int` that is not negative and below 2^29.
  unfoldable pub apply_bias : F → F
  apply_bias speed = of_int (round_int speed *ℤ pos 4)

-- `n < 5`
abbrev pub too_few : ℤ → Bool
too_few (ℤ.pos n) = ltb n 5
too_few (ℤ.negsuc n) = true

module _ {F : Type 0} (sscanf : Line → Scanned F) where
  -- The return value and the structure that `fix` points to.
  unfoldable pub parse_gpgll : Line → GllFix F → Bool × GllFix F
  unfolding starts_with
  parse_gpgll line fix =
      let r = sscanf line in
      if not (starts_with line gpgll_sentence)
      then (false, record fix { valid = false })
      else if too_few r.count
      then (false, record fix { valid = false })
      else (
        true,
        record {
          latitude = r.lat;
          lat_dir = r.lat_dir;
          longitude = r.lon;
          lon_dir = r.lon_dir;
          fix_time = r.time_val;
          valid = true;
        },
      )
