-- ===== src/Fbw/Vote.antt =====
-- The two votes of fbw-lf/tests/behavior/wes_original_behavior_test.c, and the vote of the reactor
-- WES of fbw-lf/src/fbw.lf.
pub mod Laws
pub mod Scenarios
pub mod Harness
pub mod Output
pub mod Compared
use lf_benchmarks.Common.{
  ◌≡◌, refl, ◌⊎◌, Bool, true, false, not, ◌&&◌, ◌||◌, Option, none, some, arith, if◌then◌else◌,
}
use lf_benchmarks.Int.{ℤ, eqb_ℤ}
use lf_benchmarks.Double.{Double, IsComparable}
use lf_benchmarks.Fbw.Nav.{
  Status, ok, error_pfc1, error_pfc2, error_pfc3, emergency, exit, SpeedMsg,
}

-- `sample_t`
pub record Sample (F : Type 0) : Type 0 where
  pub counter : ℤ
  pub speed : F

-- The reactor's state.
pub record Wes (F : Type 0) : Type 0 where
  pub last_s1 : SpeedMsg F
  pub last_s2 : SpeedMsg F
  pub last_s3 : SpeedMsg F
  pub has_s1 : Bool
  pub has_s2 : Bool
  pub has_s3 : Bool

module _ {F : Type 0} ⦃d : Double F⦄ where
  -- Same counter and same speed, for what is said of the votes.
  abbrev pub agree : ℤ → F → ℤ → F → Bool
  agree c x c' y = eqb_ℤ c c' && d.eq x y

  unfoldable pub original_wes : Sample F → Sample F → Sample F → Status
  original_wes p1 p2 p3 =
      if eqb_ℤ p1.counter p2.counter && d.eq p1.speed p2.speed
      then (if eqb_ℤ p1.counter p3.counter && d.eq p1.speed p3.speed then ok else error_pfc3)
      else if eqb_ℤ p1.counter p3.counter
      then error_pfc2
      else if eqb_ℤ p2.counter p3.counter
      then error_pfc1
      else emergency

  unfoldable pub expected_tmr : Sample F → Sample F → Sample F → Status
  expected_tmr p1 p2 p3 =
      let match12 = eqb_ℤ p1.counter p2.counter && d.eq p1.speed p2.speed in
      let match13 = eqb_ℤ p1.counter p3.counter && d.eq p1.speed p3.speed in
      let match23 = eqb_ℤ p2.counter p3.counter && d.eq p2.speed p3.speed in
      if match12 && match13
      then ok
      else if match12
      then error_pfc3
      else if match13
      then error_pfc2
      else if match23
      then error_pfc1
      else emergency

  -- `valid1 && valid2 && …`, and so for the other pairs.
  abbrev pub match_pair : Bool → SpeedMsg F → Bool → SpeedMsg F → Bool
  match_pair has_a a has_b b =
      (has_a && a.valid)
      && (has_b && b.valid)
      && (eqb_ℤ a.counter b.counter && d.eq a.speed b.speed)

  -- The status that the reaction to `vote_tick` sets.
  unfoldable pub decide : Wes F → Status
  decide w =
      let match_12 = match_pair w.has_s1 w.last_s1 w.has_s2 w.last_s2 in
      let match_13 = match_pair w.has_s1 w.last_s1 w.has_s3 w.last_s3 in
      let match_23 = match_pair w.has_s2 w.last_s2 w.has_s3 w.last_s3 in
      if match_12 && match_13
      then ok
      else if match_12
      then error_pfc3
      else if match_13
      then error_pfc2
      else if match_23
      then error_pfc1
      else emergency

  -- The reaction to `vote_tick`: what it sets on `status`, if anything, and the state after it. The
  -- early returns leave the flags as they are.
  unfoldable pub vote : Wes F → Option Status × Wes F
  vote w =
      let valid1 = w.has_s1 && w.last_s1.valid in
      let valid2 = w.has_s2 && w.last_s2.valid in
      let valid3 = w.has_s3 && w.last_s3.valid in
      if not w.has_s1 && not w.has_s2 && not w.has_s3
      then (none, w)
      else if not valid1 && not valid2 && not valid3
      then (none, w)
      else (some (decide w), record w { has_s1 = false; has_s2 = false; has_s3 = false })

-- What a vote is to decide by the pairs that match: the computer in no matching pair is at fault.
unfoldable pub verdict : (match12 match13 match23 : Bool) → Status
verdict true true match23 = ok
verdict true false match23 = error_pfc3
verdict false true match23 = error_pfc2
verdict false false true = error_pfc1
verdict false false false = emergency

-- The reaction of the reactor DisconnectSwitch: whether it calls `lf_request_stop`.
unfoldable pub requests_stop : Status → Bool
requests_stop emergency = true
requests_stop exit = true
requests_stop _ = false
