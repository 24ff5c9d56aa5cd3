-- ===== src/Fbw/Vote/Harness.antt =====
-- fbw-lf/tests/behavior/wes_lf_behavior_test.lf: a source of scenarios, a vote that wants all three
-- samples, and a reporter, a second at a time.
use lf_benchmarks.Common.{
  ℕ, zero, suc, ◌≡◌, refl, Bool, true, false, not, ◌&&◌, ◌||◌, Option, none, some, List, [], ◌∷◌,
  ltb, get_elem?, if◌then◌else◌, arith,
}
use lf_benchmarks.Int.{ℤ, pos, eqb_ℤ}
use lf_benchmarks.Double.{Double}
use lf_benchmarks.Fbw.Nav.{Status, ok, error_pfc1, error_pfc2, error_pfc3, emergency}
use lf_benchmarks.Fbw.Vote.{Sample, expected_tmr}
use lf_benchmarks.Fbw.Vote.Scenarios.{Scenario, scenarios}

-- `test_speed_msg_t`
pub record TestSpeedMsg (F : Type 0) : Type 0 where
  pub counter : ℤ
  pub speed : F
  pub valid : Bool
  pub scenario : ℕ

-- `behavior_result_t`
pub record BehaviorResult : Type 0 where
  pub scenario : ℕ
  pub status : Status

-- The state of the reactor WES of the test.
pub record TestWes (F : Type 0) : Type 0 where
  pub last_s1 : TestSpeedMsg F
  pub last_s2 : TestSpeedMsg F
  pub last_s3 : TestSpeedMsg F
  pub has_s1 : Bool
  pub has_s2 : Bool
  pub has_s3 : Bool

module _ {F : Type 0} where
  -- The reactions to `speed1`, `speed2` and `speed3`.
  abbrev pub take1 : TestSpeedMsg F → TestWes F → TestWes F
  take1 m w = record w { last_s1 = m; has_s1 = true }

  abbrev pub take2 : TestSpeedMsg F → TestWes F → TestWes F
  take2 m w = record w { last_s2 = m; has_s2 = true }

  abbrev pub take3 : TestSpeedMsg F → TestWes F → TestWes F
  take3 m w = record w { last_s3 = m; has_s3 = true }

module _ {F : Type 0} ⦃d : Double F⦄ where
  -- The cases of the switch: counters and speeds, by scenario.
  abbrev set_fields :
      (scenario c1 c2 c3 s1 s2 s3 : ℕ) → TestSpeedMsg F × TestSpeedMsg F × TestSpeedMsg F
  set_fields scenario c1 c2 c3 s1 s2 s3 =
      let msg : ℕ → ℕ → TestSpeedMsg F =
        λ c s. record { counter = pos c; speed = d.lit s 0; valid = true; scenario = scenario } in
      (msg c1 s1, msg c2 s2, msg c3 s3)

  abbrev switch : ℕ → Option (TestSpeedMsg F × TestSpeedMsg F × TestSpeedMsg F)
  switch zero = some (set_fields 0 10 10 10 5 5 5)
  switch (suc zero) = some (set_fields 1 11 11 11 5 5 20)
  switch (suc (suc zero)) = some (set_fields 2 12 11 12 5 5 5)
  switch (suc (suc (suc zero))) = some (set_fields 3 13 13 13 6 6 6)
  switch (suc (suc (suc (suc zero)))) = some (set_fields 4 13 14 14 6 6 6)
  switch (suc (suc (suc (suc (suc zero))))) = some (set_fields 5 15 14 13 7 7 7)
  switch (suc (suc (suc (suc (suc (suc zero)))))) = some (set_fields 6 16 16 16 28 7 7)
  switch (suc (suc (suc (suc (suc (suc (suc zero))))))) = some (set_fields 7 17 17 17 7 28 7)
  switch (suc (suc (suc (suc (suc (suc (suc (suc zero)))))))) = some (set_fields 8 18 18 18 7 8 9)
  switch _ = none

  -- The reaction of ScenarioSource at a second, what it sets on its three ports.
  unfoldable pub scenario_source : ℕ → Option (TestSpeedMsg F × TestSpeedMsg F × TestSpeedMsg F)
  scenario_source time = if ltb 8 time then none else switch time

  -- The vote on three samples.
  unfoldable pub test_status : TestSpeedMsg F → TestSpeedMsg F → TestSpeedMsg F → Status
  test_status a b c =
      let match12 = eqb_ℤ a.counter b.counter && d.eq a.speed b.speed in
      let match13 = eqb_ℤ a.counter c.counter && d.eq a.speed c.speed in
      let match23 = eqb_ℤ b.counter c.counter && d.eq b.speed c.speed in
      if match12 && match13
      then ok
      else if match12
      then error_pfc3
      else if match13
      then error_pfc2
      else if match23
      then error_pfc1
      else emergency

  -- The reaction to `vote_tick`.
  unfoldable pub test_vote : TestWes F → Option BehaviorResult × TestWes F
  test_vote w = if not w.has_s1 || not w.has_s2 || not w.has_s3 then (none, w) else (
    some (record {
      scenario = w.last_s1.scenario;
      status = test_status w.last_s1 w.last_s2 w.last_s3;
    }),
    record w { has_s1 = false; has_s2 = false; has_s3 = false },
  )

  abbrev pub heard_source :
      Option (TestSpeedMsg F × TestSpeedMsg F × TestSpeedMsg F) → TestWes F → TestWes F
  heard_source none w = w
  heard_source (some (a, b, c)) w = take3 c (take2 b (take1 a w))

  -- The results that the reporter hears in `n` seconds from `time` on.
  unfoldable pub results : (time n : ℕ) → TestWes F → List (Option BehaviorResult)
  unfolding scenario_source test_vote
  results time zero w = []
  results time (suc n) w =
      let (result, w') = test_vote (heard_source (scenario_source time) w) in
      result ∷ results (suc time) n w'

  -- The message of a sample in the row with this number.
  abbrev message : ℕ → Sample F → TestSpeedMsg F
  message time p = record { counter = p.counter; speed = p.speed; valid = true; scenario = time }

  abbrev messages :
      ℕ → Option (Scenario F) → Option (TestSpeedMsg F × TestSpeedMsg F × TestSpeedMsg F)
  messages time none = none
  messages time (some s) = some (message time s.p1, message time s.p2, message time s.p3)

  -- The verdict of the C program's reference vote on a row of its table.
  abbrev pub result_for : ℕ → Option (Scenario F) → Option BehaviorResult
  result_for time none = none
  result_for time (some s) = some (record { scenario = time; status = expected_tmr s.p1 s.p2 s.p3 })

  -- What is expected in `n` seconds from `time` on: the verdict on the row with the second's number,
  -- and nothing past the table.
  unfoldable pub expected_results : List (Scenario F) → (time n : ℕ) → List (Option BehaviorResult)
  expected_results table time zero = []
  expected_results table time (suc n) =
      result_for time (get_elem? table time) ∷ expected_results table (suc time) n

  -- The source sends the rows of the C program's table.
  scenario_source-messages :
      (time : ℕ) → scenario_source time ≡ messages time (get_elem? scenarios time)
  unfolding scenario_source
  scenario_source-messages zero = refl
  scenario_source-messages (suc zero) = refl
  scenario_source-messages (suc (suc zero)) = refl
  scenario_source-messages (suc (suc (suc zero))) = refl
  scenario_source-messages (suc (suc (suc (suc zero)))) = refl
  scenario_source-messages (suc (suc (suc (suc (suc zero))))) = refl
  scenario_source-messages (suc (suc (suc (suc (suc (suc zero)))))) = refl
  scenario_source-messages (suc (suc (suc (suc (suc (suc (suc zero))))))) = refl
  scenario_source-messages (suc (suc (suc (suc (suc (suc (suc (suc zero)))))))) = refl
  scenario_source-messages (suc (suc (suc (suc (suc (suc (suc (suc (suc k))))))))) = ground arith

  -- The vote waits for new samples.
  abbrev pub IsWaiting : TestWes F → Type 0
  IsWaiting w = (w.has_s1 ≡ false) × (w.has_s2 ≡ false) × (w.has_s3 ≡ false)

  vote_on :
      (time : ℕ) (o : Option (Scenario F)) (w : TestWes F)
      → IsWaiting w
      → let v = test_vote (heard_source (messages time o) w) in
        (v.0 ≡ result_for time o) × IsWaiting v.1
  unfolding test_vote test_status expected_tmr
  vote_on time none w h = ground arith
  vote_on time (some s) w h = (refl, (refl, refl, refl))

  results_from :
      (time n : ℕ) (w : TestWes F)
      → IsWaiting w
      → results time n w ≡ expected_results scenarios time n
  unfolding results expected_results
  results_from time zero w h = refl
  results_from time (suc n) w h =
      let o = get_elem? scenarios time in
      let source = scenario_source-messages time in
      let (result, waits) = vote_on time o w h in
      let rest = results_from (suc time) n (test_vote (heard_source (messages time o) w)).1 waits in
      rw (source, result, rest) refl

  -- From a state that waits for samples, the reporter of the reactor test hears in second after
  -- second the verdict of the C program's reference vote on the row of the C program's table with
  -- that number, with that number, and nothing once the table is through.
  pub results-expected :
      (n : ℕ) (w : TestWes F) → IsWaiting w → results 0 n w ≡ expected_results scenarios 0 n
  results-expected n w h = results_from 0 n w h
