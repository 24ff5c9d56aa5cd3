-- ===== src/Fbw/Vote/Laws.antt =====
-- What the votes decide.
use lf_benchmarks.Common.{
  ◌≡◌, ◌≢◌, ◌∙◌, refl, ◌⊎◌, ◌↔◌, Bool, true, false, ◌&&◌, if◌then◌else◌, some, arith,
}
use lf_benchmarks.Int.{eqb_symm, eqb_trans, ℤ, eqb_ℤ}
use lf_benchmarks.Double.{Double, IsComparable}
use lf_benchmarks.Fbw.Nav.{
  Status, ok, emergency, error_pfc1, error_pfc2, error_pfc3, exit, SpeedMsg,
}
use lf_benchmarks.Fbw.Vote.{
  Sample, Wes, agree, original_wes, verdict, expected_tmr, match_pair, decide, vote, requests_stop,
}

-- A verdict with two computers renamed for each other.
abbrev pub swap_12 : Status → Status
swap_12 error_pfc1 = error_pfc2
swap_12 error_pfc2 = error_pfc1
swap_12 s = s

abbrev pub swap_23 : Status → Status
swap_23 error_pfc2 = error_pfc3
swap_23 error_pfc3 = error_pfc2
swap_23 s = s

verdict-swap_12 :
    (m12 m21 m13 m23 : Bool)
    → m21 ≡ m12
    → (m12 ≡ true → m13 ≡ m23)
    → (m13 ≡ true → m23 ≡ true → m12 ≡ true)
    → verdict m21 m23 m13 ≡ swap_12 (verdict m12 m13 m23)
unfolding verdict
verdict-swap_12 true m21 m13 m23 e h k = ground (arith, h refl)
verdict-swap_12 false m21 true true e h k = ground (arith, k refl refl)
verdict-swap_12 false m21 _ _ e h k = ground arith

verdict-swap_23 :
    (m12 m13 m23 m32 : Bool) → m32 ≡ m23 → verdict m13 m12 m32 ≡ swap_23 (verdict m12 m13 m23)
unfolding verdict
verdict-swap_23 m12 m13 m23 m32 e = ground arith

-- The chain of tests in the code.
chain :
    (m12 m13 m23 : Bool)
    → (if m12 && m13
        then ok
        else if m12
        then error_pfc3
        else if m13
        then error_pfc2
        else if m23
        then error_pfc1
        else emergency)
      ≡ verdict m12 m13 m23
unfolding verdict
chain m12 m13 m23 = ground arith

verdict-ne-exit : (m12 m13 m23 : Bool) → verdict m12 m13 m23 ≢ exit
unfolding verdict
verdict-ne-exit m12 m13 m23 = ground arith

requests_stop-verdict :
    (m12 m13 m23 : Bool)
    → (requests_stop (verdict m12 m13 m23) ≡ true) ↔ ((m12 ≡ false) × (m13 ≡ false) × (m23 ≡ false))
unfolding requests_stop verdict
requests_stop-verdict m12 m13 m23 = ground arith

module _ {F : Type 0} ⦃d : Double F⦄ where
  abbrev pub sample : SpeedMsg F → Sample F
  sample m = record { counter = m.counter; speed = m.speed }

  -- With a valid message of each computer the reactor decides as the symmetric vote of the test
  -- program does, and waits for new messages.
  pub vote-expected_tmr :
      (w : Wes F)
      → w.has_s1 && w.last_s1.valid ≡ true
      → w.has_s2 && w.last_s2.valid ≡ true
      → w.has_s3 && w.last_s3.valid ≡ true
      → vote w ≡ (
        some (expected_tmr (sample w.last_s1) (sample w.last_s2) (sample w.last_s3)),
        record w { has_s1 = false; has_s2 = false; has_s3 = false },
      )
  unfolding vote decide expected_tmr verdict
  vote-expected_tmr w v1 v2 v3 = ground arith

  -- The original vote decides as the symmetric one exactly when the first two samples agree, or a
  -- sample that has the third one's counter also has its speed (the first, or else the second).
  pub original_wes_iff :
      (p1 p2 p3 : Sample F)
      → (original_wes p1 p2 p3 ≡ expected_tmr p1 p2 p3) ↔ (
          (agree p1.counter p1.speed p2.counter p2.speed ≡ true)
          ⊎ ((eqb_ℤ p1.counter p3.counter ≡ true) × (d.eq p1.speed p3.speed ≡ true))
          ⊎ ((eqb_ℤ p1.counter p3.counter ≡ false)
              × ((eqb_ℤ p2.counter p3.counter ≡ false) ⊎ (d.eq p2.speed p3.speed ≡ true))))
  unfolding original_wes expected_tmr verdict
  original_wes_iff p1 p2 p3 = ground arith

  module _ (c : IsComparable d) where
    open c use {eq_symm, eq_trans}

    agree_symm : (a b : ℤ) (x y : F) → agree b y a x ≡ agree a x b y
    agree_symm a b x y = ground (arith, eqb_symm a b, eq_symm x y)

    agree_trans :
        (a b c : ℤ) (x y z : F) → agree a x b y ≡ true → agree b y c z ≡ true → agree a x c z ≡ true
    agree_trans a b c x y z p q = ground (arith, eqb_trans a b c, eq_trans x y z)

    agree_congr : (a b c : ℤ) (x y z : F) → agree a x b y ≡ true → agree a x c z ≡ agree b y c z
    agree_congr a b c x y z p =
        ground (arith, agree_trans a b c x y z p, agree_trans b a c y x z (agree_symm a b x y ∙ p))

    expected_tmr-verdict :
        (p1 p2 p3 : Sample F)
        → expected_tmr p1 p2 p3
          ≡ verdict
              (agree p1.counter p1.speed p2.counter p2.speed)
              (agree p1.counter p1.speed p3.counter p3.speed)
              (agree p2.counter p2.speed p3.counter p3.speed)
    unfolding expected_tmr verdict
    expected_tmr-verdict p1 p2 p3 =
        chain (agree p1.counter p1.speed p2.counter p2.speed)
          (agree p1.counter p1.speed p3.counter p3.speed)
          (agree p2.counter p2.speed p3.counter p3.speed)

    -- The symmetric vote treats the computers alike: with the samples of two computers exchanged it
    -- gives the same verdict with the two exchanged. (Exchanges of neighbours generate the others.)
    expected_tmr_symm :
        (p1 p2 p3 : Sample F)
        → (expected_tmr p2 p1 p3 ≡ swap_12 (expected_tmr p1 p2 p3))
          × (expected_tmr p1 p3 p2 ≡ swap_23 (expected_tmr p1 p2 p3))
    expected_tmr_symm p1 p2 p3 =
        let a = p1.counter in
        let b = p2.counter in
        let c = p3.counter in
        let x = p1.speed in
        let y = p2.speed in
        let z = p3.speed in
        rw
          (
            expected_tmr-verdict p2 p1 p3,
            expected_tmr-verdict p1 p2 p3,
            expected_tmr-verdict p1 p3 p2,
          )
          (
            verdict-swap_12 _ _ _ _ (agree_symm a b x y) (agree_congr a b c x y z)
                (λ p q. agree_trans a c b x z y p (agree_symm b c y z ∙ q)),
            verdict-swap_23 (agree a x b y) (agree a x c z) _ _ (agree_symm b c y z),
          )

  vote-decide : (w : Wes F) {s : Status} {w' : Wes F} → vote w ≡ (some s, w') → decide w ≡ s
  unfolding vote
  vote-decide w e = ground arith

  decide-verdict :
      (w : Wes F)
      → decide w
        ≡ verdict
            (match_pair w.has_s1 w.last_s1 w.has_s2 w.last_s2)
            (match_pair w.has_s1 w.last_s1 w.has_s3 w.last_s3)
            (match_pair w.has_s2 w.last_s2 w.has_s3 w.last_s3)
  unfolding decide verdict
  decide-verdict w =
      chain (match_pair w.has_s1 w.last_s1 w.has_s2 w.last_s2)
        (match_pair w.has_s1 w.last_s1 w.has_s3 w.last_s3)
        (match_pair w.has_s2 w.last_s2 w.has_s3 w.last_s3)

  -- WES never reports `exit`, and its report makes the disconnect switch stop the program exactly
  -- if no two computers have valid messages that agree.
  pub requests_stop_iff :
      (w : Wes F) {s : Status} {w' : Wes F}
      → vote w ≡ (some s, w')
      → (s ≢ exit)
        × ((requests_stop s ≡ true) ↔ (
            (match_pair w.has_s1 w.last_s1 w.has_s2 w.last_s2 ≡ false)
            × (match_pair w.has_s1 w.last_s1 w.has_s3 w.last_s3 ≡ false)
            × (match_pair w.has_s2 w.last_s2 w.has_s3 w.last_s3 ≡ false)))
  requests_stop_iff w {s} e =
      let m12 = match_pair w.has_s1 w.last_s1 w.has_s2 w.last_s2 in
      let m13 = match_pair w.has_s1 w.last_s1 w.has_s3 w.last_s3 in
      let m23 = match_pair w.has_s2 w.last_s2 w.has_s3 w.last_s3 in
      let s_decided : decide w ≡ s = vote-decide w e in
      rw (← s_decided, decide-verdict w)
        (verdict-ne-exit m12 m13 m23, requests_stop-verdict m12 m13 m23)
