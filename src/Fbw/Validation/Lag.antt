-- ===== src/Fbw/Validation/Lag.antt =====
-- What a computer of the validation build sends, by the positions in its file.
use lf_benchmarks.Common.{
  ℕ, zero, suc, ◌-◌, ◌+◌, ◌≡◌, refl, sym, ◌∙◌, ap, true, false, Bool-cases, inl, inr, Option, none,
  some, Option-cases, List, [], ◌∷◌, if◌then◌else◌, get_elem?, take, arith,
}
use lf_benchmarks.Int.{pos, ◌+ℤ◌, eqb_ℤ}
use lf_benchmarks.Double.{Double}
use lf_benchmarks.Fbw.Nav.{Line, SpeedMsg}
use lf_benchmarks.Fbw.Validation.{
  Reading, ValidationPfc, Libc, find_reading, float_distance, float_speed, deliver, deliver_found,
  validation_open, validation_tick, validation_startup,
}

module _ {F : Type 0} where
  -- What is sent at a tick.
  abbrev pub message : ℕ → F → SpeedMsg F
  message n v = record { counter = pos n; speed = v; valid = true }

module _ {F : Type 0} (libc : Libc F) where
  -- The positions in a file.
  unfoldable pub readings : List Line → List (Reading F)
  readings [] = []
  readings (line ∷ rest) =
      let r = libc.sscanf line in
      let later = readings rest in if eqb_ℤ r.parsed (pos 6) then r ∷ later else later

  -- `find_reading` takes the first of them.
  readings-find_reading :
      (lines : List Line)
      → readings lines
        ≡ (elim (find_reading libc lines) [ none ↦ [] | some (r, rest) ↦ r ∷ readings rest ])
  unfolding readings find_reading
  readings-find_reading [] = refl
  readings-find_reading (line ∷ rest) =
      elim (Bool-cases (eqb_ℤ (libc.sscanf line).parsed (pos 6))) [
        | inl e ↦ rw e refl
        | inr e ↦ rw e (readings-find_reading rest)
      ]

module _ {F : Type 0} ⦃d : Double F⦄ (libc : Libc F) where
  open d use {lit}

  -- The way between two positions.
  abbrev leg : Reading F → Reading F → F
  leg a b = float_distance libc a.lat a.lon b.lat b.lon

  -- The ways from each position to the next.
  abbrev pub legs : List (Reading F) → List F
  legs [] = []
  legs (a ∷ []) = []
  legs (a ∷ b ∷ rest) = leg a b ∷ legs (b ∷ rest)

  abbrev pub total : F → List F → F
  total v [] = v
  total v (x ∷ xs) = total (float_speed libc v x) xs

  -- What the computer is to send at its tick `n`, the first being 0: the total of the ways up to the
  -- position before.
  abbrev pub lagged : List (Reading F) → ℕ → Option (SpeedMsg F)
  lagged rs n = elim (get_elem? rs n) [
    | none ↦ none
    | some r ↦ some (message n (total (lit 0 0) (take (n - 1) (legs rs))))
  ]

  -- The state before the tick `n`.
  unfoldable pub validation_state : ℕ → ValidationPfc F → ValidationPfc F
  validation_state zero p = p
  validation_state (suc n) p = validation_state n (validation_tick libc p).1

  -- A computer that has passed the position `a` with the counter `c` and the speed `v`.
  abbrev pub passed : Reading F → ℕ → F → List Line → ValidationPfc F
  passed a c v lines = record {
    fp = some lines;
    prev_lat = a.lat;
    prev_lon = a.lon;
    has_prev = true;
    current_speed = v;
    counter = pos c;
    eof_reached = false;
  }

  -- What is sent by one that has still some positions ahead.
  abbrev lagged_from : Reading F → ℕ → F → List (Reading F) → ℕ → Option (SpeedMsg F)
  lagged_from a c v rs n = elim (get_elem? rs n) [
    | none ↦ none
    | some r ↦ some (message (suc (c + n)) (total v (take n (legs (a ∷ rs)))))
  ]

  tick-ended : (p : ValidationPfc F) → p.eof_reached ≡ true → validation_tick libc p ≡ (none, p)
  unfolding validation_tick
  tick-ended p e = ap (λ b. if b then (none, p) else validation_open libc p.fp p) e

  state-ended :
      (n : ℕ) (p : ValidationPfc F)
      → p.eof_reached ≡ true
      → (validation_tick libc (validation_state n p)).0 ≡ none
  unfolding validation_state
  state-ended zero p e = rw (tick-ended p e) refl
  state-ended (suc n) p e = rw (tick-ended p e) (state-ended n p e)

  -- The last tick, which finds the end of the file.
  tick-last :
      (p : ValidationPfc F) (lines : List Line)
      → p.fp ≡ some lines
      → p.eof_reached ≡ false
      → find_reading libc lines ≡ none
      → validation_tick libc p ≡ (none, record p { fp = some []; eof_reached = true })
  unfolding validation_tick
  tick-last p lines f open_still e =
      ap (λ b. if b then (none, p) else validation_open libc p.fp p) open_still
      ∙ ap (λ file. validation_open libc file p) f
      ∙ ap (λ found. deliver_found libc found p) e

  tick-next :
      (a b : Reading F) (c : ℕ) (v : F) (lines rest : List Line)
      → find_reading libc lines ≡ some (b, rest)
      → validation_tick libc (passed a c v lines)
        ≡ (some (message (suc c) v), passed b (suc c) (float_speed libc v (leg a b)) rest)
  unfolding validation_tick deliver
  tick-next a b c v lines rest e =
      let count : pos c +ℤ pos 1 ≡ pos (suc c) = ground arith in
      ap (λ found. deliver_found libc found (passed a c v lines)) e ∙ rw count refl

  lagged_from-next :
      (n c : ℕ) (a b : Reading F) (v : F) (rs : List (Reading F))
      → lagged_from a c v (b ∷ rs) (suc n)
        ≡ lagged_from b (suc c) (float_speed libc v (leg a b)) rs n
  lagged_from-next n c a b v rs =
      let count : suc (c + suc n) ≡ suc (suc c + n) = omega arith in
      let speed = total v (take (suc n) (legs (a ∷ b ∷ rs))) in
      ap (λ m. elim (get_elem? rs n) [ none ↦ none | some r ↦ some (message m speed) ]) count

  tick-passed :
      (n c : ℕ) (a : Reading F) (v : F) (lines : List Line)
      → (validation_tick libc (validation_state n (passed a c v lines))).0
        ≡ lagged_from a c v (readings libc lines) n
  unfolding validation_state
  tick-passed zero c a v lines = elim (Option-cases (find_reading libc lines)) [
    | inl e ↦
        rw (readings-find_reading libc lines, e, tick-last (passed a c v lines) lines refl refl e)
          refl
    | inr ((b, rest), e) ↦
        rw (readings-find_reading libc lines, e, tick-next a b c v lines rest e)
          (let zero : c + 0 ≡ c = omega arith in rw zero refl)
  ]
  tick-passed (suc n) c a v lines = elim (Option-cases (find_reading libc lines)) [
    | inl e ↦
        rw (readings-find_reading libc lines, e, tick-last (passed a c v lines) lines refl refl e)
          (state-ended n _ refl)
    | inr ((b, rest), e) ↦
        rw (readings-find_reading libc lines, e, tick-next a b c v lines rest e)
          (tick-passed n (suc c) b (float_speed libc v (leg a b)) rest
            ∙ sym (lagged_from-next n c a b v (readings libc rest)))
  ]

  tick-first :
      (b : Reading F) (lines rest : List Line)
      → find_reading libc lines ≡ some (b, rest)
      → validation_tick libc (validation_startup libc (some lines))
        ≡ (some (message 0 (lit 0 0)), passed b 0 (lit 0 0) rest)
  unfolding validation_tick deliver
  tick-first b lines rest e =
      ap (λ found. deliver_found libc found (validation_startup libc (some lines))) e

  lagged_from-lagged :
      (n : ℕ) (b : Reading F) (rs : List (Reading F))
      → lagged_from b 0 (lit 0 0) rs n ≡ lagged (b ∷ rs) (suc n)
  lagged_from-lagged n b rs =
      let sent : ℕ → ℕ → Option (SpeedMsg F) = λ m k. elim (get_elem? rs n) [
        | none ↦ none
        | some r ↦ some (message m (total (lit 0 0) (take k (legs (b ∷ rs)))))
      ] in
      let count : suc (0 + n) ≡ suc n = omega arith in
      let before : n ≡ suc n - 1 = omega arith in
      ap (λ m. sent m n) count ∙ ap (sent (suc n)) before

  -- A computer of the validation build sends at its tick `n`, as long as its file has a position for
  -- that tick, the number `n` with the total of the ways up to the position before, so that its
  -- first two messages have the speed zero. Once the positions are through it sends nothing.
  pub validation_tick-lagged :
      (lines : List Line) (n : ℕ)
      → (validation_tick libc (validation_state n (validation_startup libc (some lines)))).0
        ≡ lagged (readings libc lines) n
  unfolding validation_state
  validation_tick-lagged lines zero = elim (Option-cases (find_reading libc lines)) [
    | inl e ↦
        rw
          (
            readings-find_reading libc lines,
            e,
            tick-last (validation_startup libc (some lines)) lines refl refl e,
          )
          refl
    | inr ((b, rest), e) ↦ rw (readings-find_reading libc lines, e, tick-first b lines rest e) refl
  ]
  validation_tick-lagged lines (suc n) = elim (Option-cases (find_reading libc lines)) [
    | inl e ↦
        rw
          (
            readings-find_reading libc lines,
            e,
            tick-last (validation_startup libc (some lines)) lines refl refl e,
          )
          (state-ended n _ refl)
    | inr ((b, rest), e) ↦
        rw (readings-find_reading libc lines, e, tick-first b lines rest e)
          (tick-passed n 0 b (lit 0 0) rest ∙ lagged_from-lagged n b (readings libc rest))
  ]
