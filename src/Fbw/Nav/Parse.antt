-- ===== src/Fbw/Nav/Parse.antt =====
-- Which lines `parse_gpgll` takes.
use lf_benchmarks.Common.{
  Bool, Bool-cases, inl, inr, ◌+◌, ◌-◌, ◌∙◌, ℕ, ◌≡◌, ◌↔◌, refl, ap, true, false, [], ◌∷◌, ◌++◌,
  arith,
}
use lf_benchmarks.Int.{ℤ, pos, negsuc}
use lf_benchmarks.Text.{codes}
use lf_benchmarks.Fbw.Nav.{Line, GllFix, Scanned, gpgll_sentence, starts_with, too_few, parse_gpgll}

starts_with-split :
    (line word : Line) → starts_with line word ≡ true → (rest : Line) × (line ≡ word ++ rest)
unfolding starts_with
starts_with-split line [] h = (line, refl)
starts_with-split [] (w ∷ word) h = absurd (ground arith)
starts_with-split (c ∷ line) (w ∷ word) h =
    let same : c ≡ w = ground arith in
    let (rest, e) = starts_with-split line word (ground arith) in
    (rest, rw same (ap (λ l. w ∷ l) e))

starts_with-append : (word rest : Line) → starts_with (word ++ rest) word ≡ true
unfolding starts_with
starts_with-append [] rest = refl
starts_with-append (w ∷ word) rest = ground (arith, starts_with-append word rest)

enough : (n : ℤ) → too_few n ≡ false → (more : ℕ) × (n ≡ pos (5 + more))
enough (pos n) h = (n - 5, ap pos (ground (arith, h)))
enough (negsuc n) h = absurd cc

not_few : (more : ℕ) → too_few (pos (5 + more)) ≡ false
not_few more = ground arith

module _ {F : Type 0} where
  -- The position after a line: what was read from it, if it is taken, and else the one before.
  abbrev pub Updated : Bool → Scanned F → (before after : GllFix F) → Type 0
  Updated true r before after =
      (after.latitude ≡ r.lat)
      × (after.lat_dir ≡ r.lat_dir)
      × (after.longitude ≡ r.lon)
      × (after.lon_dir ≡ r.lon_dir)
      × (after.fix_time ≡ r.time_val)
  Updated false r before after =
      (after.latitude ≡ before.latitude)
      × (after.lat_dir ≡ before.lat_dir)
      × (after.longitude ≡ before.longitude)
      × (after.lon_dir ≡ before.lon_dir)
      × (after.fix_time ≡ before.fix_time)

module _ {F : Type 0} (sscanf : Line → Scanned F) where
  parse_gpgll_cases :
      (line : Line) (fix : GllFix F)
      → ((parse_gpgll sscanf line fix).0 ≡ true)
        ↔ ((starts_with line gpgll_sentence ≡ true) × (too_few (sscanf line).count ≡ false))
  unfolding parse_gpgll
  parse_gpgll_cases line fix = ground arith

  updated :
      (line : Line) (fix : GllFix F)
      → Updated (parse_gpgll sscanf line fix).0 (sscanf line) fix (parse_gpgll sscanf line fix).1
  unfolding parse_gpgll
  updated line fix = elim (Bool-cases (starts_with line gpgll_sentence)) [
    | inr e ↦ rw e (refl, refl, refl, refl, refl)
    | inl e ↦ elim (Bool-cases (too_few (sscanf line).count)) [
      | inl f ↦ rw (e, f) (refl, refl, refl, refl, refl)
      | inr f ↦ rw (e, f) (refl, refl, refl, refl, refl)
    ]
  ]

  -- A line is taken exactly if it starts with "$GPGLL" and `sscanf` assigns five items or more. Then
  -- the position is what `sscanf` has read; a refused line leaves it as it was. `valid` is always
  -- left as the return value says.
  pub parse_gpgll_iff :
      (line : Line) (fix : GllFix F)
      → (((parse_gpgll sscanf line fix).0 ≡ true) ↔ (
          ((rest : Line) × (line ≡ codes "$GPGLL" ++ rest))
          × ((more : ℕ) × ((sscanf line).count ≡ pos (5 + more)))))
        × ((parse_gpgll sscanf line fix).1.valid ≡ (parse_gpgll sscanf line fix).0)
        × Updated (parse_gpgll sscanf line fix).0 (sscanf line) fix (parse_gpgll sscanf line fix).1
  unfolding parse_gpgll
  parse_gpgll_iff line fix =
      let (to, from) = parse_gpgll_cases line fix in
      let starts : (rest : Line)
          → line ≡ gpgll_sentence ++ rest
          → starts_with line gpgll_sentence ≡ true =
        λ rest e. rw e (starts_with-append gpgll_sentence rest) in
      (
        (
          λ h.
              (starts_with-split line gpgll_sentence (to h).0, enough (sscanf line).count (to h).1),
          λ h. from (starts h.0.0 h.0.1, ap too_few h.1.1 ∙ not_few h.1.0),
        ),
        ground arith,
        updated line fix,
      )
