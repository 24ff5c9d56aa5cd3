-- ===== src/Mpc/Solve/Bounds.antt =====
-- Whatever the costs are, every control that the solver keeps is NaN or within its limits.
use lf_benchmarks.Common.{
  ℕ, zero, suc, ◌+◌, ◌≡◌, ◌⊎◌, inl, inr, Bool-cases, true, false, List, [], ◌∷◌, length, All,
  AllBelow, AllBelow-set, All-AllBelow, All-get_or, All-append, length-set, length-append, arith,
  iterate_inv,
}
use lf_benchmarks.Double.{Double, IsOrdered}
use lf_benchmarks.Mpc.Params.{Vector, horizon, opt_iter, u_max, u_min, zero_f}
use lf_benchmarks.Mpc.Solve.Shift.{shift-cons}
use lf_benchmarks.Mpc.Solve.{saturate, descend, sweep_from, sweep, optimize, shift, mpc_solve}

module _ {F : Type 0} ⦃d : Double F⦄ where
  -- NaN, which no test of the code catches, or within `[U_MIN, U_MAX]`.
  unfoldable pub IsBounded : F → Type 0
  IsBounded u = (d.eq u u ≡ false) ⊎ ((d.le u_min u ≡ true) × (d.le u u_max ≡ true))

  pub record IsControl (us : List F) : Type 0 where
    pub rows : length us ≡ horizon
    pub bounded : All IsBounded us

  module _ (o : IsOrdered d) where
    open o use {lt_irrefl, lit_nonneg, neg_nonpos, lit_above, lit_number, neg_number, not_lt}

    limits_ordered : d.le u_min u_max ≡ true
    limits_ordered = not_lt u_max u_min (lit_number 5 0) (neg_number 5 0) (lit_above 5 0)

    min_within : d.le u_min u_min ≡ true
    min_within = not_lt u_min u_min (neg_number 5 0) (neg_number 5 0) (lt_irrefl u_min)

    max_within : d.le u_max u_max ≡ true
    max_within = not_lt u_max u_max (lit_number 5 0) (lit_number 5 0) (lt_irrefl u_max)

    number_within :
        (u : F)
        → d.eq u u ≡ true
        → d.lt u_max u ≡ false
        → d.lt u u_min ≡ false
        → (d.le u_min u ≡ true) × (d.le u u_max ≡ true)
    number_within u e f g =
        (not_lt u u_min e (neg_number 5 0) g, not_lt u_max u (lit_number 5 0) e f)

    pub saturate-IsBounded : (u : F) → IsBounded (saturate u)
    unfolding saturate IsBounded
    saturate-IsBounded u = elim (Bool-cases (d.eq u u)) [
      | inl e ↦
          ground (arith, limits_ordered, min_within, max_within, lit_above 5 0, number_within u e)
      | inr e ↦ ground (arith, e, limits_ordered, min_within, max_within, lit_above 5 0)
    ]

    pub zero-IsBounded : IsBounded zero_f
    unfolding IsBounded
    zero-IsBounded = inr (
      not_lt zero_f u_min (lit_number 0 0) (neg_number 5 0) (neg_nonpos 5 0),
      not_lt u_max zero_f (lit_number 5 0) (lit_number 0 0) (lit_nonneg 5 0),
    )

    sweep_from-AllBelow :
        (x0 xref : Vector F) (left k : ℕ) (us : List F)
        → AllBelow IsBounded k us
        → length us ≡ left + k
        → (length (sweep_from x0 xref left k us) ≡ left + k)
          × All IsBounded (sweep_from x0 xref left k us)
    unfolding sweep_from descend
    sweep_from-AllBelow x0 xref zero k us b e = (e, All-AllBelow IsBounded k us (omega arith) b)
    sweep_from-AllBelow x0 xref (suc left) k us b e =
        let below = AllBelow-set IsBounded k us _ b (saturate-IsBounded _) in
        let (rows, bounded) =
          sweep_from-AllBelow x0 xref left (suc k) (descend x0 xref us k) below
            (omega (arith, length-set {0} us k _)) in
        (omega (arith, rows), bounded)

    sweep-IsControl :
        (x0 xref : Vector F) (us : List F)
        → length us ≡ horizon
        → (length (sweep x0 xref us) ≡ horizon) × IsControl (sweep x0 xref us)
    unfolding sweep
    sweep-IsControl x0 xref us e =
        let (rows, bounded) = sweep_from-AllBelow x0 xref (length us) 0 us tt (omega arith) in
        let same : length (sweep_from x0 xref (length us) 0 us) ≡ horizon = omega (arith, rows) in
        (same, record { rows = same; bounded = bounded })

    pub optimize-IsControl :
        (x0 xref : Vector F) (us : List F) → length us ≡ horizon → IsControl (optimize x0 xref us)
    unfolding optimize
    optimize-IsControl x0 xref us e =
        (iterate_inv (λ l. length l ≡ horizon) IsControl (sweep x0 xref) (sweep-IsControl x0 xref)
          opt_iter us e (omega arith)).1

    pub shift-IsControl : (us : List F) → IsControl us → IsControl (shift us)
    shift-IsControl [] c = absurd (omega (arith, c.rows))
    shift-IsControl (u ∷ us) c = rw (shift-cons u us) (record {
      rows = omega (arith, c.rows, length-append us (zero_f ∷ []));
      bounded = All-append IsBounded us _ c.bounded.1 (zero-IsBounded, tt);
    })

    -- From any sequence of ten rows, whatever the measured state and the reference are, `mpc_solve`
    -- returns a control that is NaN or within `[U_MIN, U_MAX]`, and keeps ten rows that all are.
    pub mpc_solve-IsBounded :
        (x0 xref : Vector F) (us : List F)
        → length us ≡ horizon
        → IsBounded (mpc_solve x0 xref us).0 × IsControl (mpc_solve x0 xref us).1
    unfolding mpc_solve
    mpc_solve-IsBounded x0 xref us e =
        let c = optimize-IsControl x0 xref us e in
        (All-get_or IsBounded _ 0 zero_f c.bounded zero-IsBounded, shift-IsControl _ c)
