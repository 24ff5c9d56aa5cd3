-- ===== src/Scripts/Comparison/Rows/Read.antt =====
-- The dictionaries that are read from logs have no counter twice.
use lf_benchmarks.Common.{
  ◌≡◌, refl, ◌∙◌, false, Bool-cases, inl, inr, Option, none, some, Option-cases, List, [], ◌∷◌,
  arith,
}
use std.Path.{subst}
use lf_benchmarks.Int.{ℤ, eqb_ℤ}
use lf_benchmarks.Fbw.Nav.{Line}
use lf_benchmarks.Scripts.Comparison.{Values, put, add_value, add_record, read_from, read_values}
use lf_benchmarks.Scripts.Comparison.Keys.{find-put_other}
use lf_benchmarks.Scripts.Comparison.Rows.Sorted.{IsDict}

module _ {F : Type 0} where
  put-IsDict : (k : ℤ) (v : F) (m : Values F) → IsDict m → IsDict (put k v m)
  put-IsDict k v [] h = (refl, tt)
  put-IsDict k v ((j, u) ∷ m) (new, h) = elim (Bool-cases (eqb_ℤ j k)) [
    | inl e ↦ rw e (new, h)
    | inr e ↦
        let other : eqb_ℤ k j ≡ false = ground (arith, e) in
        rw e (find-put_other k j v m other ∙ new, put-IsDict k v m h)
  ]

  module _ (pattern : Line → Option (ℤ × Line)) (to_float : Line → Option F) where
    add_value-IsDict :
        (k : ℤ) (v : Option F) (m m' : Values F) → IsDict m → add_value k v m ≡ some m' → IsDict m'
    add_value-IsDict k none m m' h e = absurd cc
    add_value-IsDict k (some v) m m' h e =
        let same : put k v m ≡ m' = cc e in subst IsDict same (put-IsDict k v m h)

    add_record-IsDict :
        (x : Option (ℤ × Line)) (m m' : Values F)
        → IsDict m
        → add_record to_float x m ≡ some m'
        → IsDict m'
    add_record-IsDict none m m' h e = let same : m ≡ m' = cc e in subst IsDict same h
    add_record-IsDict (some (k, text)) m m' h e = add_value-IsDict k (to_float text) m m' h e

    -- A log is read as a dictionary.
    read_from-IsDict :
        (l : List Line) (m m' : Values F)
        → IsDict m
        → read_from pattern to_float l m ≡ some m'
        → IsDict m'
    read_from-IsDict [] m m' h e = let same : m ≡ m' = cc e in subst IsDict same h
    read_from-IsDict (line ∷ l) m m' h e =
        elim (Option-cases (add_record to_float (pattern line) m)) [
          | inl f ↦ absurd (cc (rw f at e))
          | inr (n, f) ↦
              read_from-IsDict l n m' (add_record-IsDict (pattern line) m n h f) (rw f at e)
        ]

    pub read_values-IsDict :
        (l : List Line) (m : Values F) → read_values pattern to_float l ≡ some m → IsDict m
    unfolding read_values
    read_values-IsDict l m e = read_from-IsDict l [] m tt e
