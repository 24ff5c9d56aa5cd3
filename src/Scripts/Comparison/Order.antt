-- ===== src/Scripts/Comparison/Order.antt =====
-- The order of the lines of a log, which fbw-lf/scripts/compare_fbw.py forgets.
use mathlib.Core.Logic.{∥∥₁_elim}
use mathlib.Core.List.{Perm, Permᴰ, Pairwise, mem-cons_self}
use mathlib.Core.List.Permᴰ
use mathlib.Core.Quot.Quotient
use std.Path.{subst}
use lf_benchmarks.Common.{
  ◌≡◌, inl, inr, refl, sym, ap, ◌∙◌, Bool, Bool-cases, false, Option, none, some, List, [], ◌∷◌,
  if◌then◌else◌, arith,
}
use lf_benchmarks.Int.{eqb_sound, eqb_symm, ℤ, eqb_ℤ}
use lf_benchmarks.Double.{Double}
use lf_benchmarks.Fbw.Nav.{Line}
use lf_benchmarks.Scripts.Records.{◌>>=◌, bind_some, bind_assoc, c_record, lf_record}
use lf_benchmarks.Scripts.Comparison.{
  Values, put, find, add_value, add_record, read_from, read_values, compare_fbw,
}
use lf_benchmarks.Scripts.Comparison.Keys.{find-put_same, find-put_other}
use lf_benchmarks.Scripts.Comparison.Dictionary.{
  SameEntries, same_entries, Dictionary?-set, to_dictionary, read_dictionary, ending_of,
  compare_fbw-dictionaries,
}

-- Two lines do not both have a record for the same counter.
abbrev pub OtherCounters : Option (ℤ × Line) → Option (ℤ × Line) → Type 0
OtherCounters (some (j, _)) (some (k, _)) = eqb_ℤ j k ≡ false
OtherCounters _ _ = Unit

OtherCounters-symm : (x y : Option (ℤ × Line)) → OtherCounters x y → OtherCounters y x
OtherCounters-symm none none h = tt
OtherCounters-symm none (some b) h = tt
OtherCounters-symm (some a) none h = tt
OtherCounters-symm (some (j, _)) (some (k, _)) h = eqb_symm k j ∙ h

Bool-set : IsSet Bool
Bool-set = hlevel

OtherCounters-prop : (x y : Option (ℤ × Line)) → IsProp (OtherCounters x y)
OtherCounters-prop none none = hlevel
OtherCounters-prop none (some b) = hlevel
OtherCounters-prop (some a) none = hlevel
OtherCounters-prop (some (j, _)) (some (k, _)) = Bool-set _ _

abbrev pub HaveOtherCounters : (Line → Option (ℤ × Line)) → Line → Line → Type 0
HaveOtherCounters pattern a b = OtherCounters (pattern a) (pattern b)

pub HaveOtherCounters-prop :
    (pattern : Line → Option (ℤ × Line)) (a b : Line) → IsProp (HaveOtherCounters pattern a b)
HaveOtherCounters-prop pattern a b = OtherCounters-prop (pattern a) (pattern b)

module _ {F : Type 0} where
  -- What is found after an assignment.
  find-put :
      (k : ℤ) (v : F) (m : Values F) (i : ℤ)
      → find (put k v m) i ≡ (if eqb_ℤ k i then some v else find m i)
  find-put k v m i = elim (Bool-cases (eqb_ℤ k i)) [
    | inl e ↦ rw e (ap (find (put k v m)) (sym (eqb_sound k i e)) ∙ find-put_same k v m)
    | inr e ↦ rw e (find-put_other k i v m e)
  ]

  put-congr :
      (k : ℤ) (v : F) (m m' : Values F) → SameEntries m m' → SameEntries (put k v m) (put k v m')
  put-congr k v m m' h i = rw (find-put k v m i, find-put k v m' i, h i) refl

  put_comm :
      (j k : ℤ) (u v : F) (m m' : Values F)
      → eqb_ℤ j k ≡ false
      → SameEntries m m'
      → SameEntries (put k v (put j u m)) (put j u (put k v m'))
  put_comm j k u v m m' e h i =
      find-put k v (put j u m) i
      ∙ (ap (λ o. if eqb_ℤ k i then some v else o) (find-put j u m i)
          ∙ (swapped
              ∙ sym (
                  find-put j u (put k v m') i
                  ∙ ap (λ o. if eqb_ℤ j i then some u else o) (find-put k v m' i))))
    where
      swapped :
          (if eqb_ℤ k i then some v else if eqb_ℤ j i then some u else find m i)
          ≡ (if eqb_ℤ j i then some u else if eqb_ℤ k i then some v else find m' i)
      swapped = rw (h i) (ground (arith, e))

  -- Two results of reading: both fail, or the dictionaries have the same entries.
  abbrev SameRead : Option (Values F) → Option (Values F) → Type 0
  SameRead none none = Unit
  SameRead (some m) (some m') = SameEntries m m'
  SameRead _ _ = ⊥

  SameRead-trans : (x y z : Option (Values F)) → SameRead x y → SameRead y z → SameRead x z
  SameRead-trans none none none h g = tt
  SameRead-trans (some a) (some b) (some c) h g = λ k. h k ∙ g k
  SameRead-trans none (some b) z h g = absurd h
  SameRead-trans (some a) none z h g = absurd h
  SameRead-trans none none (some c) h g = absurd g
  SameRead-trans (some a) (some b) none h g = absurd g

  SameRead-sound : (x y : Option (Values F)) → SameRead x y → to_dictionary x ≡ to_dictionary y
  SameRead-sound none none h = refl
  SameRead-sound (some m) (some m') h = ap some (Quotient.sound same_entries h)
  SameRead-sound none (some m') h = absurd h
  SameRead-sound (some m) none h = absurd h

  SameRead-bind :
      (x y : Option (Values F)) (f g : Values F → Option (Values F))
      → SameRead x y
      → ((m m' : Values F) → SameEntries m m' → SameRead (f m) (g m'))
      → SameRead (x >>= f) (y >>= g)
  SameRead-bind none none f g h next = tt
  SameRead-bind (some m) (some m') f g h next = next m m' h
  SameRead-bind none (some m') f g h next = absurd h
  SameRead-bind (some m) none f g h next = absurd h

module _ {F : Type 0} (to_float : Line → Option F) where
  add_value-congr :
      (k : ℤ) (v : Option F) (m m' : Values F)
      → SameEntries m m'
      → SameRead (add_value k v m) (add_value k v m')
  add_value-congr k none m m' h = tt
  add_value-congr k (some v) m m' h = put-congr k v m m' h

  add_record-congr :
      (x : Option (ℤ × Line)) (m m' : Values F)
      → SameEntries m m'
      → SameRead (add_record to_float x m) (add_record to_float x m')
  add_record-congr none m m' h = h
  add_record-congr (some (k, text)) m m' h = add_value-congr k (to_float text) m m' h

  add_value_comm :
      (j k : ℤ) (u v : Option F) (m m' : Values F)
      → eqb_ℤ j k ≡ false
      → SameEntries m m'
      → SameRead (add_value j u m >>= add_value k v) (add_value k v m' >>= add_value j u)
  add_value_comm j k none none m m' e h = tt
  add_value_comm j k none (some v) m m' e h = tt
  add_value_comm j k (some u) none m m' e h = tt
  add_value_comm j k (some u) (some v) m m' e h = put_comm j k u v m m' e h

  add_record_comm :
      (x y : Option (ℤ × Line)) (m m' : Values F)
      → OtherCounters x y
      → SameEntries m m'
      → SameRead
          (add_record to_float x m >>= add_record to_float y)
          (add_record to_float y m' >>= add_record to_float x)
  add_record_comm none none m m' e h = h
  add_record_comm none (some r) m m' e h =
      let same = add_record-congr (some r) m m' h in
      subst (SameRead (add_record to_float (some r) m))
        (sym (bind_some (add_record to_float (some r) m'))) same
  add_record_comm (some r) none m m' e h =
      let same = add_record-congr (some r) m m' h in
      subst (λ o. SameRead o (add_record to_float (some r) m'))
        (sym (bind_some (add_record to_float (some r) m))) same
  add_record_comm (some (j, t)) (some (k, text)) m m' e h =
      add_value_comm j k (to_float t) (to_float text) m m' e h

  module _ (pattern : Line → Option (ℤ × Line)) where
    abbrev reads : List Line → Values F → Option (Values F)
    reads = read_from pattern to_float

    abbrev adds : Line → Values F → Option (Values F)
    adds line = add_record to_float (pattern line)

    reads-congr :
        (l : List Line) (m m' : Values F) → SameEntries m m' → SameRead (reads l m) (reads l m')
    reads-congr [] m m' h = h
    reads-congr (a ∷ l) m m' h =
        SameRead-bind _ _ _ _ (add_record-congr (pattern a) m m' h) (reads-congr l)

    reads-swap :
        (a b : Line) (l : List Line) (m m' : Values F)
        → HaveOtherCounters pattern a b
        → SameEntries m m'
        → SameRead (reads (a ∷ b ∷ l) m) (reads (b ∷ a ∷ l) m')
    reads-swap a b l m m' e h =
        subst (λ x. SameRead x (reads (b ∷ a ∷ l) m')) (bind_assoc (adds a m) (adds b) (reads l))
          (subst (SameRead (adds a m >>= adds b >>= reads l))
            (bind_assoc (adds b m') (adds a) (reads l))
            (SameRead-bind _ _ _ _ (add_record_comm (pattern a) (pattern b) m m' e h)
              (reads-congr l)))

    reads-Permᴰ :
        {l l' : List Line} (m m' : Values F)
        → Permᴰ l l'
        → Pairwise (HaveOtherCounters pattern) l
        → SameEntries m m'
        → SameRead (reads l m) (reads l' m')
    reads-Permᴰ m m' Permᴰ.nil pw h = h
    reads-Permᴰ {l} m m' (Permᴰ.cons {l₁ = l₁} {l₂ = l₂} e p) (Pairwise.cons _ pw) h =
        subst (λ b. SameRead (reads l m) (reads (b ∷ l₂) m')) e
          (SameRead-bind _ _ _ _ (add_record-congr (pattern _) m m' h)
            (λ n n'. reads-Permᴰ n n' p pw))
    reads-Permᴰ m m' (Permᴰ.swap {a = a} {b = b} {b' = b'} {l = l} e f) (Pairwise.cons others _) h =
        subst (λ z. SameRead (reads (a ∷ b ∷ l) m) (reads (z ∷ b' ∷ l) m')) f
          (subst (λ z. SameRead (reads (a ∷ b ∷ l) m) (reads (b ∷ z ∷ l) m')) e
            (reads-swap a b l m m' (others b mem-cons_self) h))
    reads-Permᴰ m m' (Permᴰ.trans p q) pw h = SameRead-trans _ _ _ (reads-Permᴰ m m' p pw h) (
        reads-Permᴰ m' m' q
          (Permᴰ.pairwise (HaveOtherCounters-prop pattern)
            (λ a b. OtherCounters-symm (pattern a) (pattern b)) p pw)
          (λ k. refl))

    -- A log is read as the same dictionary in any order.
    read_dictionary-Permᴰ :
        {l l' : List Line}
        → Permᴰ l l'
        → Pairwise (HaveOtherCounters pattern) l
        → read_dictionary pattern to_float l ≡ read_dictionary pattern to_float l'
    unfolding read_dictionary read_values
    read_dictionary-Permᴰ {l} {l'} p pw =
        SameRead-sound (reads l []) (reads l' []) (reads-Permᴰ [] [] p pw (λ k. refl))

    read_dictionary-perm :
        {l l' : List Line}
        → Perm l l'
        → Pairwise (HaveOtherCounters pattern) l
        → read_dictionary pattern to_float l ≡ read_dictionary pattern to_float l'
    read_dictionary-perm p pw = ∥∥₁_elim p (Dictionary?-set _ _) (λ q. read_dictionary-Permᴰ q pw)

module _ {F : Type 0} ⦃d : Double F⦄ (to_float : Line → Option F) (tolerance : F) where
  -- If no two lines of a log have records for the same counter, the order of its lines does not
  -- matter to how the script ends: whether it finds no records, a record that `float` refuses,
  -- mismatches, missing counters or none of these.
  pub compare_fbw-perm :
      (c_log c_log' lf_log lf_log' : List Line)
      → Perm c_log c_log'
      → Perm lf_log lf_log'
      → Pairwise (HaveOtherCounters c_record) c_log
      → Pairwise (HaveOtherCounters lf_record) lf_log
      → compare_fbw to_float tolerance c_log lf_log ≡ compare_fbw to_float tolerance c_log' lf_log'
  compare_fbw-perm c_log c_log' lf_log lf_log' p q h g =
      compare_fbw-dictionaries to_float tolerance c_log lf_log
      ∙ (ap (λ c. ending_of tolerance c (read_dictionary lf_record to_float lf_log))
            (read_dictionary-perm to_float c_record p h)
          ∙ (ap (ending_of tolerance (read_dictionary c_record to_float c_log'))
                (read_dictionary-perm to_float lf_record q g)
              ∙ sym (compare_fbw-dictionaries to_float tolerance c_log' lf_log')))
