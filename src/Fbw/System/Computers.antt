-- ===== src/Fbw/System/Computers.antt =====
-- The three flight computers by name, and what the system holds of each.
use lf_benchmarks.Common.{◌≡◌, refl, ◌⊎◌, inl, inr, arith, Bool, false, Option}
use lf_benchmarks.Double.{Double}
use lf_benchmarks.Fbw.Nav.{
  Line, Scanned, GllFix, SpeedMsg, Status, error_pfc1, error_pfc2, error_pfc3,
}
use lf_benchmarks.Fbw.Pfc.{FaultMsg, Pfc, no_fix, tick}
use lf_benchmarks.Fbw.Vote.{Wes, vote}
use lf_benchmarks.Fbw.System.{Second, System, hear1, hear2, hear3, hear_status}

pub data Computer : Type 0 where
  first second third : Computer

abbrev pub error_of : Computer → Status
error_of Computer.first = error_pfc1
error_of Computer.second = error_pfc2
error_of Computer.third = error_pfc3

-- One thing for the named computer, another for the other two.
abbrev pub place {ℓ} : {A : Type ℓ} → Computer → A → A → Computer → A
place Computer.first a b Computer.first = a
place Computer.second a b Computer.second = a
place Computer.third a b Computer.third = a
place _ a b _ = b

pub place_self {ℓ} : {A : Type ℓ} (k : Computer) (a b : A) → place k a b k ≡ a
place_self k a b = ground arith

-- Another computer gets the second thing, whatever the things are.
pub place-cases : (k c : Computer) → (c ≡ k) ⊎ ((A : Type 0) (a b : A) → place k a b c ≡ b)
place-cases Computer.first Computer.first = inl refl
place-cases Computer.second Computer.second = inl refl
place-cases Computer.third Computer.third = inl refl
place-cases Computer.first Computer.second = inr (λ A a b. refl)
place-cases Computer.first Computer.third = inr (λ A a b. refl)
place-cases Computer.second Computer.first = inr (λ A a b. refl)
place-cases Computer.second Computer.third = inr (λ A a b. refl)
place-cases Computer.third Computer.first = inr (λ A a b. refl)
place-cases Computer.third Computer.second = inr (λ A a b. refl)

-- The result of a computer's tick: what it sends, and its state.
abbrev pub Ticked : Type 0 → Type 0
Ticked F = Option (SpeedMsg F) × Pfc F

module _ {F : Type 0} where
  abbrev pub pfc_of : Computer → System F → Pfc F
  pfc_of Computer.first s = s.pfc1
  pfc_of Computer.second s = s.pfc2
  pfc_of Computer.third s = s.pfc3

  abbrev pub fault_of : Computer → Second F → Option FaultMsg
  fault_of Computer.first i = i.fault1
  fault_of Computer.second i = i.fault2
  fault_of Computer.third i = i.fault3

  abbrev pub junk_of : Computer → Second F → GllFix F
  junk_of Computer.first i = i.junk1
  junk_of Computer.second i = i.junk2
  junk_of Computer.third i = i.junk3

  abbrev pub IsFresh : Wes F → Type 0
  IsFresh w = (w.has_s1 ≡ false) × (w.has_s2 ≡ false) × (w.has_s3 ≡ false)

module _ {F : Type 0} ⦃d : Double F⦄ where
  abbrev pub heard : (Computer → Ticked F) → Wes F → Option Status × Wes F
  heard r w =
      vote (hear3 (r Computer.third).0 (hear2 (r Computer.second).0 (hear1 (r Computer.first).0 w)))

  -- What a second makes of the three ticks.
  abbrev pub joined : (Computer → Ticked F) → Wes F → Bool → Option Status × System F
  joined r w stop =
      let v = heard r w in
      (
        v.0,
        record {
          pfc1 = (r Computer.first).1;
          pfc2 = (r Computer.second).1;
          pfc3 = (r Computer.third).1;
          wes = v.1;
          stop_requested = hear_status v.0 stop;
        },
      )

module _ {F : Type 0} ⦃d : Double F⦄ (sscanf : Line → Scanned F) where
  -- A computer's tick with nothing on its stack.
  abbrev pub clean_tick : Pfc F → Ticked F
  clean_tick p = tick sscanf (no_fix sscanf) p
