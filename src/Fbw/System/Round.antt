-- ===== src/Fbw/System/Round.antt =====
-- The vote that ends a second in which two flight computers have no fault.
use lf_benchmarks.Common.{◌≡◌, refl, ◌⊎◌, inl, inr, true, false, Option, none, some, arith}
use lf_benchmarks.Int.{eqb_refl}
use lf_benchmarks.Double.{Double}
use lf_benchmarks.Fbw.Nav.{SpeedMsg, Status, ok}
use lf_benchmarks.Fbw.Pfc.Course.{Sends}
use lf_benchmarks.Fbw.Vote.{Wes, decide, verdict, vote, requests_stop}
use lf_benchmarks.Fbw.System.{Second, hear_status}
use lf_benchmarks.Fbw.System.Computers.{Computer, error_of, place, fault_of, Ticked, IsFresh, heard}

-- Nothing, agreement of all, or the computer named.
abbrev pub Blames : Computer → Option Status → Type 0
Blames k none = Unit
Blames k (some s) = (s ≡ ok) ⊎ (s ≡ error_of k)

pub hear_status-going :
    (k : Computer) (o : Option Status) → Blames k o → hear_status o false ≡ false
unfolding requests_stop
hear_status-going k none b = refl
hear_status-going k (some s) b = ground arith

module _ {F : Type 0} where
  -- Only the computer named gets messages of the failure generator.
  abbrev pub OnlyFaults : Computer → Second F → Type 0
  OnlyFaults k i = (c : Computer) → fault_of c i ≡ place k (fault_of k i) none c

module _ {F : Type 0} ⦃d : Double F⦄ where
  vote_silent : (w : Wes F) → IsFresh w → vote w ≡ (none, w)
  unfolding vote
  vote_silent w f = ground arith

  -- Two equal messages with a speed that is a number.
  vote_pair :
      (k : Computer) (m : SpeedMsg F) (rk r : Ticked F) (w : Wes F)
      → IsFresh w
      → r.0 ≡ some m
      → m.valid ≡ true
      → d.eq m.speed m.speed ≡ true
      → let v = heard (place k rk r) w in Blames k v.0 × IsFresh v.1
  unfolding vote decide verdict
  vote_pair Computer.first m rk r w f e v n = ground (arith, eqb_refl m.counter)
  vote_pair Computer.second m rk r w f e v n = ground (arith, eqb_refl m.counter)
  vote_pair Computer.third m rk r w f e v n = ground (arith, eqb_refl m.counter)

  -- The vote at the end of a second.
  pub round :
      (k : Computer) (rk r : Ticked F) (w : Wes F)
      → Sends r.0 r.1
      → (r.0 ≡ none → rk.0 ≡ none)
      → IsFresh w
      → d.eq (r.1).accumulated_speed (r.1).accumulated_speed ≡ true
      → let v = heard (place k rk r) w in Blames k v.0 × IsFresh v.1
  round k rk r w (inl quiet) silent fresh number =
      let unheard : heard (place k rk r) w ≡ (none, w) =
        ground (arith, vote_silent w fresh, silent quiet) in
      rw unheard (tt, fresh)
  round k rk r w (inr sent) silent fresh number = vote_pair k _ rk r w fresh sent refl number
