-- ===== src/Fbw/System/Lockstep.antt =====
-- Stopped and biased flight computers stay on the same position sample as the others.
use lf_benchmarks.Common.{◌≡◌, refl, sym, ◌∙◌, true, false, Option, none, some, List, [], ◌∷◌, All}
use lf_benchmarks.Double.{Double}
use lf_benchmarks.Fbw.Nav.{Line, GllFix, Scanned}
use lf_benchmarks.Fbw.Pfc.{FaultMsg, Pfc, tick}
use lf_benchmarks.Fbw.Pfc.Course.{course, on_fault-course, tick-course}
use lf_benchmarks.Fbw.System.{Second, System, maybe_fault, second, initial}

-- No message, or one that does not kill.
abbrev pub Spares : Option FaultMsg → Type 0
Spares none = Unit
Spares (some f) = f.interrupt ≡ false

module _ {F : Type 0} where
  abbrev pub SparesAll : Second F → Type 0
  SparesAll i = Spares i.fault1 × Spares i.fault2 × Spares i.fault3

  -- All computers are alive, on one course.
  pub record IsAligned (s : System F) : Type 0 where
    pub course2 : course s.pfc2 ≡ course s.pfc1
    pub course3 : course s.pfc3 ≡ course s.pfc1
    pub alive1 : s.pfc1.alive ≡ true
    pub alive2 : s.pfc2.alive ≡ true
    pub alive3 : s.pfc3.alive ≡ true

  spared :
      (f : Option FaultMsg) (p : Pfc F)
      → Spares f
      → p.alive ≡ true
      → (course (maybe_fault f p) ≡ course p) × ((maybe_fault f p).alive ≡ true)
  spared none p h l = (refl, l)
  spared (some f) p h l = let (same, kept) = on_fault-course f p in (same, kept h l)

module _ {F : Type 0} ⦃d : Double F⦄ (sscanf : Line → Scanned F) where
  -- The system after some seconds.
  unfoldable pub after_seconds : List (Second F) → System F → System F
  after_seconds [] s = s
  after_seconds (i ∷ is) s = after_seconds is (second sscanf i s).1

  tick-aligned :
      (a b : GllFix F) (p q : Pfc F)
      → course p ≡ course q
      → p.alive ≡ true
      → q.alive ≡ true
      → (course (tick sscanf a p).1 ≡ course (tick sscanf b q).1)
        × ((tick sscanf a p).1.alive ≡ true)
  tick-aligned a b p q e l m =
      let (same, kept, _) = tick-course sscanf a b p q e (l ∙ sym m) in (same, kept ∙ l)

  second-IsAligned :
      (i : Second F) (s : System F) → SparesAll i → IsAligned s → IsAligned (second sscanf i s).1
  unfolding second
  second-IsAligned i s (h1, h2, h3) a =
      let (e1, l1) = spared i.fault1 s.pfc1 h1 a.alive1 in
      let (e2, l2) = spared i.fault2 s.pfc2 h2 a.alive2 in
      let (e3, l3) = spared i.fault3 s.pfc3 h3 a.alive3 in
      let p1 = maybe_fault i.fault1 s.pfc1 in
      let p2 = maybe_fault i.fault2 s.pfc2 in
      let p3 = maybe_fault i.fault3 s.pfc3 in
      let two = tick-aligned i.junk2 i.junk1 p2 p1 (e2 ∙ (a.course2 ∙ sym e1)) l2 l1 in
      let three = tick-aligned i.junk3 i.junk1 p3 p1 (e3 ∙ (a.course3 ∙ sym e1)) l3 l1 in
      record {
        course2 = two.0;
        course3 = three.0;
        alive1 = (tick-aligned i.junk1 i.junk1 p1 p1 refl l1 l1).1;
        alive2 = two.1;
        alive3 = three.1;
      }

  run-IsAligned :
      (is : List (Second F)) (s : System F)
      → All SparesAll is
      → IsAligned s
      → IsAligned (after_seconds is s)
  unfolding after_seconds
  run-IsAligned [] s h a = a
  run-IsAligned (i ∷ is) s (h, hs) a =
      run-IsAligned is (second sscanf i s).1 hs (second-IsAligned i s h a)

  -- From the start on one position file, whatever stop, continue and bias faults the computers get,
  -- as long as none is killed: all three have read the same lines, count the same samples and have
  -- the same fix and accumulated speed after any number of seconds.
  pub after_seconds-IsAligned :
      (file : Option (List Line)) (is : List (Second F))
      → All SparesAll is
      → IsAligned (after_seconds is (initial sscanf file))
  after_seconds-IsAligned file is h =
      run-IsAligned is (initial sscanf file) h
        (record { course2 = refl; course3 = refl; alive1 = refl; alive2 = refl; alive3 = refl })
