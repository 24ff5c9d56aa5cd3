-- ===== src/Fbw/Validation/Compared.antt =====
-- When fbw-lf/scripts/compare_fbw.py says PASS on the log of the validation build.
use lf_benchmarks.Common.{
  ℕ, zero, suc, ◌^◌, ◌≤◌, ◌≡◌, ◌↔◌, refl, sym, ap, ◌∙◌, true, false, Option, none, some, List, [],
  ◌∷◌, ◌++◌, if◌then◌else◌, arith,
}
use std.Path.{subst}
use lf_benchmarks.Int.{ℤ, eqb_refl}
use lf_benchmarks.Double.{Double}
use lf_benchmarks.Fbw.Nav.{
  Line, SpeedMsg, Status, ok, error_pfc1, error_pfc2, error_pfc3, emergency, exit,
}
use lf_benchmarks.Fbw.Vote.{Wes, requests_stop}
use lf_benchmarks.Fbw.System.{hear_status}
use lf_benchmarks.Fbw.System.Computers.{IsFresh}
use lf_benchmarks.Fbw.Controlled.Log.{wes_lines, status_lines}
use lf_benchmarks.Fbw.Validation.{Libc, validation_tick, validation_second, validation_initial}
use lf_benchmarks.Fbw.Validation.Lag.{readings, lagged, validation_state, validation_tick-lagged}
use lf_benchmarks.Fbw.Validation.Log.{
  data_lines, validation_wes, validation_second_lines, validation_log,
}
use lf_benchmarks.Fbw.Validation.Noted.{all_noted, sent_by, find-all_noted}
use lf_benchmarks.Fbw.Validation.ReadBack.{ReadsBack, AreFinite, lagged_lines, read_from-lagged}
use lf_benchmarks.Fbw.Validation.Reports.{
  report_of, heard_thrice, all_at, state_at, second_at, vote_lagged,
}
use lf_benchmarks.Scripts.Records.{◌>>=◌, bind_some, bind_ext, bind_assoc, c_record, lf_record}
use lf_benchmarks.Scripts.Comparison.{
  Values, find, add_record, read_from, read_values, Ending, is_nil, compare_fbw,
}
use lf_benchmarks.Scripts.Comparison.Passes.{Agrees, AllAgree, compare_fbw_iff}

module _ {F : Type 0} (pattern : Line → Option (ℤ × Line)) (to_float : Line → Option F) where
  read_from-append :
      (l r : List Line) (m : Values F)
      → read_from pattern to_float (l ++ r) m
        ≡ (read_from pattern to_float l m >>= read_from pattern to_float r)
  read_from-append [] r m = refl
  read_from-append (line ∷ l) r m =
      bind_ext (add_record to_float (pattern line) m) _ _ (read_from-append l r)
      ∙ sym (bind_assoc (add_record to_float (pattern line) m) (read_from pattern to_float l) _)

module _ {F : Type 0} (fixed4 : F → List ℕ) (to_float : Line → Option F) where
  -- The script skips what WES and the disconnect switch print.
  others_skipped :
      (t : ℕ) (status : Option Status) (w : Wes F) (m : Values F)
      → read_from lf_record to_float (wes_lines fixed4 t status w ++ status_lines t status) m
        ≡ some m
  unfolding wes_lines status_lines lf_record
  others_skipped t none w m = refl
  others_skipped t (some ok) w m = refl
  others_skipped t (some error_pfc1) w m = refl
  others_skipped t (some error_pfc2) w m = refl
  others_skipped t (some error_pfc3) w m = refl
  others_skipped t (some emergency) w m = refl
  others_skipped t (some exit) w m = refl

module _ {F : Type 0} ⦃d : Double F⦄ where
  -- Reports on numbers do not stop the program.
  report-going :
      (o : Option (SpeedMsg F))
      → ((m : SpeedMsg F) → o ≡ some m → d.eq m.speed m.speed ≡ true)
      → hear_status (report_of o) false ≡ false
  unfolding requests_stop
  report-going none h = refl
  report-going (some m) h = simp (h m refl) refl

  -- If a log agrees with one that has records, it has records.
  agreed-nonempty :
      (tolerance : F) (c lf : Values F)
      → is_nil c ≡ false
      → AllAgree tolerance c lf
      → is_nil lf ≡ false
  agreed-nonempty tolerance [] lf h agree = absurd cc
  agreed-nonempty tolerance ((k, v) ∷ c) [] h agree =
      absurd
        (subst (λ b. Agrees tolerance (if b then some v else find c k) none) (eqb_refl k) (agree k))
  agreed-nonempty tolerance c (_ ∷ lf) h agree = refl

module _ {F : Type 0} ⦃d : Double F⦄ (libc : Libc F) (fixed9 fixed4 : F → List ℕ)
    (to_float : Line → Option F) (rounded : F → F) (back : ReadsBack fixed9 to_float rounded)
    (lines : List Line) (numbers : AreFinite libc (readings libc lines)) where
  -- What the script reads from a log.
  abbrev reads : List Line → Values F → Option (Values F)
  reads = read_from lf_record to_float

  read_second :
      (t : ℕ) (w : Wes F) (m : Values F)
      → reads
          (validation_second_lines libc fixed9 fixed4 t (all_at (state_at libc lines t) w false))
          m
        ≡ reads (data_lines fixed9 (lagged libc (readings libc lines) t)) m
  unfolding state_at
  read_second t w m =
      let s = all_at (state_at libc lines t) w false in
      let o = (validation_tick libc s.pfc1).0 in
      read_from-append lf_record to_float (data_lines fixed9 o) _ m
      ∙ (bind_ext (reads (data_lines fixed9 o) m) _ some
            (others_skipped fixed4 to_float t (validation_second libc s).0 (validation_wes libc s))
          ∙ (bind_some (reads (data_lines fixed9 o) m)
              ∙ ap (λ x. reads (data_lines fixed9 x) m) (validation_tick-lagged libc lines t)))

  read_log :
      (t n : ℕ) (w : Wes F) (m : Values F)
      → IsFresh w
      → reads (validation_log libc fixed9 fixed4 t n (all_at (state_at libc lines t) w false)) m
        ≡ reads (lagged_lines libc fixed9 to_float rounded back lines numbers t n) m
  unfolding validation_log lagged_lines
  read_log t zero w m h = refl
  read_log t (suc n) w m h =
      let s = all_at (state_at libc lines t) w false in
      let o = lagged libc (readings libc lines) t in
      let (report, fresh) = vote_lagged libc (readings libc lines) t w h in
      let w' = (heard_thrice o w).1 in
      let after : (validation_second libc s).1 ≡ all_at (state_at libc lines (suc t)) w' false =
        ap (λ x. x.1) (second_at libc lines t w false)
        ∙ ap (all_at (state_at libc lines (suc t)) w')
            (ap (λ r. hear_status r false) report ∙ report-going o (λ m e. (numbers t m e).0)) in
      read_from-append lf_record to_float (validation_second_lines libc fixed9 fixed4 t s) _ m
      ∙ (ap
            (λ x.
              x
              >>= reads (validation_log libc fixed9 fixed4 (suc t) n (validation_second libc s).1))
            (read_second t w m)
          ∙ (bind_ext (reads (data_lines fixed9 o) m) _ _ (λ m'.
                ap (λ z. reads (validation_log libc fixed9 fixed4 (suc t) n z) m') after
                ∙ read_log (suc t) n w' m' fresh)
              ∙ sym (read_from-append lf_record to_float (data_lines fixed9 o) _ m)))

  read_values-validation_log :
      (n : ℕ)
      → n ≤ 2 ^ 31
      → read_values lf_record to_float
          (validation_log libc fixed9 fixed4 0 n (validation_initial libc (some lines)))
        ≡ some (all_noted libc rounded (readings libc lines) 0 n [])
  unfolding read_values validation_state state_at
  read_values-validation_log n h =
      read_log 0 n _ [] (refl, refl, refl)
      ∙ read_from-lagged libc fixed9 to_float rounded back lines numbers 0 n [] (omega (arith, h))

  -- If the lagged speeds are finite, and `%.9f` prints finite numbers so that `float` accepts them, then
  -- the script
  -- says PASS on a log of the C program and the log of the first `n` seconds of the validation
  -- build exactly if the C log has records, `float` accepts them, and at every counter it has a
  -- record with a speed within the tolerance of the one that the build sends with that counter in
  -- those seconds, as printed, or neither has one.
  pub compare_fbw-validation_log :
      (tolerance : F) (c_log : List Line) (n : ℕ)
      → n ≤ 2 ^ 31
      → (compare_fbw to_float tolerance c_log
            (validation_log libc fixed9 fixed4 0 n (validation_initial libc (some lines)))
          ≡ Ending.pass)
        ↔ ((c : Values F) × (read_values c_record to_float c_log ≡ some c)
            × (is_nil c ≡ false)
            × ((k : ℤ)
                → Agrees tolerance (find c k) (sent_by libc rounded (readings libc lines) n k)))
  compare_fbw-validation_log tolerance c_log n h =
      let rs = readings libc lines in
      let sent = all_noted libc rounded rs 0 n [] in
      let read = read_values-validation_log n h in
      let (to, from) =
        compare_fbw_iff tolerance to_float c_log
          (validation_log libc fixed9 fixed4 0 n (validation_initial libc (some lines))) in
      (
        λ e.
            let (c, lf, ec, elf, nc, _, agree) = to e in
            let same : lf ≡ sent = cc (elf, read) in
            (
              c,
              ec,
              nc,
              λ k.
                  subst (Agrees tolerance (find c k))
                    (ap (λ z. find z k) same ∙ find-all_noted libc rounded rs n k) (agree k),
            ),
        λ (c, ec, nc, agree).
            let all : AllAgree tolerance c sent = λ k.
              subst (Agrees tolerance (find c k)) (sym (find-all_noted libc rounded rs n k))
                (agree k) in
            from (c, sent, ec, read, nc, agreed-nonempty tolerance c sent nc all, all),
      )
