-- ===== src/Fbw/Controlled/Calm.antt =====
-- No line of the scripted run has a 'Y', as those of an emergency would.
use lf_benchmarks.Common.{
  ◌≡◌, ℕ, refl, inl, inr, ◌⊎◌, Bool, true, false, some, List, [], ◌∷◌, ◌++◌, All, All-append, leb,
  ◌==◌, if◌then◌else◌, arith,
}
use lf_benchmarks.Text.{
  codes, decimal, decimal_int, lacks, lacks-append, lacks-decimal, lacks-decimal_int,
}
use lf_benchmarks.Double.{Double}
use lf_benchmarks.Fbw.Nav.{
  Line, SpeedMsg, Scanned, Status, ok, error_pfc1, error_pfc2, error_pfc3, emergency, exit,
  apply_bias,
}
use lf_benchmarks.Fbw.Vote.{Wes, requests_stop}
use lf_benchmarks.Fbw.System.Computers.{Computer}
use lf_benchmarks.Fbw.Controlled.Log.{
  print, name_of, when, fman_lines, sent_lines, status_lines, wes_lines, sample_text, samples_text,
  bias_line,
}
use lf_benchmarks.Fbw.Controlled.Lines.{halted_lines, scheduled_lines, flown_lines, expected_lines}

-- What `%.4f` prints: digits, signs, points, and the small letters of "inf" and "nan".
abbrev pub PrintsNumbers {ℓ} : {F : Type ℓ} → (F → List ℕ) → Type ℓ
PrintsNumbers {F = F} fixed4 =
    (v : F) → All (λ c. (leb c b'9' ≡ true) ⊎ (leb b'a' c ≡ true)) (fixed4 v)

-- A text or a log without a 'Y'.
unfoldable pub IsCalm : List ℕ → Type 0
IsCalm s = lacks b'Y' s ≡ true

abbrev pub AllCalm : List Line → Type 0
AllCalm = All IsCalm

known : (s : List ℕ) → lacks b'Y' s ≡ true → IsCalm s
unfolding IsCalm
known s h = h

calm_number : (s : List ℕ) → All (λ c. (leb c b'9' ≡ true) ⊎ (leb b'a' c ≡ true)) s → IsCalm s
unfolding IsCalm
calm_number [] h = refl
calm_number (c ∷ s) (inl h, hs) = ground (arith, h, calm_number s hs)
calm_number (c ∷ s) (inr h, hs) = ground (arith, h, calm_number s hs)

calm_join : (s t : List ℕ) → IsCalm s → IsCalm t → IsCalm (s ++ t)
unfolding IsCalm
calm_join s t = lacks-append b'Y' s t

print-IsCalm :
    (who : List ℕ) (t : ℕ) (message : List ℕ)
    → IsCalm who
    → IsCalm message
    → IsCalm (print who t message)
print-IsCalm who t message h k = calm_join who _ h (
    calm_join (codes " T=") _ (known _ refl) (
      calm_join (decimal t) _ (known _ (lacks-decimal b'Y' t refl))
        (calm_join (codes " s | ") _ (known _ refl) k)))

name_of-IsCalm : (c : Computer) → IsCalm (name_of c)
name_of-IsCalm Computer.first = (known _ refl)
name_of-IsCalm Computer.second = (known _ refl)
name_of-IsCalm Computer.third = (known _ refl)

when-AllCalm : (b : Bool) (line : Line) → IsCalm line → AllCalm (when b line)
when-AllCalm true line h = (h, tt)
when-AllCalm false line h = tt

if-AllCalm :
    (b : Bool) (xs ys : List Line) → AllCalm xs → AllCalm ys → AllCalm (if b then xs else ys)
if-AllCalm true xs ys h k = h
if-AllCalm false xs ys h k = k

fman_lines-AllCalm : (t : ℕ) → AllCalm (fman_lines t)
unfolding fman_lines
fman_lines-AllCalm t =
    let line = λ (message : List ℕ) (h : IsCalm message).
      print-IsCalm (codes "[FMAN  ]") t message (known _ refl) h in
    if-AllCalm (leb 2 t) (sent_lines t) []
      (if-AllCalm (t == 5) _ _ (line _ (known _ refl), tt)
        (if-AllCalm (t == 8) _ _ (line _ (known _ refl), tt)
          (if-AllCalm (t == 640) _ _ (line _ (known _ refl), tt) tt)))
      tt

status_lines-AllCalm :
    (t : ℕ) (s : Status) → requests_stop s ≡ false → AllCalm (status_lines t (some s))
unfolding status_lines requests_stop
status_lines-AllCalm t ok h = tt
status_lines-AllCalm t error_pfc1 h =
    (print-IsCalm (codes "[PFCDS ]") t _ (known _ refl) (known _ refl), tt)
status_lines-AllCalm t error_pfc2 h =
    (print-IsCalm (codes "[PFCDS ]") t _ (known _ refl) (known _ refl), tt)
status_lines-AllCalm t error_pfc3 h =
    (print-IsCalm (codes "[PFCDS ]") t _ (known _ refl) (known _ refl), tt)
status_lines-AllCalm t emergency h = absurd cc
status_lines-AllCalm t exit h = absurd cc

module _ {F : Type 0} (fixed4 : F → List ℕ) (prints : PrintsNumbers fixed4) where
  number-IsCalm : (v : F) → IsCalm (fixed4 v)
  number-IsCalm v = calm_number (fixed4 v) (prints v)

  sample_text-IsCalm :
      (name : List ℕ) (m : SpeedMsg F) → IsCalm name → IsCalm (sample_text fixed4 name m)
  sample_text-IsCalm name m h = calm_join name _ h (
      calm_join (codes "={c=") _ (known _ refl) (
        calm_join (decimal_int m.counter) _ (known _ (lacks-decimal_int b'Y' m.counter refl)) (
          calm_join (codes ",s=") _ (known _ refl)
            (calm_join (fixed4 m.speed) (codes "}") (number-IsCalm m.speed) (known _ refl)))))

  samples_text-IsCalm : (w : Wes F) → IsCalm (samples_text fixed4 w)
  samples_text-IsCalm w = calm_join (codes " | ") _ (known _ refl) (
      calm_join (sample_text fixed4 (codes "PFC1") w.last_s1) _
        (sample_text-IsCalm (codes "PFC1") w.last_s1 (known _ refl))
        (calm_join (codes " ") _ (known _ refl) (
          calm_join (sample_text fixed4 (codes "PFC2") w.last_s2) _
            (sample_text-IsCalm (codes "PFC2") w.last_s2 (known _ refl))
            (calm_join (codes " ") _ (known _ refl)
              (sample_text-IsCalm (codes "PFC3") w.last_s3 (known _ refl))))))

  wes_lines-AllCalm :
      (t : ℕ) (s : Status) (w : Wes F)
      → requests_stop s ≡ false
      → AllCalm (wes_lines fixed4 t (some s) w)
  unfolding wes_lines requests_stop
  wes_lines-AllCalm t ok w h = (
    print-IsCalm (codes "[WES   ]") t _ (known _ refl) (
        calm_join (codes "OK: all speeds agree: ") _ (known _ refl)
          (number-IsCalm w.last_s1.speed)),
    tt,
  )
  wes_lines-AllCalm t error_pfc1 w h = (
    print-IsCalm (codes "[WES   ]") t _ (known _ refl)
        (calm_join (codes "ERROR: PFC1 discordant") _ (known _ refl) (samples_text-IsCalm w)),
    tt,
  )
  wes_lines-AllCalm t error_pfc2 w h = (
    print-IsCalm (codes "[WES   ]") t _ (known _ refl)
        (calm_join (codes "ERROR: PFC2 discordant") _ (known _ refl) (samples_text-IsCalm w)),
    tt,
  )
  wes_lines-AllCalm t error_pfc3 w h = (
    print-IsCalm (codes "[WES   ]") t _ (known _ refl)
        (calm_join (codes "ERROR: PFC3 discordant") _ (known _ refl) (samples_text-IsCalm w)),
    tt,
  )
  wes_lines-AllCalm t emergency w h = absurd cc
  wes_lines-AllCalm t exit w h = absurd cc

module _ {F : Type 0} ⦃d : Double F⦄ (fixed4 : F → List ℕ) (prints : PrintsNumbers fixed4)
    (sscanf : Line → Scanned F) where
  bias_line-IsCalm : (c : Computer) (t : ℕ) (v : F) → IsCalm (bias_line fixed4 c t v)
  bias_line-IsCalm c t v = print-IsCalm (name_of c) t _ (name_of-IsCalm c) (
      calm_join (codes "BIAS applied: ") _ (known _ refl) (
        calm_join (fixed4 v) _ (number-IsCalm fixed4 prints v)
          (calm_join (codes " -> ") _ (known _ refl) (number-IsCalm fixed4 prints (apply_bias v)))))

  flown_lines-AllCalm : (t : ℕ) (v : F) (c : Computer) → AllCalm (flown_lines fixed4 sscanf t v c)
  flown_lines-AllCalm t v Computer.first = tt
  flown_lines-AllCalm t v Computer.second =
      let line = λ (message : List ℕ) (h : IsCalm message).
        print-IsCalm (name_of Computer.second) t message (known _ refl) h in
      All-append IsCalm (halted_lines t) _
        (if-AllCalm (t == 5) _ _ (line _ (known _ refl), tt)
          (if-AllCalm (t == 8) _ _ (line _ (known _ refl), tt) tt))
        (when-AllCalm _ _ (bias_line-IsCalm Computer.second t v))
  flown_lines-AllCalm t v Computer.third =
      All-append IsCalm (scheduled_lines t) _
        (when-AllCalm (t == 640) _
          (print-IsCalm (name_of Computer.third) t _ (known _ refl) (known _ refl)))
        (when-AllCalm (t == 640) _ (bias_line-IsCalm Computer.third t v))

  pub expected_lines-AllCalm :
      (t : ℕ) (v : F) (s : Status) (w : Wes F)
      → requests_stop s ≡ false
      → AllCalm (expected_lines fixed4 sscanf t v (some s) w)
  expected_lines-AllCalm t v s w h = All-append IsCalm (fman_lines t) _ (fman_lines-AllCalm t) (
      All-append IsCalm (flown_lines fixed4 sscanf t v Computer.second) _
        (flown_lines-AllCalm t v Computer.second)
        (All-append IsCalm (flown_lines fixed4 sscanf t v Computer.third) _
          (flown_lines-AllCalm t v Computer.third)
          (All-append IsCalm (wes_lines fixed4 t (some s) w) _
            (wes_lines-AllCalm fixed4 prints t s w h) (status_lines-AllCalm t s h))))
