-- ===== src/Fbw/Validation/Files.antt =====
-- The file handle of a computer of the validation build.
use lf_benchmarks.Common.{
  ℕ, zero, suc, ◌≡◌, ◌≢◌, ◌↔◌, refl, sym, ◌∙◌, ap, Bool-cases, true, inl, inr, Option, none, some,
  List, if◌then◌else◌,
}
use std.Path.{subst}
use lf_benchmarks.Double.{Double}
use lf_benchmarks.Fbw.Nav.{Line}
use lf_benchmarks.Fbw.Validation.{
  Reading, ValidationPfc, Libc, find_reading, deliver, deliver_found, validation_open,
  validation_tick, validation_startup, validation_closes_file,
}
use lf_benchmarks.Fbw.Validation.Lag.{validation_state}

module _ {F : Type 0} ⦃d : Double F⦄ (libc : Libc F) where
  closes-open :
      (file : Option (List Line)) (p : ValidationPfc F)
      → p.fp ≡ file
      → validation_closes_file (validation_open libc file p).1 ≡ validation_closes_file p
  unfolding validation_closes_file deliver
  closes-open none p e = refl
  closes-open (some lines) p e = go (find_reading libc lines)
    where
      go :
          (found : Option (Reading F × List Line))
          → validation_closes_file (deliver_found libc found p).1 ≡ validation_closes_file p
      go none = rw e refl
      go (some (r, rest)) = rw e refl

  closes-tick :
      (p : ValidationPfc F)
      → validation_closes_file (validation_tick libc p).1 ≡ validation_closes_file p
  unfolding validation_tick
  closes-tick p = elim (Bool-cases p.eof_reached) [
    | inl e ↦
        ap (λ b. validation_closes_file (if b then (none, p) else validation_open libc p.fp p).1) e
    | inr e ↦
        ap (λ b. validation_closes_file (if b then (none, p) else validation_open libc p.fp p).1) e
        ∙ closes-open p.fp p refl
  ]

  closes-state :
      (n : ℕ) (p : ValidationPfc F)
      → validation_closes_file (validation_state libc n p) ≡ validation_closes_file p
  unfolding validation_state
  closes-state zero p = refl
  closes-state (suc n) p = closes-state n (validation_tick libc p).1 ∙ closes-tick p

  -- After any number of ticks it closes a file exactly if it has opened one.
  pub validation_closes_file-startup :
      (file : Option (List Line)) (n : ℕ)
      → (validation_closes_file (validation_state libc n (validation_startup libc file)) ≡ true)
        ↔ (file ≢ none)
  unfolding validation_closes_file
  validation_closes_file-startup file n =
      subst (λ b. (b ≡ true) ↔ (file ≢ none)) (sym (closes-state n (validation_startup libc file)))
        (opened file)
    where
      opened :
          (f : Option (List Line))
          → (validation_closes_file (validation_startup libc f) ≡ true) ↔ (f ≢ none)
      opened none = (λ e. absurd cc, λ n. absurd (n refl))
      opened (some lines) = (λ e. λ q. cc, λ n. refl)
