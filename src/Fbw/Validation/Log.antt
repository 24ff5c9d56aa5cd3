-- ===== src/Fbw/Validation/Log.antt =====
-- What the reactors of fbw-lf/src/fbw_c_equiv_validation.lf print: the records of the first computer,
-- and the log with the lines of WES and the disconnect switch. How `%.9f` and `%.4f` print a number
-- are parameters.
use lf_benchmarks.Common.{if◌then◌else◌, ℕ, zero, suc, Option, none, some, List, [], ◌∷◌, ◌++◌}
use lf_benchmarks.Text.{codes, decimal_int}
use lf_benchmarks.Double.{Double}
use lf_benchmarks.Fbw.Nav.{Line, SpeedMsg}
use lf_benchmarks.Fbw.Controlled.Log.{wes_lines, status_lines}
use lf_benchmarks.Fbw.System.{hear1, hear2, hear3}
use lf_benchmarks.Fbw.Vote.{Wes}
use lf_benchmarks.Fbw.Validation.{
  Libc, ValidationPfc, ValidationSystem, validation_tick, validation_second,
}

module _ {F : Type 0} (fixed9 : F → List ℕ) where
  -- It prints what it sends.
  abbrev pub data_lines : Option (SpeedMsg F) → List Line
  data_lines none = []
  data_lines (some m) =
      (codes "LF_DATA " ++ (decimal_int m.counter ++ (codes " " ++ fixed9 m.speed))) ∷ []

module _ {F : Type 0} ⦃d : Double F⦄ (libc : Libc F) (fixed9 : F → List ℕ) where
  -- The records of so many ticks.
  unfoldable pub data_log : ℕ → ValidationPfc F → List Line
  data_log zero p = []
  data_log (suc n) p =
      let (message, p') = validation_tick libc p in data_lines fixed9 message ++ data_log n p'

module _ {F : Type 0} ⦃d : Double F⦄ (libc : Libc F) where
  -- What WES holds as it votes.
  abbrev pub validation_wes : ValidationSystem F → Wes F
  validation_wes s =
      hear3 (validation_tick libc s.pfc3).0
        (hear2 (validation_tick libc s.pfc2).0 (hear1 (validation_tick libc s.pfc1).0 s.wes))

  module _ (fixed9 fixed4 : F → List ℕ) where
    -- The lines of a second.
    abbrev pub validation_second_lines : ℕ → ValidationSystem F → List Line
    validation_second_lines t s =
        let status = (validation_second libc s).0 in
        data_lines fixed9 (validation_tick libc s.pfc1).0
        ++ (wes_lines fixed4 t status (validation_wes s) ++ status_lines t status)

    -- The log of `n` seconds from `t` on, until someone has asked for a stop.
    unfoldable pub validation_log : (t n : ℕ) → ValidationSystem F → List Line
    validation_log t zero s = []
    validation_log t (suc n) s =
        let rest = validation_log (suc t) n (validation_second libc s).1 in
        if s.stop_requested then [] else validation_second_lines t s ++ rest
