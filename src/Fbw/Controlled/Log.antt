-- ===== src/Fbw/Controlled/Log.antt =====
-- What the reactors of fbw-lf/src/fbw_controlled_test.lf print, second after second. How `%.4f` prints
-- a number is a parameter.
use lf_benchmarks.Common.{
  ℕ, suc, Bool, true, false, not, ◌&&◌, ◌||◌, Option, none, some, List, [], ◌∷◌, ◌++◌, leb, ◌==◌,
  if◌then◌else◌,
}
use lf_benchmarks.Text.{codes, decimal, decimal_int}
use lf_benchmarks.Double.{Double}
use lf_benchmarks.Fbw.Nav.{
  Line, GllFix, SpeedMsg, Scanned, Status, ok, error_pfc1, error_pfc2, error_pfc3, emergency, exit,
  compute_speed, apply_bias,
}
use lf_benchmarks.Fbw.Pfc.{FaultMsg, Pfc, on_stop, on_interrupt, on_cont, find_fix}
use lf_benchmarks.Fbw.Vote.{Wes}
use lf_benchmarks.Fbw.System.{Second, System, maybe_fault, hear1, hear2, hear3, second}
use lf_benchmarks.Fbw.System.Computers.{Computer, pfc_of, fault_of, junk_of}
use lf_benchmarks.Fbw.System.Reporting.{sent}

-- "[… ] T=%lld s | …"
abbrev pub print : List ℕ → ℕ → List ℕ → Line
print who t message = who ++ (codes " T=" ++ (decimal t ++ (codes " s | " ++ message)))

abbrev pub name_of : Computer → List ℕ
name_of Computer.first = codes "[PFC1  ]"
name_of Computer.second = codes "[PFC2  ]"
name_of Computer.third = codes "[PFC3  ]"

abbrev pub when : Bool → Line → List Line
when true line = line ∷ []
when false line = []

-- What the failure generator prints at its timer, which fires from 2 s on.
abbrev pub sent_lines : ℕ → List Line
sent_lines t =
    if t == 5
    then print (codes "[FMAN  ]") t (codes "TEST: STOP sent to PFC2") ∷ []
    else if t == 8
    then print (codes "[FMAN  ]") t (codes "TEST: CONT sent to PFC2") ∷ []
    else if t == 640
    then print (codes "[FMAN  ]") t (codes "TEST: BIAS sent to PFC3") ∷ []
    else []

unfoldable pub fman_lines : ℕ → List Line
fman_lines t = if leb 2 t then sent_lines t else []

module _ {F : Type 0} where
  -- The reaction to `fault_in`, test by test.
  abbrev pub on_fault_lines : Computer → ℕ → FaultMsg → Pfc F → List Line
  on_fault_lines c t f p0 =
      let p1 = on_stop f p0 in
      let p2 = on_interrupt f p1 in
      let p3 = on_cont f p2 in
      when (f.stop && p0.alive && p0.active)
        (print (name_of c) t (codes "STOPPED by failure generator"))
      ++ (when (f.interrupt && p1.alive) (print (name_of c) t (codes "KILLED by failure generator"))
          ++ (when (f.cont && p2.alive && not p2.active)
                (print (name_of c) t (codes "RESUMED by failure generator"))
              ++ when (f.bias && p3.alive) (print (name_of c) t (codes "BIAS scheduled"))))

  unfoldable pub fault_lines : Computer → ℕ → Option FaultMsg → Pfc F → List Line
  fault_lines c t none p = []
  fault_lines c t (some f) p = on_fault_lines c t f p

-- The reaction of the disconnect switch.
abbrev pub pfcds : ℕ → List ℕ → List Line
pfcds t message = print (codes "[PFCDS ]") t message ∷ []

unfoldable pub status_lines : ℕ → Option Status → List Line
status_lines t none = []
status_lines t (some ok) = []
status_lines t (some error_pfc1) = pfcds t (codes "ERROR: PFC1 faulty. Logged.")
status_lines t (some error_pfc2) = pfcds t (codes "ERROR: PFC2 faulty. Logged.")
status_lines t (some error_pfc3) = pfcds t (codes "ERROR: PFC3 faulty. Logged.")
status_lines t (some emergency) =
    pfcds t (codes "EMERGENCY: all PFCs disagree! Terminating system.")
status_lines t (some exit) = pfcds t (codes "All PFCs finished. Shutting down.")

module _ {F : Type 0} (fixed4 : F → List ℕ) where
  -- "PFC1={c=%d,s=%.4f}"
  abbrev pub sample_text : List ℕ → SpeedMsg F → List ℕ
  sample_text name m =
      name
      ++ (codes "={c=" ++ (decimal_int m.counter ++ (codes ",s=" ++ (fixed4 m.speed ++ codes "}"))))

  abbrev pub samples_text : Wes F → List ℕ
  samples_text w =
      codes " | "
      ++ (sample_text (codes "PFC1") w.last_s1
          ++ (codes " "
              ++ (sample_text (codes "PFC2") w.last_s2
                  ++ (codes " " ++ sample_text (codes "PFC3") w.last_s3))))

  -- The reaction to `vote_tick`, which prints in the branch in which it chooses the status.
  unfoldable pub wes_lines : ℕ → Option Status → Wes F → List Line
  wes_lines t none w = []
  wes_lines t (some ok) w =
      print (codes "[WES   ]") t (codes "OK: all speeds agree: " ++ fixed4 w.last_s1.speed) ∷ []
  wes_lines t (some error_pfc3) w =
      print (codes "[WES   ]") t (codes "ERROR: PFC3 discordant" ++ samples_text w) ∷ []
  wes_lines t (some error_pfc2) w =
      print (codes "[WES   ]") t (codes "ERROR: PFC2 discordant" ++ samples_text w) ∷ []
  wes_lines t (some error_pfc1) w =
      print (codes "[WES   ]") t (codes "ERROR: PFC1 discordant" ++ samples_text w) ∷ []
  wes_lines t (some emergency) w =
      print (codes "[WES   ]") t (codes "EMERGENCY: no two PFCs agree" ++ samples_text w) ∷ []
  wes_lines t (some exit) w = []

module _ {F : Type 0} ⦃d : Double F⦄ (sscanf : Line → Scanned F) where
  -- What WES holds as it votes.
  abbrev pub wes_at : Second F → System F → Wes F
  wes_at i s =
      hear3 (sent sscanf Computer.third i s)
        (hear2 (sent sscanf Computer.second i s) (hear1 (sent sscanf Computer.first i s) s.wes))

module _ {F : Type 0} ⦃d : Double F⦄ (fixed4 : F → List ℕ) where
  open d use {lit}

  abbrev pub bias_line : Computer → ℕ → F → Line
  bias_line c t nominal =
      print (name_of c) t (
        codes "BIAS applied: " ++ (fixed4 nominal ++ (codes " -> " ++ fixed4 (apply_bias nominal))))

  -- The reaction to the timer `t`, behind its early returns.
  abbrev pub found_lines : Computer → ℕ → Option (GllFix F × List Line) → Pfc F → List Line
  found_lines c t none p =
      print (name_of c) t
        (codes "End of G18.txt reached (counter=" ++ (decimal_int p.counter ++ codes ")"))
      ∷ []
  found_lines c t (some (fix, rest)) p =
      let nominal =
        if p.has_prev then compute_speed p.accumulated_speed p.prev_fix fix else lit 0 0 in
      when (p.active && p.bias) (bias_line c t nominal)

module _ {F : Type 0} ⦃d : Double F⦄ (fixed4 : F → List ℕ) (sscanf : Line → Scanned F) where
  abbrev pub open_lines : Computer → ℕ → Option (List Line) → GllFix F → Pfc F → List Line
  open_lines c t none junk p = []
  open_lines c t (some lines) junk p = found_lines fixed4 c t (find_fix sscanf lines junk) p

  unfoldable pub tick_lines : Computer → ℕ → GllFix F → Pfc F → List Line
  tick_lines c t junk p = if not p.alive || p.eof_reached then [] else open_lines c t p.fp junk p

  -- The lines of a computer's two reactions.
  abbrev pub computer_lines : Computer → ℕ → Second F → System F → List Line
  computer_lines c t i s =
      let f = fault_of c i in
      let p = pfc_of c s in fault_lines c t f p ++ tick_lines c t (junk_of c i) (maybe_fault f p)

  -- The lines of a second.
  unfoldable pub second_lines : ℕ → Second F → System F → List Line
  second_lines t i s =
      let status = (second sscanf i s).0 in
      fman_lines t
      ++ (computer_lines Computer.first t i s
          ++ (computer_lines Computer.second t i s
              ++ (computer_lines Computer.third t i s
                  ++ (wes_lines fixed4 t status (wes_at sscanf i s) ++ status_lines t status))))

  -- The log of the seconds from `t` on, until someone has asked for a stop.
  unfoldable pub log : ℕ → List (Second F) → System F → List Line
  log t [] s = []
  log t (i ∷ is) s =
      let rest = log (suc t) is (second sscanf i s).1 in
      if s.stop_requested then [] else second_lines t i s ++ rest
