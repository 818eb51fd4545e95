-- ===== src/Ikconfig/Verify/Printed.antt =====
-- What `Verify` prints as failed, and in which order.
use ossein_kernel.Base.{
  Bool-cases, Bytes, List, Option, [], ap, append-nil, append_assoc, arith, false, inl, inr, length,
  map, none, refl, some, sym, true, ℕ, ◌++◌, ◌∙◌, ◌∷◌, ◌≡◌,
}
use ossein_kernel.Ikconfig.Config.{Config, state}
use ossein_kernel.Ikconfig.Verify.{
  Decision, Line, Report, Section, check_decision, check_decisions, check_policy, decision_fail,
  decision_ok, drifted, golden_part, lines_only_in, met, no_drift, no_golden, off, off_lines, on,
  on_lines, print, report_drift, review, section, verify, verifying,
}
use ossein_kernel.Ikconfig.Verify.Held.{Carries, met_iff}

-- The decisions on FAIL lines, in the order of the report.
unfoldable pub failures : List Line → List Decision
failures [] = []
failures (decision_fail d got ∷ lines) = d ∷ failures lines
failures (_ ∷ lines) = failures lines

-- The lines reported as drifted: turned on, and now off.
unfoldable pub additions : List Line → List Bytes
additions [] = []
additions (on line ∷ lines) = line ∷ additions lines
additions (_ ∷ lines) = additions lines

unfoldable pub removals : List Line → List Bytes
removals [] = []
removals (off line ∷ lines) = line ∷ removals lines
removals (_ ∷ lines) = removals lines

-- `failed` are the decisions that the configuration does not carry, in order.
pub data Violated (config : Config) : List Decision → List Decision → Type 0 where
  all_seen : Violated config [] []
  carried :
      {d : Decision} {ds failed : List Decision}
      → Carries config d
      → Violated config ds failed
      → Violated config (d ∷ ds) failed
  violated :
      {d : Decision} {ds failed : List Decision}
      → ¬ Carries config d
      → Violated config ds failed
      → Violated config (d ∷ ds) (d ∷ failed)

failures-append : (xs ys : List Line) → failures (xs ++ ys) ≡ failures xs ++ failures ys
unfolding failures
failures-append [] ys = refl
failures-append (decision_fail d got ∷ xs) ys = ap (◌∷◌ d) (failures-append xs ys)
failures-append (_ ∷ xs) ys = failures-append xs ys

failures-print :
    (r : Report) (lines : List Line)
    → failures lines ≡ []
    → failures (print lines r).out ≡ failures r.out
failures-print r lines e =
    failures-append r.out lines ∙ ap (λ z. failures r.out ++ z) e ∙ append-nil (failures r.out)

-- The failures on the way are those from before and those of the decisions just checked.
abbrev Fails : Config → List Decision → Report → Report → Type 0
Fails config ds r r' =
    (failed : List Decision) × Violated config ds failed
    × (failures r'.out ≡ failures r.out ++ failed)

failures_carried :
    (config : Config) (d : Decision) (r : Report)
    → met d.want (state config d.symbol) ≡ true
    → failures (check_decision config d r).out ≡ failures r.out
unfolding check_decision failures
failures_carried config d r y =
    ground (arith, failures-print r (decision_ok d (state config d.symbol) ∷ []) refl)

failures_violated :
    (config : Config) (d : Decision) (r : Report)
    → met d.want (state config d.symbol) ≡ false
    → failures (check_decision config d r).out ≡ failures r.out ++ (d ∷ [])
unfolding check_decision failures
failures_violated config d r n =
    ground (arith, failures-append r.out (decision_fail d (state config d.symbol) ∷ []))

Fails-check_decision :
    (config : Config) (d : Decision) (ds : List Decision) (r r' : Report)
    → Fails config ds (check_decision config d r) r'
    → Fails config (d ∷ ds) r r'
Fails-check_decision config d ds r r' (failed, v, e) =
    elim (Bool-cases (met d.want (state config d.symbol))) [
      | inl y ↦ (
        failed,
        carried ((met_iff d.want (state config d.symbol)).0 y) v,
        e ∙ ap (λ z. z ++ failed) (failures_carried config d r y),
      )
      | inr n ↦ (
        d ∷ failed,
        violated (λ c. ground (arith, met_iff d.want (state config d.symbol))) v,
        e
            ∙ ap (λ z. z ++ failed) (failures_violated config d r n)
            ∙ append_assoc (failures r.out) (d ∷ []) failed,
      )
    ]

Fails-nil :
    (config : Config) (r r' : Report) → failures r'.out ≡ failures r.out → Fails config [] r r'
Fails-nil config r r' e = ([], all_seen, e ∙ sym (append-nil (failures r.out)))

Fails-check_decisions :
    (config : Config) (ds more : List Decision) (r r' : Report)
    → Fails config more (check_decisions config ds r) r'
    → Fails config (ds ++ more) r r'
unfolding check_decisions
Fails-check_decisions config [] more r r' f = f
Fails-check_decisions config (d ∷ ds) more r r' f =
    Fails-check_decision config d (ds ++ more) r r'
      (Fails-check_decisions config ds more (check_decision config d r) r' f)

-- The decisions of a policy, in order.
abbrev pub decisions_of : List Section → List Decision
decisions_of [] = []
decisions_of (s ∷ policy) = s.decisions ++ decisions_of policy

Fails-check_policy :
    (config : Config) (policy : List Section) (r r' : Report)
    → failures r'.out ≡ failures (check_policy config policy r).out
    → Fails config (decisions_of policy) r r'
unfolding check_policy
Fails-check_policy config [] r r' e = Fails-nil config r r' e
Fails-check_policy config (s ∷ policy) r r' e =
    let titled = print (section s.title ∷ []) r in
    let (failed, v, f) =
      Fails-check_decisions config s.decisions (decisions_of policy) titled r'
        (Fails-check_policy config policy (check_decisions config s.decisions titled) r' e) in
    (
      failed,
      v,
      f ∙ ap (λ z. z ++ failed) (failures-print r (section s.title ∷ []) (unfold failures in refl)),
    )

failures-on : (lines : List Bytes) → failures (map on lines) ≡ []
unfolding failures
failures-on [] = refl
failures-on (x ∷ lines) = failures-on lines

failures-off : (lines : List Bytes) → failures (map off lines) ≡ []
unfolding failures
failures-off [] = refl
failures-off (x ∷ lines) = failures-off lines

failures-on_lines : (lines : List Bytes) → failures (on_lines lines) ≡ []
unfolding failures
failures-on_lines [] = refl
failures-on_lines (x ∷ lines) = failures-on lines

failures-off_lines : (lines : List Bytes) → failures (off_lines lines) ≡ []
unfolding failures
failures-off_lines [] = refl
failures-off_lines (x ∷ lines) = failures-off lines

failures-drifted :
    (added removed : List Bytes)
    → failures (drifted ∷ (on_lines added ++ (off_lines removed ++ (review ∷ [])))) ≡ []
failures-drifted added removed =
    unfold failures in
    (failures-append (on_lines added) (off_lines removed ++ (review ∷ []))
      ∙ ap (λ z. z ++ failures (off_lines removed ++ (review ∷ []))) (failures-on_lines added)
      ∙ failures-append (off_lines removed) (review ∷ [])
      ∙ ap (λ z. z ++ []) (failures-off_lines removed))

failures-report_drift :
    (n : ℕ) (added removed : List Bytes) (r : Report)
    → failures (report_drift n added removed r).out ≡ failures r.out
unfolding report_drift
failures-report_drift n [] [] r = failures-print r (no_drift n ∷ []) (unfold failures in refl)
failures-report_drift n (a ∷ added) removed r =
    failures-print r _ (failures-drifted (a ∷ added) removed)
failures-report_drift n [] (b ∷ removed) r = failures-print r _ (failures-drifted [] (b ∷ removed))

failures-golden_part :
    (config : Config) (golden : Option (List Bytes)) (r : Report)
    → failures (golden_part config golden r).out ≡ failures r.out
failures-golden_part config none r = failures-print r (no_golden ∷ []) (unfold failures in refl)
failures-golden_part config (some golden) r =
    failures-report_drift (length golden) (lines_only_in config.golden golden)
      (lines_only_in golden config.golden) r

failures-verifying : (title : Bytes) → failures (verifying title ∷ []) ≡ []
unfolding failures
failures-verifying title = refl

-- The FAIL lines of the report are the decisions that the configuration does not carry, each one
-- and in the order of the policy, whatever the golden is.
pub verify-failures :
    (config : Config) (policy : List Section) (golden : Option (List Bytes))
    → Violated config (decisions_of policy) (failures (verify config policy golden).out)
unfolding verify
verify-failures config policy golden =
    let start : Report = record { held = true; out = verifying config.title ∷ [] } in
    let (failed, v, e) =
      Fails-check_policy config policy start (verify config policy golden)
        (failures-golden_part config golden (check_policy config policy start)) in
    rw (e ∙ ap (λ z. z ++ failed) (failures-verifying config.title)) v
