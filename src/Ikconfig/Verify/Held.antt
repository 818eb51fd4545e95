-- ===== src/Ikconfig/Verify/Held.antt =====
-- When `Verify` returns true.
use ossein_kernel.Base.{
  All, Bool-cases, Bytes, List, Option, [], arith, equal_iff, false, inl, inr, length, none, refl,
  some, true, ℕ, ◌↔◌, ◌∷◌, ◌≡◌, ◌≢◌, ◌⊎◌,
}
use ossein_kernel.Ikconfig.Config.{Config, State, state, state_y}
use ossein_kernel.Ikconfig.Verify.{
  Decision, Report, Section, Want, check_decision, check_decisions, check_policy, golden_part,
  in_lines, lines_only_in, met, print, report_drift, section, verify, verifying, want_not_y, want_y,
}

-- What a decision demands of a state.
abbrev pub Demands : Want → State → Type 0
Demands want_y s = s ≡ state_y
Demands want_not_y s = s ≢ state_y

pub met_iff : (w : Want) (s : State) → (met w s ≡ true) ↔ Demands w s
met_iff want_y s = ground arith
met_iff want_not_y s = ground arith

-- The configuration carries the decision.
abbrev pub Carries : Config → Decision → Type 0
Carries config d = Demands d.want (state config d.symbol)

abbrev pub CarriesAll : Config → List Section → Type 0
CarriesAll config = All (λ (s : Section). All (Carries config) s.decisions)

abbrev pub In : Bytes → List Bytes → Type 0
In line [] = ⊥
In line (x ∷ xs) = (x ≡ line) ⊎ In line xs

in_lines_iff : (xs : List Bytes) (line : Bytes) → (in_lines xs line ≡ true) ↔ In line xs
unfolding in_lines
in_lines_iff [] line = ground arith
in_lines_iff (x ∷ xs) line = ground (arith, equal_iff x line, in_lines_iff xs line)

-- Both lists hold the same lines.
abbrev pub SameLines : List Bytes → List Bytes → Type 0
SameLines xs ys = All (λ line. In line ys) xs × All (λ line. In line xs) ys

lines_only_in_iff :
    (from known : List Bytes) → (lines_only_in from known ≡ []) ↔ All (λ line. In line known) from
unfolding lines_only_in
lines_only_in_iff [] known = ground arith
lines_only_in_iff (line ∷ from) known =
    ground (arith, in_lines_iff known line, lines_only_in_iff from known)

-- Two steps, each of which keeps what held before it if its own condition is met.
steps_iff : {P Q R C D : Type 0} → P ↔ (Q × D) → Q ↔ (R × C) → P ↔ (R × (C × D))
steps_iff f g =
    (λ p. ((g.0 (f.0 p).0).0, ((g.0 (f.0 p).0).1, (f.0 p).1)), λ (r, (c, d)). f.1 (g.1 (r, c), d))

unknown : (known : List Bytes) (line : Bytes) → in_lines known line ≡ false → ¬ In line known
unknown known line n h = ground (arith, in_lines_iff known line)

-- The lines of `from` that are not known, and no others.
pub lines_only_in-In_iff :
    (from known : List Bytes) (line : Bytes)
    → In line (lines_only_in from known) ↔ (In line from × ¬ In line known)
unfolding lines_only_in
lines_only_in-In_iff [] known line = ground arith
lines_only_in-In_iff (x ∷ from) known line =
    let ih = lines_only_in-In_iff from known line in
    elim (Bool-cases (in_lines known x)) [
      | inl y ↦
          let known_x = (in_lines_iff known x).0 y in
          rw y (
            (λ h. (inr (ih.0 h).0, (ih.0 h).1)),
            (λ (m, new). elim m [ inl e ↦ absurd (new (rw e at known_x)) | inr a ↦ ih.1 (a, new) ]),
          )
      | inr n ↦ rw n (
        (λ h. elim h [
          | inl e ↦ (inl e, λ k. unknown known x n (rw (← e) at k))
          | inr a ↦ (inr (ih.0 a).0, (ih.0 a).1)
        ]),
        (λ (m, new). elim m [ inl e ↦ inl e | inr a ↦ inr (ih.1 (a, new)) ]),
      )
    ]

check_decision-held :
    (config : Config) (d : Decision) (r : Report)
    → ((check_decision config d r).held ≡ true) ↔ ((r.held ≡ true) × Carries config d)
unfolding check_decision
check_decision-held config d r = ground (arith, met_iff d.want (state config d.symbol))

check_decisions-held :
    (config : Config) (ds : List Decision) (r : Report)
    → ((check_decisions config ds r).held ≡ true) ↔ ((r.held ≡ true) × All (Carries config) ds)
unfolding check_decisions
check_decisions-held config [] r = ground arith
check_decisions-held config (d ∷ ds) r =
    steps_iff (check_decisions-held config ds (check_decision config d r))
      (check_decision-held config d r)

check_policy-held :
    (config : Config) (policy : List Section) (r : Report)
    → ((check_policy config policy r).held ≡ true) ↔ ((r.held ≡ true) × CarriesAll config policy)
unfolding check_policy
check_policy-held config [] r = ground arith
check_policy-held config (s ∷ policy) r =
    steps_iff
      (check_policy-held config policy
        (check_decisions config s.decisions (print (section s.title ∷ []) r)))
      (check_decisions-held config s.decisions (print (section s.title ∷ []) r))

-- Whether there is drift against the golden.
abbrev pub Agrees : Config → Option (List Bytes) → Type 0
Agrees config none = Unit
Agrees config (some golden) = SameLines golden config.golden

report_drift-held :
    (n : ℕ) (added removed : List Bytes) (r : Report)
    → ((report_drift n added removed r).held ≡ true)
      ↔ ((r.held ≡ true) × ((added ≡ []) × (removed ≡ [])))
unfolding report_drift
report_drift-held n [] [] r = ground arith
report_drift-held n (a ∷ added) removed r = ground arith
report_drift-held n [] (b ∷ removed) r = ground arith

golden_part-held :
    (config : Config) (golden : Option (List Bytes)) (r : Report)
    → ((golden_part config golden r).held ≡ true) ↔ ((r.held ≡ true) × Agrees config golden)
golden_part-held config none r = ground arith
golden_part-held config (some golden) r = ground (
  arith,
  report_drift-held (length golden) (lines_only_in config.golden golden)
      (lines_only_in golden config.golden) r,
  lines_only_in_iff config.golden golden,
  lines_only_in_iff golden config.golden,
)

-- `Verify` returns true exactly when every decision of the policy is carried and, if there is a
-- golden, it and the golden set of the configuration hold the same lines.
pub verify-held_iff :
    (config : Config) (policy : List Section) (golden : Option (List Bytes))
    → ((verify config policy golden).held ≡ true)
      ↔ (CarriesAll config policy × Agrees config golden)
unfolding verify
verify-held_iff config policy golden =
    let start : Report = record { held = true; out = verifying config.title ∷ [] } in
    let (f, g) =
      steps_iff (golden_part-held config golden (check_policy config policy start))
        (check_policy-held config policy start) in
    (λ h. (f h).1, λ h. g (refl, h))
