-- ===== src/Ikconfig/Verify.antt =====
-- internal/ikconfig/verify.go: `Want`, `Decision`, `Section`, `Verify` and `drift`. What is printed
-- is a list of lines, each with the values that its format takes.
pub mod Held
pub mod Printed
use ossein_kernel.Base.{
  Bool, Bytes, List, Option, String, [], equal, false, if◌then◌else◌, length, map, none, not, some,
  true, ℕ, ◌++◌, ◌||◌, ◌∷◌,
}
use ossein_kernel.Ikconfig.Config.{Config, State, state, state_y}

pub data Want : Type 0 where
  want_y want_not_y : Want

abbrev pub is_y : State → Bool
is_y state_y = true
is_y _ = false

-- `Want.met`
abbrev pub met : Want → State → Bool
met want_y got = is_y got
met want_not_y got = not (is_y got)

pub record Decision : Type 0 where
  pub symbol : Bytes
  pub want : Want
  pub why : String

pub record Section : Type 0 where
  pub title : String
  pub decisions : List Decision

-- One `Fprintf` or `Fprintln` each, in the order of the source.
pub data Line : Type 0 where
  verifying : Bytes → Line
  section : String → Line
  decision_ok : Decision → State → Line
  decision_fail : Decision → State → Line
  no_golden : Line
  no_drift : ℕ → Line
  drifted : Line
  turned_on : Line
  on : Bytes → Line
  now_off : Line
  off : Bytes → Line
  review : Line

-- The variable `held`, and what was printed.
pub record Report : Type 0 where
  pub held : Bool
  pub out : List Line

abbrev pub print : List Line → Report → Report
print lines r = record r { out = r.out ++ lines }

unfoldable pub check_decision : Config → Decision → Report → Report
check_decision config decision r =
    let got = state config decision.symbol in
    if met decision.want got
    then print (decision_ok decision got ∷ []) r
    else record { held = false; out = r.out ++ (decision_fail decision got ∷ []) }

unfoldable pub check_decisions : Config → List Decision → Report → Report
unfolding check_decision
check_decisions config [] r = r
check_decisions config (d ∷ ds) r = check_decisions config ds (check_decision config d r)

unfoldable pub check_policy : Config → List Section → Report → Report
unfolding check_decisions
check_policy config [] r = r
check_policy config (s ∷ policy) r =
    check_policy config policy (check_decisions config s.decisions (print (section s.title ∷ []) r))

-- `inGolden[line]` and `inGot[line]`: the map that holds the lines of a list.
unfoldable pub in_lines : List Bytes → Bytes → Bool
in_lines [] line = false
in_lines (x ∷ xs) line = equal x line || in_lines xs line

-- The lines of `from` that `known` lacks, in order.
unfoldable pub lines_only_in : List Bytes → List Bytes → List Bytes
unfolding in_lines
lines_only_in [] known = []
lines_only_in (line ∷ from) known =
    let rest = lines_only_in from known in if in_lines known line then rest else line ∷ rest

-- `drift`: added, removed.
abbrev pub drift : List Bytes → List Bytes → List Bytes × List Bytes
drift golden got = (lines_only_in got golden, lines_only_in golden got)

abbrev pub on_lines : List Bytes → List Line
on_lines [] = []
on_lines (line ∷ lines) = turned_on ∷ map on (line ∷ lines)

abbrev pub off_lines : List Bytes → List Line
off_lines [] = []
off_lines (line ∷ lines) = now_off ∷ map off (line ∷ lines)

-- The end of `Verify`, on the two results of `drift`.
unfoldable pub report_drift : ℕ → List Bytes → List Bytes → Report → Report
report_drift n [] [] r = print (no_drift n ∷ []) r
report_drift n added removed r = record {
  held = false;
  out = r.out ++ (drifted ∷ (on_lines added ++ (off_lines removed ++ (review ∷ []))));
}

abbrev pub golden_part : Config → Option (List Bytes) → Report → Report
golden_part config none r = print (no_golden ∷ []) r
golden_part config (some golden) r =
    let (added, removed) = drift golden config.golden in
    report_drift (length golden) added removed r

-- `golden` is nil or a list.
unfoldable pub verify : Config → List Section → Option (List Bytes) → Report
unfolding check_policy lines_only_in report_drift
verify config policy golden =
    golden_part config golden
      (check_policy config policy (record { held = true; out = verifying config.title ∷ [] }))
