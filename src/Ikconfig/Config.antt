-- ===== src/Ikconfig/Config.antt =====
-- internal/ikconfig/verify.go: `State`, `Config`, `Parse` and what a `Config` answers. The map of
-- states is the list of the writes to it, the last one first.
pub mod Says
pub mod States
pub mod Golden
use ossein_kernel.Base.{
  Bool, Bytes, List, Option, [], codes, equal, false, if◌then◌else◌, leb, none, not, some, true, ℕ,
  ◌&&◌, ◌++◌, ◌==◌, ◌||◌, ◌∷◌,
}
use ossein_kernel.Strings.{contains, cut, has_prefix, has_suffix, split, trim_prefix, trim_suffix}
use ossein_kernel.Sorting.{sort}
use ossein_kernel.Regex.{Regex, alt, chars, literal, match_string, plus, seq, star}

pub data State : Type 0 where
  state_y state_m state_n state_absent : State

pub record Config : Type 0 where
  pub title : Bytes
  pub states : List (Bytes × State)
  pub golden : List Bytes

abbrev pub newline : ℕ
newline = b'\n'

-- `[A-Z0-9_]`
abbrev pub is_symbol_char : ℕ → Bool
is_symbol_char c = (leb b'A' c && leb c b'Z') || (leb b'0' c && leb c b'9') || c == b'_'

abbrev pub is_digit : ℕ → Bool
is_digit c = leb b'0' c && leb c b'9'

abbrev pub is_hex : ℕ → Bool
is_hex c = is_digit c || (leb b'a' c && leb c b'f') || (leb b'A' c && leb c b'F')

-- `y|m|\d+|0x[0-9a-fA-F]+|".*"`; `.` is any byte but a newline.
abbrev pub golden_value : Regex
golden_value = alt (literal (codes "y")) (
    alt (literal (codes "m")) (
      alt (plus (chars is_digit)) (
        alt (seq (literal (codes "0x")) (plus (chars is_hex))) (
          seq (literal (codes "\""))
            (seq (star (chars (λ c. not (c == newline)))) (literal (codes "\"")))))))

-- `goldenLine`
abbrev pub golden_line : Regex
golden_line =
    seq (literal (codes "CONFIG_"))
      (seq (plus (chars is_symbol_char)) (seq (literal (codes "=")) golden_value))

unfoldable pub is_title : Bytes → Bool
is_title line = contains line (codes "Kernel Configuration")

-- The case of `# CONFIG_… is not set`: the symbol, if the line has that form.
unfoldable pub is_unset : Bytes → Bool
is_unset line = has_prefix line (codes "# CONFIG_") && has_suffix line (codes " is not set")

unfoldable pub unset_symbol : Bytes → Bytes
unset_symbol line = trim_suffix (trim_prefix line (codes "# CONFIG_")) (codes " is not set")

-- The case of `CONFIG_…`: symbol and value, cut at the first `=`.
unfoldable pub assignment : Bytes → Bytes × Bytes
assignment line =
    let (symbol, value, _) = cut (trim_prefix line (codes "CONFIG_")) (codes "=") in (symbol, value)

-- The inner `switch`: a numeric, hex or string value has no state.
unfoldable pub assign : Bytes → Bytes → List (Bytes × State) → List (Bytes × State)
assign symbol value states =
    if equal value (codes "y")
    then (symbol, state_y) ∷ states
    else if equal value (codes "m")
    then (symbol, state_m) ∷ states
    else states

-- `parsed.title == ""`
abbrev pub no_title : Bytes → Bool
no_title [] = true
no_title (_ ∷ _) = false

-- One round of the loop in `Parse`.
unfoldable pub parse_line : Config → Bytes → Config
unfolding is_title is_unset unset_symbol assignment assign
parse_line parsed line =
    if no_title parsed.title && is_title line
    then record parsed { title = trim_prefix line (codes "# ") }
    else if is_unset line
    then record parsed { states = (unset_symbol line, state_n) ∷ parsed.states }
    else if has_prefix line (codes "CONFIG_")
    then record parsed {
      states = assign (assignment line).0 (assignment line).1 parsed.states;
      golden =
          if match_string golden_line line then parsed.golden ++ (line ∷ []) else parsed.golden;
    }
    else parsed

unfoldable pub parse_lines : Config → List Bytes → Config
unfolding parse_line
parse_lines parsed [] = parsed
parse_lines parsed (line ∷ lines) = parse_lines (parse_line parsed line) lines

abbrev pub nothing_parsed : Config
nothing_parsed = record { title = []; states = []; golden = [] }

unfoldable pub parse : Bytes → Config
unfolding parse_lines
parse config =
    let parsed = parse_lines nothing_parsed (split config newline) in
    record parsed { golden = sort parsed.golden }

unfoldable pub lookup : List (Bytes × State) → Bytes → Option State
lookup [] symbol = none
lookup ((key, state) ∷ states) symbol =
    if equal key symbol then some state else lookup states symbol

abbrev pub or_absent : Option State → State
or_absent none = state_absent
or_absent (some s) = s

-- `Config.State`
unfoldable pub state : Config → Bytes → State
unfolding lookup
state c symbol = or_absent (lookup c.states symbol)
