-- ===== src/Ikconfig/Config/States.antt =====
-- What `Parse` makes of the lines: the state of a symbol is what the last line about it says.
use ossein_kernel.Base.{
  All, Bool-cases, Bytes, List, Option, Option-cases, [], ap, arith, codes, false, if◌then◌else◌,
  inl, inr, none, or_else, refl, some, true, ℕ, ◌&&◌, ◌++◌, ◌∷◌, ◌≡◌,
}
use ossein_kernel.Strings.Split.{Lacks}
use ossein_kernel.Ikconfig.Config.Says.{Says, written, written-Sound, written_complete}
use ossein_kernel.Ikconfig.Config.{
  Config, State, assign, assignment, is_title, lookup, newline, no_title, nothing_parsed, or_absent,
  parse, parse_line, parse_lines, state,
}
use ossein_kernel.Strings.{after_prefix, find_cut, split, trim_prefix}

-- The line says nothing of the symbol.
abbrev pub IsSilent : Bytes → Bytes → Type 0
IsSilent symbol line = (s : State) → ¬ Says line symbol s

-- `known` is what the last line that says something says, and `before` if no line does.
pub data LastSays (symbol : Bytes) (before : Option State) (lines : List Bytes)
    (known : Option State) : Type 0 where
  never : All (IsSilent symbol) lines → known ≡ before → LastSays symbol before lines known
  last :
      (early late : List Bytes) (line : Bytes) (s : State)
      → lines ≡ early ++ (line ∷ late)
      → Says line symbol s
      → All (IsSilent symbol) late
      → known ≡ some s
      → LastSays symbol before lines known

-- The lines without the first one that names the kernel, which `Parse` takes for the title.
unfoldable pub without_title : List Bytes → List Bytes
without_title [] = []
without_title (line ∷ lines) = if is_title line then lines else line ∷ without_title lines

lookup-append :
    (new old : List (Bytes × State)) (symbol : Bytes)
    → lookup (new ++ old) symbol ≡ or_else (lookup new symbol) (lookup old symbol)
unfolding lookup or_else
lookup-append [] old symbol = refl
lookup-append ((key, s) ∷ new) old symbol = ground (arith, lookup-append new old symbol)

assign-append :
    (key value : Bytes) (old : List (Bytes × State))
    → assign key value old ≡ assign key value [] ++ old
unfolding assign
assign-append key value old = ground arith

-- A line that is not taken for the title adds its writes, and leaves the title alone.
pub states-parse_line :
    (c : Config) (line : Bytes)
    → (no_title c.title && is_title line) ≡ false
    → (parse_line c line).states ≡ written line ++ c.states
unfolding parse_line written
states-parse_line c line h =
    ground (arith, assign-append (assignment line).0 (assignment line).1 c.states)

pub title-parse_line :
    (c : Config) (line : Bytes)
    → (no_title c.title && is_title line) ≡ false
    → (parse_line c line).title ≡ c.title
unfolding parse_line
title-parse_line c line h = ground arith

pub parse_line_title :
    (c : Config) (line : Bytes)
    → no_title c.title ≡ true
    → is_title line ≡ true
    → parse_line c line ≡ record c { title = trim_prefix line (codes "# ") }
unfolding parse_line
parse_line_title c line t e = rw (t, e) refl

long_line :
    (a b d : ℕ) (line : Bytes) → no_title (trim_prefix (a ∷ b ∷ d ∷ line) (codes "# ")) ≡ false
unfolding codes after_prefix
long_line a b d line = ground arith

-- The title of the line that names the kernel is not empty.
pub title_line-ne-nil :
    (line : Bytes) → is_title line ≡ true → no_title (trim_prefix line (codes "# ")) ≡ false
unfolding is_title codes find_cut after_prefix
title_line-ne-nil [] h = ground arith
title_line-ne-nil (a ∷ []) h = ground arith
title_line-ne-nil (a ∷ b ∷ []) h = ground arith
title_line-ne-nil (a ∷ b ∷ d ∷ line) h = long_line a b d line

module _ (symbol : Bytes) (l : Lacks b'=' symbol) where
  IsSilent-of_none : (line : Bytes) → lookup (written line) symbol ≡ none → IsSilent symbol line
  IsSilent-of_none line e s says = ground (arith, written_complete l says)

  LastSays-cons_silent :
      {before known : Option State} {lines : List Bytes} (line : Bytes)
      → IsSilent symbol line
      → LastSays symbol before lines known
      → LastSays symbol before (line ∷ lines) known
  LastSays-cons_silent line q (never h e) = never (q, h) e
  LastSays-cons_silent line q (last early late x s e says h k) =
      last (line ∷ early) late x s (ap (◌∷◌ line) e) says h k

  LastSays-cons-Says :
      {before known : Option State} {lines : List Bytes} (line : Bytes) (s : State)
      → Says line symbol s
      → LastSays symbol (some s) lines known
      → LastSays symbol before (line ∷ lines) known
  LastSays-cons-Says {lines} line s q (never h e) = last [] lines line s refl q h e
  LastSays-cons-Says line s q (last early late x t e says h k) =
      last (line ∷ early) late x t (ap (◌∷◌ line) e) says h k

  -- One line more in front, by what it writes.
  LastSays-cons :
      (before known : Option State) (lines : List Bytes) (line : Bytes)
      → LastSays symbol (or_else (lookup (written line) symbol) before) lines known
      → LastSays symbol before (line ∷ lines) known
  unfolding or_else
  LastSays-cons before known lines line h = elim (Option-cases (lookup (written line) symbol)) [
    | inl e ↦ LastSays-cons_silent line (IsSilent-of_none line e) (rw e at h)
    | inr (s, e) ↦ LastSays-cons-Says line s (rw e at (written-Sound line symbol)) (rw e at h)
  ]

  LastSays-parse_line :
      (c : Config) (line : Bytes) (lines : List Bytes) {known : Option State}
      → (no_title c.title && is_title line) ≡ false
      → LastSays symbol (lookup (parse_line c line).states symbol) lines known
      → LastSays symbol (lookup c.states symbol) (line ∷ lines) known
  LastSays-parse_line c line lines h known =
      LastSays-cons (lookup c.states symbol) _ lines line
        (rw (states-parse_line c line h, lookup-append) at known)

  -- Once there is a title every line counts.
  LastSays-titled :
      (lines : List Bytes) (c : Config)
      → no_title c.title ≡ false
      → LastSays symbol (lookup c.states symbol) lines (lookup (parse_lines c lines).states symbol)
  unfolding parse_lines
  LastSays-titled [] c t = never tt refl
  LastSays-titled (line ∷ lines) c t =
      let h : (no_title c.title && is_title line) ≡ false = rw t refl in
      LastSays-parse_line c line lines h
        (LastSays-titled lines (parse_line c line) (rw (title-parse_line c line h) t))

  LastSays-title :
      (lines : List Bytes) (c : Config) (line : Bytes)
      → no_title c.title ≡ true
      → is_title line ≡ true
      → LastSays symbol
          (lookup c.states symbol)
          lines
          (lookup (parse_lines (parse_line c line) lines).states symbol)
  LastSays-title lines c line t e = rw (parse_line_title c line t e) (
      LastSays-titled lines (record c { title = trim_prefix line (codes "# ") })
        (title_line-ne-nil line e))

  LastSays-untitled :
      (lines : List Bytes) (c : Config)
      → no_title c.title ≡ true
      → LastSays symbol
          (lookup c.states symbol)
          (without_title lines)
          (lookup (parse_lines c lines).states symbol)
  unfolding parse_lines without_title
  LastSays-untitled [] c t = never tt refl
  LastSays-untitled (line ∷ lines) c t = elim (Bool-cases (is_title line)) [
    | inl e ↦ rw e (LastSays-title lines c line t e)
    | inr e ↦
        let h : (no_title c.title && is_title line) ≡ false = rw (t, e) refl in
        rw e (
          LastSays-parse_line c line (without_title lines) h
            (LastSays-untitled lines (parse_line c line) (rw (title-parse_line c line h) t)))
  ]

-- The state of a symbol in a text, with the line that decides it.
pub record IsDecided (config symbol : Bytes) : Type 0 where
  pub known : Option State
  pub state_is : state (parse config) symbol ≡ or_absent known
  pub last_says : LastSays symbol none (without_title (split config newline)) known

-- The state of a symbol, whose name holds no `=`, is the one that the last line about it says, where
-- the first line that names the kernel does not count; if no line says anything it is absent.
pub state-parse : (config symbol : Bytes) → Lacks b'=' symbol → IsDecided config symbol
unfolding state parse lookup
state-parse config symbol l = record {
  known = lookup (parse_lines nothing_parsed (split config newline)).states symbol;
  state_is = refl;
  last_says = LastSays-untitled symbol l (split config newline) nothing_parsed refl;
}
