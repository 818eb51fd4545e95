-- ===== src/Ikconfig/Config/Golden.antt =====
-- The golden set that `Parse` collects: the lines of the expression `goldenLine`, sorted.
use mathlib.Core.List.{Perm}
use ossein_kernel.Base.{
  All, Bool-cases, Bytes, List, [], ap, append-nil, append_assoc, arith, codes, false, inl, inr,
  refl, sym, true, ◌&&◌, ◌++◌, ◌∙◌, ◌∷◌, ◌≡◌,
}
use ossein_kernel.Strings.Cut.{after_prefix-append}
use ossein_kernel.Strings.Split.{Lacks, split-Lacks}
use ossein_kernel.Strings.{split, trim_prefix}
use ossein_kernel.Sorting.Laws.{IsSorted, sort-All, sort-IsSorted, sort-perm}
use ossein_kernel.Regex.{match_string}
use ossein_kernel.Regex.Decides.{
  Matches, literal-inv, match_string_complete, match_string_sound, seq-inv,
}
use ossein_kernel.Ikconfig.Config.Says.{is_unset-of_set}
use ossein_kernel.Ikconfig.Config.States.{
  parse_line_title, title-parse_line, title_line-ne-nil, without_title,
}
use ossein_kernel.Ikconfig.Config.{
  Config, golden_line, is_title, newline, no_title, nothing_parsed, parse, parse_line, parse_lines,
}

-- `kept` are the lines that the expression describes, in order.
pub data Selects : List Bytes → List Bytes → Type 0 where
  none_left : Selects [] []
  keep :
      {line : Bytes} {lines kept : List Bytes}
      → Matches golden_line line
      → Selects lines kept
      → Selects (line ∷ lines) (line ∷ kept)
  skip :
      {line : Bytes} {lines kept : List Bytes}
      → ¬ Matches golden_line line
      → Selects lines kept
      → Selects (line ∷ lines) kept

golden_line-prefix :
    {line : Bytes} → Matches golden_line line → (r : Bytes) × (line ≡ codes "CONFIG_" ++ r)
golden_line-prefix m =
    let (a, b, e, x, y) = seq-inv m in (b, e ∙ ap (λ z. z ++ b) (literal-inv (codes "CONFIG_") x))

not_golden : {line : Bytes} → match_string golden_line line ≡ false → ¬ Matches golden_line line
not_golden {line} h m = ground (arith, match_string_complete line golden_line m)

-- A golden line that is not the title is collected.
golden-parse_line_keep :
    (c : Config) (line r : Bytes)
    → (no_title c.title && is_title line) ≡ false
    → line ≡ codes "CONFIG_" ++ r
    → match_string golden_line line ≡ true
    → (parse_line c line).golden ≡ c.golden ++ (line ∷ [])
unfolding parse_line
golden-parse_line_keep c line r h e m =
    ground (arith, is_unset-of_set r, after_prefix-append (codes "CONFIG_") r)

golden-parse_line_skip :
    (c : Config) (line : Bytes)
    → (no_title c.title && is_title line) ≡ false
    → match_string golden_line line ≡ false
    → (parse_line c line).golden ≡ c.golden
unfolding parse_line
golden-parse_line_skip c line h m = ground arith

-- What a run of the loop adds to the golden lines that were there.
abbrev Adds : List Bytes → List Bytes → List Bytes → Type 0
Adds before lines after = (kept : List Bytes) × Selects lines kept × (after ≡ before ++ kept)

Adds-parse_line :
    (c : Config) (line : Bytes) (lines after : List Bytes)
    → (no_title c.title && is_title line) ≡ false
    → Adds (parse_line c line).golden lines after
    → Adds c.golden (line ∷ lines) after
Adds-parse_line c line lines after h (kept, s, e) =
    elim (Bool-cases (match_string golden_line line)) [
      | inl y ↦
          let m = match_string_sound golden_line line y in
          let (r, f) = golden_line-prefix m in
          (
            line ∷ kept,
            keep m s,
            e
                ∙ ap (λ z. z ++ kept) (golden-parse_line_keep c line r h f y)
                ∙ append_assoc c.golden (line ∷ []) kept,
          )
      | inr n ↦
          (kept, skip (not_golden n) s, e ∙ ap (λ z. z ++ kept) (golden-parse_line_skip c line h n))
    ]

Adds-titled :
    (lines : List Bytes) (c : Config)
    → no_title c.title ≡ false
    → Adds c.golden lines (parse_lines c lines).golden
unfolding parse_lines
Adds-titled [] c t = ([], none_left, sym (append-nil c.golden))
Adds-titled (line ∷ lines) c t =
    let h : (no_title c.title && is_title line) ≡ false = rw t refl in
    Adds-parse_line c line lines _ h
      (Adds-titled lines (parse_line c line) (rw (title-parse_line c line h) t))

Adds-title :
    (lines : List Bytes) (c : Config) (line : Bytes)
    → no_title c.title ≡ true
    → is_title line ≡ true
    → Adds c.golden lines (parse_lines (parse_line c line) lines).golden
Adds-title lines c line t e = rw (parse_line_title c line t e) (
    Adds-titled lines (record c { title = trim_prefix line (codes "# ") })
      (title_line-ne-nil line e))

Adds-untitled :
    (lines : List Bytes) (c : Config)
    → no_title c.title ≡ true
    → Adds c.golden (without_title lines) (parse_lines c lines).golden
unfolding parse_lines without_title
Adds-untitled [] c t = ([], none_left, sym (append-nil c.golden))
Adds-untitled (line ∷ lines) c t = elim (Bool-cases (is_title line)) [
  | inl e ↦ rw e (Adds-title lines c line t e)
  | inr e ↦
      let h : (no_title c.title && is_title line) ≡ false = rw (t, e) refl in
      rw e (
        Adds-parse_line c line (without_title lines) _ h
          (Adds-untitled lines (parse_line c line) (rw (title-parse_line c line h) t)))
]

pub record IsGolden (config : Bytes) (golden : List Bytes) : Type 0 where
  pub kept : List Bytes
  pub selects : Selects (without_title (split config newline)) kept
  pub same : Perm golden kept
  pub sorted : IsSorted golden

-- The golden set is in byte order, and holds, as often, the lines that the expression describes
-- among the lines of the text; the first line that names the kernel does not count.
pub golden-parse : (config : Bytes) → IsGolden config (parse config).golden
unfolding parse
golden-parse config =
    let (kept, s, e) = Adds-untitled (split config newline) nothing_parsed refl in
    record { kept = kept; selects = s; same = rw e (sort-perm kept); sorted = sort-IsSorted _ }

without_title-All :
    (P : Bytes → Type 0) (lines : List Bytes) → All P lines → All P (without_title lines)
unfolding without_title
without_title-All P [] h = tt
without_title-All P (line ∷ lines) h = ground (arith, without_title-All P lines h.1)

Selects-All :
    (P : Bytes → Type 0) {lines kept : List Bytes} → Selects lines kept → All P lines → All P kept
Selects-All P none_left h = tt
Selects-All P (keep m s) h = (h.0, Selects-All P s h.1)
Selects-All P (skip m s) h = Selects-All P s h.1

-- No golden line holds a line break.
pub golden-Lacks : (config : Bytes) → All (Lacks newline) (parse config).golden
unfolding parse
golden-Lacks config =
    let (kept, s, e) = Adds-untitled (split config newline) nothing_parsed refl in
    sort-All (Lacks newline) _ (
      rw e (
        Selects-All (Lacks newline) s
          (without_title-All (Lacks newline) _ (split-Lacks config newline))))
