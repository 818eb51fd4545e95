-- ===== src/Builder/Stage/ReadBack.antt =====
-- The guest's init reads from `build.env` the lines that the host put in.
use mathlib.Core.Path.{subst}
use ossein_kernel.Base.{
  All, All-append, All-append_right, All-map, Bytes, List, Option, [], ap, append_assoc, ap₂, arith,
  false, length, ltb, none, refl, some, true, ℕ, ◌++◌, ◌<◌, ◌==◌, ◌∙◌, ◌∷◌, ◌≡◌, ◌≢◌,
}
use ossein_kernel.Strings.{
  all_fit, before_suffix, is_space, join, line_pieces, max_token, scan_lines, split, trim_suffix,
}
use ossein_kernel.Strings.Split.{Lacks, split-join}
use ossein_kernel.Strings.Fields.{All-of_NoSpace, Word, trim_space-Word}
use ossein_kernel.Init.Build.{env_file, env_lines, minimal_path, read_env_file, skipped_line}
use ossein_kernel.Strings.Cut.{Before, before_suffix-Before}
use ossein_kernel.Init.{History, World, done, ok, open_file, read_file, text}
use ossein_kernel.Builder.Stage.{BuildConfig, build_env, env_vars}

-- A line that is read as it is written: no white space in it, not a comment, and short enough.
pub record Plain (s : Bytes) : Type 0 where
  pub word : Word s
  pub kept : skipped_line s ≡ false
  pub short : length s < max_token

Lacks-of_Word : (s : Bytes) → All (λ c. is_space c ≡ false) s → Lacks b'\n' s
Lacks-of_Word s h =
    All-map (λ c. is_space c ≡ false) (λ c. (c == b'\n') ≡ false) (λ c e. ground arith) s h

join-append_newline :
    (ps : List Bytes) → ps ≢ [] → join ps b'\n' ++ (b'\n' ∷ []) ≡ join (ps ++ [] ∷ []) b'\n'
unfolding join
join-append_newline [] ne = absurd (ne refl)
join-append_newline (p ∷ []) ne = refl
join-append_newline (p ∷ q ∷ ps) ne =
    append_assoc p (b'\n' ∷ join (q ∷ ps) b'\n') (b'\n' ∷ [])
    ∙ ap (λ t. p ++ (b'\n' ∷ t)) (join-append_newline (q ∷ ps) (ground arith))

split-joined_lines :
    (ps : List Bytes)
    → ps ≢ []
    → All (Lacks b'\n') ps
    → split (join ps b'\n' ++ (b'\n' ∷ [])) b'\n' ≡ ps ++ [] ∷ []
split-joined_lines ps ne h =
    ap (λ t. split t b'\n') (join-append_newline ps ne)
    ∙ split-join (ps ++ [] ∷ []) b'\n' (append_one-ne-nil ps)
        (All-append (Lacks b'\n') ps ([] ∷ []) h (tt, tt))
  where
    append_one-ne-nil : (xs : List Bytes) → xs ++ [] ∷ [] ≢ []
    append_one-ne-nil [] = ground arith
    append_one-ne-nil (x ∷ xs) = ground arith

true-ne-false : true ≢ false
true-ne-false = ground arith

short_fits : (n : ℕ) → n < max_token → ltb n max_token ≡ true
short_fits n h = ground arith

all_fit-Plain : (ps : List Bytes) → All Plain ps → all_fit (ps ++ [] ∷ []) ≡ true
unfolding all_fit
all_fit-Plain [] h = refl
all_fit-Plain (p ∷ ps) h = rw (short_fits (length p) h.0.short) (all_fit-Plain ps h.1)

abbrev return_suffix : Bytes
return_suffix = b'\r' ∷ []

without_suffix :
    (s : Bytes) (o : Option Bytes)
    → All (λ c. is_space c ≡ false) s
    → Before s return_suffix o
    → o ≡ none
without_suffix s none h b = refl
without_suffix s (some r) h b = absurd (
    true-ne-false
      (All-append_right (λ c. is_space c ≡ false) r return_suffix
        (subst (All (λ c. is_space c ≡ false)) b h)).0)

trim_suffix-Spaceless :
    (s : Bytes) → All (λ c. is_space c ≡ false) s → trim_suffix s return_suffix ≡ s
trim_suffix-Spaceless s h =
    rw
      (
        without_suffix s (before_suffix s return_suffix) h (before_suffix-Before s return_suffix),
        trim_suffix,
      )
      refl

line_pieces-Plain : (ps : List Bytes) → All Plain ps → line_pieces (ps ++ [] ∷ []) ≡ ps
unfolding line_pieces
line_pieces-Plain [] h = refl
line_pieces-Plain ([] ∷ ps) h = absurd (h.0.word.0 refl)
line_pieces-Plain ((c ∷ p) ∷ ps) h =
    ap₂ (λ q qs. q ∷ qs) (trim_suffix-Spaceless (c ∷ p) (All-of_NoSpace (c ∷ p) h.0.word.1))
      (line_pieces-Plain ps h.1)

env_lines-Plain : (ps : List Bytes) → All Plain ps → env_lines ps ≡ ps
unfolding env_lines
env_lines-Plain [] h = refl
env_lines-Plain (p ∷ ps) h =
    rw (trim_space-Word p h.0.word) (rw h.0.kept (ap (◌∷◌ p) (env_lines-Plain ps h.1)))

scan_lines-Plain :
    (ps : List Bytes)
    → ps ≢ []
    → All Plain ps
    → scan_lines (join ps b'\n' ++ (b'\n' ∷ [])) ≡ some ps
unfolding scan_lines
scan_lines-Plain ps ne h =
    rw
      (split-joined_lines ps ne
        (All-map Plain (Lacks b'\n') (λ p q. Lacks-of_Word p (All-of_NoSpace p q.word.1)) ps h))
      (rw (all_fit-Plain ps h) (ap some (line_pieces-Plain ps h)))

-- The file can be opened and read, and holds this text.
pub record Stages (w : World) (s : Bytes) : Type 0 where
  pub opens : (h : History) → w h (open_file env_file) ≡ done
  pub reads : (h : History) → w h (read_file env_file) ≡ text s

-- When the staged `build.env` can be opened and read, the environment of the build is the minimal PATH
-- and the four variables that the host staged, in order, if none of these has white space in it,
-- begins as a comment or fills the line buffer.
pub read_env_file-build_env :
    (workdir : Bytes) (cfg : BuildConfig) (w : World) (h : History)
    → All Plain (env_vars workdir cfg)
    → Stages w (build_env workdir cfg)
    → (read_env_file w h).0 ≡ ok (minimal_path ∷ env_vars workdir cfg)
unfolding read_env_file build_env
read_env_file-build_env workdir cfg w h p s = rw (s.opens h) (
    rw (s.reads (open_file env_file ∷ h)) (
      rw (scan_lines-Plain (env_vars workdir cfg) (ground arith) p)
        (ap (λ l. ok (minimal_path ∷ l)) (env_lines-Plain (env_vars workdir cfg) p))))
