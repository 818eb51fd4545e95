-- ===== src/Ikconfig/Command/GoldenRoundTrip.antt =====
-- The golden that `ikconfig golden` prints, read back by `ikconfig verify`.
use ossein_kernel.Base.{
  All, All-map, Bool, Bytes, List, Option, [], ap, arith, if◌then◌else◌, inl, inr, none, refl, some,
  true, ◌++◌, ◌↔◌, ◌∷◌, ◌≡◌, ◌≢◌,
}
use ossein_kernel.Strings.Cut.{before_suffix-append}
use ossein_kernel.Strings.Split.{Lacks, split-join}
use ossein_kernel.Strings.{join, split, trim_suffix}
use ossein_kernel.Ikconfig.Config.{Config, newline, parse}
use ossein_kernel.Ikconfig.Config.Golden.{golden-Lacks}
use ossein_kernel.Ikconfig.Verify.{Section, verify}
use ossein_kernel.Ikconfig.Verify.Held.{CarriesAll, In, verify-held_iff}
use ossein_kernel.Ikconfig.Command.{
  Read, config_of, contents, drift_error, embedded, golden_lines, golden_of, golden_output,
  run_verify, split_golden, trailing_newline, verdict,
}

trim_trailing : (s : Bytes) → trim_suffix (s ++ trailing_newline) trailing_newline ≡ s
trim_trailing s = ground (arith, before_suffix-append s trailing_newline)

split_golden-golden_output :
    (c : Config)
    → c.golden ≢ []
    → All (Lacks newline) c.golden
    → split_golden (golden_output c) ≡ c.golden
unfolding split_golden golden_output
split_golden-golden_output c ne l =
    rw (trim_trailing (join c.golden newline)) (split-join c.golden newline ne l)

-- An empty golden set is printed as one line break, and that is read back as one empty line.
split_golden-empty : (c : Config) → c.golden ≡ [] → split_golden (golden_output c) ≡ [] ∷ []
unfolding split_golden golden_output
split_golden-empty c e = rw (trim_trailing (join c.golden newline), e) (unfold join split in refl)

All-In_self : (xs : List Bytes) → All (λ line. In line xs) xs
All-In_self [] = tt
All-In_self (x ∷ xs) = (
  inl refl,
  All-map (λ line. In line xs) (λ line. In line (x ∷ xs)) (λ l h. inr h) xs (All-In_self xs),
)

golden_lines-contents :
    (gunzip : Bytes → Option Bytes) (read_file : Bytes → Read) (works : Bool) (path text : Bytes)
    → path ≢ []
    → read_file path ≡ contents text
    → golden_lines gunzip read_file works path ≡ golden_of (some (split_golden text))
unfolding golden_lines
golden_lines-contents gunzip read_file works [] text ne e = absurd (ne refl)
golden_lines-contents gunzip read_file works (c ∷ path) text ne e = ground arith

module _ (gunzip : Bytes → Option Bytes) (read_file : Bytes → Read) (policy : List Section)
    (image path config : Bytes) (found : embedded gunzip read_file true image ≡ config_of config)
    (named : path ≢ []) (stored : read_file path ≡ contents (golden_output (parse config))) where
  run_verify-report : run_verify gunzip read_file true policy image path ≡ (
      let r = verify (parse config) policy (some (split_golden (golden_output (parse config)))) in
      if r.held
      then record { report = r.out; stdout = verdict ∷ []; error = none }
      else record { report = r.out; stdout = []; error = some drift_error })
  unfolding run_verify
  run_verify-report =
      ground (arith, golden_lines-contents gunzip read_file true path _ named stored)

  -- With the output of `ikconfig golden` on an image stored as the committed golden, `ikconfig verify`
  -- on the same image succeeds exactly when the policy is carried, if some symbol is decided and
  -- standard output works.
  pub run_verify-run_golden :
      (parse config).golden ≢ []
      → ((run_verify gunzip read_file true policy image path).error ≡ none)
        ↔ CarriesAll (parse config) policy
  run_verify-run_golden ne =
      let back = split_golden-golden_output (parse config) ne (golden-Lacks config) in
      let same = All-In_self (parse config).golden in
      let (f, g) = verify-held_iff (parse config) policy (some (parse config).golden) in
      ground (arith, run_verify-report, ap (λ z. verify (parse config) policy (some z)) back)

  -- With no symbol decided the stored output always counts as drift.
  pub run_verify_empty :
      (parse config).golden ≡ []
      → (run_verify gunzip read_file true policy image path).error ≡ some drift_error
  run_verify_empty e =
      let (f, g) = verify-held_iff (parse config) policy (some ([] ∷ [])) in
      ground (
        arith,
        run_verify-report,
        ap (λ z. verify (parse config) policy (some z)) (split_golden-empty (parse config) e),
      )
