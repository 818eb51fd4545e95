-- ===== src/Tests/Ikconfig.antt =====
-- internal/ikconfig/verify_test.go and ikconfig_test.go, and the theorems on small inputs.
use ossein_kernel.Base.{
  Bytes, List, Option, [], arith, codes, equal, if◌then◌else◌, none, refl, some, true, ◌++◌, ◌↔◌,
  ◌∷◌, ◌≡◌, ◌≢◌,
}
use ossein_kernel.Strings.{after_prefix, before_suffix, find_cut, split}
use ossein_kernel.Sorting.{sort}
use ossein_kernel.Regex.{literal, match_string}
use ossein_kernel.Ikconfig.Config.{Config, parse, state, state_absent, state_m, state_n, state_y}
use ossein_kernel.Ikconfig.Config.States.{IsDecided, state-parse}
use ossein_kernel.Ikconfig.Config.Golden.{IsGolden, golden-parse}
use ossein_kernel.Ikconfig.Verify.{Section, verify, want_y}
use ossein_kernel.Ikconfig.Verify.Held.{Agrees, CarriesAll, verify-held_iff}
use ossein_kernel.Ikconfig.Verify.Printed.{Violated, decisions_of, failures, verify-failures}
use ossein_kernel.Ikconfig.Extract.{
  embedded_config, end_marker, extract, extracted, failed, no_config, start_marker,
}
use ossein_kernel.Ikconfig.Extract.Embedded.{
  extract-no_config, extract-wrap, extract_early_end, wrap,
}
use ossein_kernel.Ikconfig.Command.{
  Read, contents, drift_error, embedded, golden_output, not_exist, run_verify,
}
use ossein_kernel.Ikconfig.Command.GoldenRoundTrip.{run_verify-run_golden, run_verify_empty}

abbrev sample : Bytes
sample =
    codes "#\n# Linux/arm64 7.2.6 Kernel Configuration\nCONFIG_ARM64=y\nCONFIG_NR_CPUS=512\n"
    ++ codes
        "CONFIG_CMDLINE=\"console=hvc0\"\nCONFIG_PHYS_OFFSET=0x40000000\n# CONFIG_SME is not set\n"
    ++ codes "CONFIG_EXT4_FS=m\n"

parsed : Config
unfolding parse match_string literal sort codes before_suffix find_cut split
parsed = parse sample

states_of_sample :
    (state parsed (codes "ARM64") ≡ state_y)
    × (state parsed (codes "EXT4_FS") ≡ state_m)
    × (state parsed (codes "SME") ≡ state_n)
    × (state parsed (codes "NR_CPUS") ≡ state_absent)
unfolding parsed state
states_of_sample = (refl, refl, refl, refl)

golden_of_sample :
    parsed.golden
    ≡ codes "CONFIG_ARM64=y"
      ∷ codes "CONFIG_CMDLINE=\"console=hvc0\""
      ∷ codes "CONFIG_EXT4_FS=m"
      ∷ codes "CONFIG_NR_CPUS=512"
      ∷ codes "CONFIG_PHYS_OFFSET=0x40000000"
      ∷ []
unfolding parsed
golden_of_sample = refl

title_of_sample : parsed.title ≡ codes "Linux/arm64 7.2.6 Kernel Configuration"
unfolding parsed
title_of_sample = refl

abbrev symbol : Bytes
symbol = codes "SME"

state-parse_example : IsDecided sample symbol
unfolding codes
state-parse_example = state-parse sample symbol (refl, (refl, (refl, tt)))

golden-parse_example : IsGolden sample (parse sample).golden
golden-parse_example = golden-parse sample

abbrev policy : List Section
policy =
    record {
      title = "t";
      decisions =
          record { symbol = codes "ARM64"; want = want_y; why = "arch" }
          ∷ record { symbol = codes "EXT4_FS"; want = want_y; why = "built in" }
          ∷ [];
    }
    ∷ []

verify-held_iff_example :
    ((verify parsed policy none).held ≡ true) ↔ (CarriesAll parsed policy × Agrees parsed none)
verify-held_iff_example = verify-held_iff parsed policy none

verify-failures_example :
    Violated parsed (decisions_of policy) (failures (verify parsed policy none).out)
verify-failures_example = verify-failures parsed policy none

failures_of_sample :
    failures (verify parsed policy none).out
    ≡ record { symbol = codes "EXT4_FS"; want = want_y; why = "built in" } ∷ []
unfolding parsed verify state failures
failures_of_sample = refl

-- A kernel image that embeds the text itself, with the identity for the compression.
abbrev text : Bytes
text = codes "CONFIG_A=y\n"

abbrev no_symbols : Bytes
no_symbols = codes "#\n"

abbrev identity : Bytes → Option Bytes
identity s = some s

abbrev disk : Bytes → Read
disk path =
    if equal path (codes "k")
    then contents (wrap (codes "E") text (codes "P"))
    else if equal path (codes "g")
    then contents (golden_output (parse text))
    else if equal path (codes "e")
    then contents (wrap (codes "E") no_symbols (codes "P"))
    else if equal path (codes "f")
    then contents (golden_output (parse no_symbols))
    else not_exist

abbrev one_symbol : List Section
one_symbol =
    record { title = "t"; decisions = record { symbol = codes "A"; want = want_y; why = "" } ∷ [] }
    ∷ []

run_verify-run_golden_example :
    ((run_verify identity disk true one_symbol (codes "k") (codes "g")).error ≡ none)
    ↔ CarriesAll (parse text) one_symbol
unfolding embedded extract codes find_cut equal parse match_string literal sort before_suffix split
run_verify-run_golden_example =
    run_verify-run_golden identity disk one_symbol (codes "k") (codes "g") text refl (ground arith)
      refl (ground arith)

run_verify_empty_example :
    (run_verify identity disk true [] (codes "e") (codes "f")).error ≡ some drift_error
unfolding embedded extract codes find_cut equal parse match_string literal sort before_suffix split
run_verify_empty_example =
    run_verify_empty identity disk [] (codes "e") (codes "f") no_symbols refl (ground arith) refl
      refl

extract-wrap_example :
    extract identity (wrap (codes "E") (codes "A") (codes "P")) ≡ extracted (codes "A")
unfolding codes after_prefix
extract-wrap_example =
    extract-wrap identity (λ s. s) (λ s. refl) (codes "E") (codes "A") (codes "P") (refl, tt)
      (refl, tt)

extract_early_end_example :
    extract (λ s. none) (wrap (codes "E") (codes "A" ++ (end_marker ++ codes "B")) (codes "P"))
    ≡ failed embedded_config
unfolding codes after_prefix
extract_early_end_example =
    extract_early_end (λ s. none) (codes "E") (codes "A") (codes "B") (codes "P") (refl, tt)
      (refl, tt) refl

extract-no_config_example :
    (extract identity text ≡ failed no_config)
    ↔ ((before after : Bytes) → text ≢ before ++ (start_marker ++ after))
extract-no_config_example = extract-no_config identity text
