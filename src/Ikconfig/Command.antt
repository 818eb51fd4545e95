-- ===== src/Ikconfig/Command.antt =====
-- cmd/ikconfig/main.go: the three subcommands. The files are a parameter, what reading each path
-- gives, and so are the image decoder of Extract and whether standard output takes a write.
pub mod GoldenRoundTrip
use ossein_kernel.Base.{
  Bool, Bytes, List, Option, [], codes, if◌then◌else◌, none, some, ℕ, ◌++◌, ◌∷◌,
}
use ossein_kernel.Strings.{join, split, trim_suffix}
use ossein_kernel.Ikconfig.Extract.{ExtractError, extract, extracted, failed}
use ossein_kernel.Ikconfig.Config.{Config, newline, parse}
use ossein_kernel.Ikconfig.Verify.{Line, Section, verify}

-- `os.ReadFile`
pub data Read : Type 0 where
  contents : Bytes → Read
  not_exist : Read
  read_error : Read

pub data CommandError : Type 0 where
  read_image : CommandError
  extract_error : ExtractError → CommandError
  empty_config : CommandError
  read_golden : CommandError
  drift_error : CommandError
  write_error : CommandError

-- What a run of a subcommand printed, and its error. `main` exits with 1 on an error, 0 on nil.
pub record Run : Type 0 where
  pub report : List Line
  pub stdout : List Bytes
  pub error : Option CommandError

abbrev pub exit_status : Run → ℕ
exit_status r = elim r.error [ none ↦ 0 | some e ↦ 1 ]

pub data Embedded : Type 0 where
  config_of : Bytes → Embedded
  no_embedded : CommandError → Embedded

pub data Golden : Type 0 where
  golden_of : Option (List Bytes) → Golden
  golden_error : CommandError → Golden

abbrev pub trailing_newline : Bytes
trailing_newline = newline ∷ []

abbrev pub verdict : Bytes
verdict = codes "\nconfig OK: every intended decision survived, and no unexpected symbol drift.\n"

-- What `goldenCmd.Run` writes for a configuration.
unfoldable pub golden_output : Config → Bytes
golden_output config = join config.golden newline ++ trailing_newline

-- `strings.Split(strings.TrimSuffix(string(data), "\n"), "\n")`
unfoldable pub split_golden : Bytes → List Bytes
split_golden text = split (trim_suffix text trailing_newline) newline

-- The check of `embedded` behind `Extract`.
abbrev pub nonempty_config : Bytes → Embedded
nonempty_config [] = no_embedded empty_config
nonempty_config (c ∷ config) = config_of (c ∷ config)

module _ (gunzip : Bytes → Option Bytes) (read_file : Bytes → Read) (stdout_works : Bool) where
  unfoldable pub embedded : Bytes → Embedded
  embedded path = elim (read_file path) [
    | not_exist ↦ no_embedded read_image
    | read_error ↦ no_embedded read_image
    | contents image ↦ elim (extract gunzip image) [
      | failed e ↦ no_embedded (extract_error e)
      | extracted config ↦ nonempty_config config
    ]
  ]

  -- `goldenLines`; the path "" stands for a flag that is not given.
  unfoldable pub golden_lines : Bytes → Golden
  unfolding split_golden
  golden_lines [] = golden_of none
  golden_lines (c ∷ path) = elim (read_file (c ∷ path)) [
    | not_exist ↦ golden_of none
    | read_error ↦ golden_error read_golden
    | contents text ↦ golden_of (some (split_golden text))
  ]

  -- `write`, the last step of each subcommand.
  abbrev pub write : List Line → Bytes → Run
  write report text =
      if stdout_works
      then record { report = report; stdout = text ∷ []; error = none }
      else record { report = report; stdout = []; error = some write_error }

  abbrev pub fails : List Line → CommandError → Run
  fails report e = record { report = report; stdout = []; error = some e }

  -- `extractCmd.Run`
  unfoldable pub run_extract : Bytes → Run
  unfolding embedded
  run_extract image = elim (embedded image) [
    | no_embedded e ↦ fails [] e
    | config_of config ↦ write [] config
  ]

  -- `goldenCmd.Run`
  unfoldable pub run_golden : Bytes → Run
  unfolding embedded golden_output
  run_golden image = elim (embedded image) [
    | no_embedded e ↦ fails [] e
    | config_of config ↦ write [] (golden_output (parse config))
  ]

  -- `verifyCmd.Run` under a policy; the program runs it under the shipped one.
  unfoldable pub run_verify : List Section → Bytes → Bytes → Run
  unfolding embedded golden_lines
  run_verify policy image golden_path = elim (embedded image) [
    | no_embedded e ↦ fails [] e
    | config_of config ↦ elim (golden_lines golden_path) [
      | golden_error e ↦ fails [] e
      | golden_of golden ↦
          let r = verify (parse config) policy golden in
          if r.held then write r.out verdict else fails r.out drift_error
    ]
  ]
