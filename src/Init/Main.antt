-- ===== src/Init/Main.antt =====
-- `main` and `run`, cmd/ossein-kernel/init/main.go.
use ossein_kernel.Base.{Bytes, Option, [], codes, none, some, zero, ◌∷◌}
use ossein_kernel.Init.{Failure, History, M, Result, World, err, ok, power_off, ◌>>=◌, ◌>>◌}
use ossein_kernel.Init.Mounts.{cmdline_has, mount_base, mount_shares, setup_overlay_root, when}
use ossein_kernel.Init.Network.{bring_up_network}
use ossein_kernel.Init.Build.{run_build}
use ossein_kernel.Init.Status.{write_status}
use ossein_kernel.Numbers.{pos, ℤ}

abbrev pub init_failed_status : ℤ
init_failed_status = pos 254

abbrev pub net_token : Bytes
net_token = codes "ossein.net=1"

unfoldable pub set_up : M (Unit {0})
set_up =
    setup_overlay_root
    >> mount_base
    >> mount_shares
    >> (cmdline_has net_token >>= λ declared. when declared bring_up_network)

-- What `run` returns: every error comes with the status of a failed init.
pub record Outcome : Type 0 where
  pub code : ℤ
  pub error : Option Failure

abbrev pub outcome_of : Result ℤ → Outcome
outcome_of (ok n) = record { code = n; error = none }
outcome_of (err e) = record { code = init_failed_status; error = some e }

unfoldable pub run_init : World → Outcome × History
run_init w = let r = (set_up >> run_build) w [] in (outcome_of r.0, r.1)

abbrev pub nonzero : ℤ → ℤ
nonzero (pos zero) = init_failed_status
nonzero n = n

abbrev pub status_of : ℤ → Option Failure → ℤ
status_of n none = n
status_of n (some e) = nonzero n

-- The status that `main` records.
unfoldable pub recorded : World → ℤ
recorded w = let r = (run_init w).0 in status_of r.code r.error

-- The calls that the init makes, to the end.
unfoldable pub init_main : World → History
init_main w = power_off ∷ (write_status (recorded w) w (run_init w).1).1
