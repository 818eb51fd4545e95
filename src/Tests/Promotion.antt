-- ===== src/Tests/Promotion.antt =====
-- A kernel that does not boot is not promoted.
use ossein_kernel.Base.{
  Bytes, Option, [], codes, equal, false, if◌then◌else◌, none, refl, some, true, ◌∷◌, ◌≡◌,
}
use ossein_kernel.Paths.{clean, dir, join_path}
use ossein_kernel.System.{
  M, Node, Result, System, append_file, chmod, create, file_mode, mkdir_all, ok, read_file, regular,
  remove, stat, update, ◌>>◌,
}
use ossein_kernel.System.Frame.{Frame, ◌then◌}
use ossein_kernel.Numbers.{atoi, value}
use ossein_kernel.Strings.{space_width, trim_from, trim_space_right}
use ossein_kernel.Vm.{
  Vz, after_calls, configure_console, configure_shares, configure_storage, new_vm, share_devices,
}
use ossein_kernel.Vm.Loops.{changed, is_running, is_stopped, reported, start_loop, wait_loop}
use ossein_kernel.Builder.Boot.{boot, boot_and_pass, read_status}
use ossein_kernel.Builder.Guest.{GuestVm, boot_guest}
use ossein_kernel.Builder.Promote.{copy_executable, copy_file, promote, smoke_test}

abbrev overwrite : Bytes → Bytes → M (Unit {0})
overwrite path s = create path >> append_file path s

-- A machine whose guest stops and leaves this status, and its log.
abbrev pub log_of_guest : Bytes → (Bytes → Option Node) → Bytes → Option Node
log_of_guest status fs p =
    if equal p (codes "smoke/build.log")
    then some (regular (codes "log") 0o600)
    else (if equal p (codes "smoke/status") then some (regular status 0o600) else fs p)

abbrev pub ending_with : Bytes → GuestVm
ending_with status = record {
  events = record {
    starts = true;
    start_events = changed is_running ∷ [];
    wait_events = reported is_stopped ∷ [];
    status_file = none;
    last_state = is_stopped;
    can_stop = false;
  };
  leaves = log_of_guest status;
}

-- One that vz does not start.
abbrev dead_vm : GuestVm
dead_vm = record (ending_with (codes "0")) {
  events = record (ending_with (codes "0")).events { starts = false };
}

abbrev pub all_work : Vz
all_work c = true

abbrev built_kernel : System
built_kernel = record {
  files = λ p.
      if equal p (codes "w/kernel-arm64")
      then some (regular (codes "new") 0o600)
      else (if equal p (codes "w/perf-arm64") then some (regular (codes "perf") 0o755) else none);
  faults = [];
}

abbrev after_promote : Result (Unit {0}) × System
after_promote =
    promote overwrite all_work (ending_with (codes "0")) (codes "w") (codes "o/kernel-arm64")
      (codes "r") (codes "smoke") built_kernel

promoted :
    (after_promote.0 ≡ ok tt)
    × (after_promote.1.files (codes "o/kernel-arm64") ≡ some (regular (codes "new") file_mode))
    × (after_promote.1.files (codes "o/perf-arm64") ≡ some (regular (codes "perf") 0o755))
    × (after_promote.1.files (codes "smoke/build.log") ≡ some (regular (codes "log") 0o600))
unfolding promote smoke_test copy_file copy_executable codes join_path clean dir stat read_file
    mkdir_all create append_file remove chmod update equal boot_guest boot_and_pass new_vm
    after_calls configure_storage configure_console configure_shares share_devices boot start_loop
    wait_loop read_status atoi value trim_from space_width trim_space_right
promoted = (refl, refl, refl, refl)
