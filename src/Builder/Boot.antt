-- ===== src/Builder/Boot.antt =====
-- Booting a machine and what it leaves: `boot`, `readStatus`, `buildKernel` and `smokeTest` of
-- cmd/ossein-kernel/main.go.
pub mod Outcome
use ossein_kernel.Base.{
  Bool, Bytes, List, Option, [], codes, false, if◌then◌else◌, leb, none, some, true, zero, ℕ, ◌*◌,
  ◌-◌, ◌∷◌,
}
use ossein_kernel.Numbers.{atoi, pos, ℤ}
use ossein_kernel.Strings.{trim_space}
use ossein_kernel.Vm.{Built, Machine, Share, VmConfig, Vz, VzCall, built, new_vm, refused}
use ossein_kernel.Vm.Loops.{
  StartEvent, Started, VmState, WaitEvent, Waited, is_stopped, not_started, powered_off, run_error,
  start_loop, started, starting_on, stop, wait_cancelled, wait_loop, waiting_on,
}

pub data GuestStatus : Type 0 where
  status_code : ℤ → GuestStatus
  no_status parse_status : GuestStatus

abbrev pub parsed : Option ℤ → GuestStatus
parsed none = parse_status
parsed (some n) = status_code n

abbrev pub status_in : Bytes → GuestStatus
status_in [] = no_status
status_in (c ∷ s) = parsed (atoi (c ∷ s))

-- `readStatus`, given the contents of the file if it can be read.
unfoldable pub read_status : Option Bytes → GuestStatus
read_status none = no_status
read_status (some s) = status_in (trim_space s)

-- What happens to a machine that is booted: whether vz starts it, what it reports, the status file
-- after it, and the state in which it is found when `boot` ends.
pub record VmRun : Type 0 where
  pub starts : Bool
  pub start_events : List StartEvent
  pub wait_events : List WaitEvent
  pub status_file : Option Bytes
  pub last_state : VmState
  pub can_stop : Bool

pub data BootResult : Type 0 where
  guest_status : GuestStatus → BootResult
  start_failure wait_failure : BootResult
  -- `boot` has not returned
  pending : BootResult

abbrev pub after_wait : VmRun → Waited → BootResult
after_wait r powered_off = guest_status (read_status r.status_file)
after_wait r run_error = wait_failure
after_wait r (wait_cancelled told) = wait_failure
after_wait r waiting_on = pending

abbrev pub after_start : VmRun → Started → BootResult
after_start r started = after_wait r (wait_loop r.wait_events)
after_start r (not_started s) = start_failure
after_start r starting_on = pending

-- `Start`
abbrev pub start : VmRun → Started
start r = if r.starts then start_loop r.start_events else not_started is_stopped

unfoldable pub boot : VmRun → BootResult
boot r = after_start r (start r)

abbrev pub started_deferred : VmRun → Started → Bool
started_deferred r started = stop r.last_state r.can_stop
started_deferred r _ = false

-- The deferred `Stop`: whether it tells the machine to stop.
unfoldable pub boot_stops : VmRun → Bool
boot_stops r = started_deferred r (start r)

abbrev pub init_guest_path : Bytes
init_guest_path = codes "/ossein-init"

abbrev pub spare_cpus : ℕ → ℕ
spare_cpus cpus = if leb cpus 2 then 1 else cpus - 1

abbrev pub build_vm_memory : ℕ
build_vm_memory = 8 * 0x40000000

abbrev pub smoke_test_memory : ℕ
smoke_test_memory = 0x40000000

abbrev pub share_of : Bytes → Bytes → Bool → Share
share_of tag dir read_only = record { tag = tag; host_dir = dir; read_only = read_only }

-- The machine of `buildKernel`.
abbrev pub build_config : ℕ → Bytes → Bytes → Bytes → Bytes → VmConfig
build_config cpus bootstrap root_image workdir llvm_dir = record {
  kernel = bootstrap;
  root_disk = root_image;
  init = init_guest_path;
  cpus = spare_cpus cpus;
  memory = build_vm_memory;
  extra = codes "ossein.net=1" ∷ codes "ossein.llvm=1" ∷ [];
  shares = share_of (codes "kernel") workdir false ∷ share_of (codes "llvm") llvm_dir true ∷ [];
  network = true;
  console = some 1;
}

-- The machine of `smokeTest`.
abbrev pub smoke_config : Bytes → Bytes → Bytes → VmConfig
smoke_config kernel_path root_image smoke_dir = record {
  kernel = kernel_path;
  root_disk = root_image;
  init = init_guest_path;
  cpus = 1;
  memory = smoke_test_memory;
  extra = [];
  shares = share_of (codes "kernel") smoke_dir false ∷ [];
  network = false;
  console = some 1;
}

pub data Verdict : Type 0 where
  passed : Verdict
  exited_with : ℤ → Verdict
  boot_failure : BootResult → Verdict
  config_refused : VzCall → Verdict

abbrev pub verdict_of : BootResult → Verdict
verdict_of (guest_status (status_code (pos zero))) = passed
verdict_of (guest_status (status_code n)) = exited_with n
verdict_of r = boot_failure r

abbrev pub judged : VmRun → Built Machine → Verdict
judged r (refused c) = config_refused c
judged r (built m) = verdict_of (boot r)

-- A machine is configured, booted, and has to end with 0: what `buildKernel` and `smokeTest` do.
unfoldable pub boot_and_pass : Vz → VmConfig → VmRun → Verdict
boot_and_pass works cfg r = judged r (new_vm works cfg)
