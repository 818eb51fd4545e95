-- ===== src/Builder/Guest.antt =====
-- A machine that is booted on a directory of the host, as `buildKernel` and `smokeTest` of
-- cmd/ossein-kernel/main.go boot theirs. What the guest writes into the directory is a parameter.
pub mod Frames
use ossein_kernel.Base.{Bytes, Option, codes, none, some, ℕ}
use ossein_kernel.Paths.{join_path}
use ossein_kernel.System.{M, Node, System, boot_failed, call, ok, regular}
use ossein_kernel.Vm.{Built, Machine, VmConfig, Vz, built, new_vm, refused}
use ossein_kernel.Builder.Boot.{Verdict, VmRun, boot_and_pass}

-- What happens to the machine, and what its guest does to the files.
pub record GuestVm : Type 0 where
  pub events : VmRun
  pub leaves : (Bytes → Option Node) → Bytes → Option Node

abbrev pub status_text_in : Option Node → Option Bytes
status_text_in (some (regular s mode)) = some s
status_text_in o = none

-- The events, with the status file as the guest leaves it in the share.
abbrev pub events_after : GuestVm → Bytes → System → VmRun
events_after vm share t = record vm.events {
  status_file = status_text_in (t.files (join_path share (codes "status")));
}

abbrev pub after_guest : GuestVm → Built Machine → System → System
after_guest vm (refused c) t = t
after_guest vm (built m) t = record t { files = vm.leaves t.files }

abbrev pub booted : Vz → VmConfig → GuestVm → Bytes → M Verdict
booted vz cfg vm share t =
    let u = after_guest vm (new_vm vz cfg) t in
    (ok (boot_and_pass vz cfg (events_after vm share u)), u)

abbrev pub cut_boot : Vz → VmConfig → GuestVm → ℕ → System → System
cut_boot vz cfg vm n t = after_guest vm (new_vm vz cfg) t

-- The machine is configured and booted, and its verdict read from the share. Where the process is
-- stopped, the guest has done its work.
unfoldable pub boot_guest : Vz → VmConfig → GuestVm → Bytes → M Verdict
boot_guest vz cfg vm share s =
    call (booted vz cfg vm share) (cut_boot vz cfg vm) boot_failed s.faults s
