-- ===== src/Tests/Guest.antt =====
-- A guest that boots, builds and powers off, and the host that boots it.
use ossein_kernel.Base.{
  Bytes, [], ap, arith, codes, equal, false, if◌then◌else◌, none, refl, some, true, ◌++◌, ◌↔◌, ◌∷◌,
  ◌≡◌, ◌≢◌,
}
use ossein_kernel.Numbers.{negsuc, pos}
use ossein_kernel.Numbers.RoundTrip.{InRange}
use ossein_kernel.Strings.{drop_empty, join, space_width, split_from}
use ossein_kernel.Strings.Fields.{NoSpace, NoSpace-of_Visible, no_space, no_space_sound}
use ossein_kernel.Init.{
  Answer, Call, Lease, Link, World, bash, busy, dhcp_request, done, exited, failed, lease,
  link_list, links, mount, not_exist, open_file, read_file, text,
}
use ossein_kernel.Init.Mounts.{
  cmdline_has, has_field, mount_base, mount_shares, mount_virtiofs, setup_overlay_root,
}
use ossein_kernel.Init.Network.{
  bring_up_network, find_ethernet, first_ethernet, resolv_lines, write_resolv_conf,
}
use ossein_kernel.Init.Build.{env_file, read_env_file, run_build}
use ossein_kernel.Init.Status.{status_text}
use ossein_kernel.Init.Main.{recorded, run_init, set_up}
use ossein_kernel.Init.Required.{◌then◌}
use ossein_kernel.Init.Required.Passed.{Passed, recorded_zero}
use ossein_kernel.Builder.Boot.{
  VmRun, boot, boot_and_pass, guest_status, init_guest_path, passed, read_status, smoke_config,
  status_code, verdict_of,
}
use ossein_kernel.Builder.Boot.Outcome.{
  LeftStatus, boot_and_pass-Passed, boot_iff, read_status-status_text,
}
use ossein_kernel.Vm.{
  VmConfig, Vz, after_calls, cmdline, configure_console, configure_nat, configure_shares,
  configure_storage, new_vm, share_devices,
}
use ossein_kernel.Vm.Loops.{
  DecidedBy, Running, changed, deadline, is_paused, is_running, is_starting, is_stopped,
  is_stopping, reported, start_loop, start_loop_iff, start_loop_returns, started, starting_on,
  wait_loop,
}
use ossein_kernel.Vm.Refusals.{Builds}
use ossein_kernel.Vm.Configured.{asked_calls, asked_for, new_vm-Builds}
use ossein_kernel.Vm.CommandLine.{Declares, cmdline_has-cmdline}

abbrev nic : Link
nic = record { name = codes "eth0"; index = 2; kind = codes "device" }

abbrev offer : Lease
offer = record {
  your_ip = codes "192.168.64.5";
  subnet_mask = none;
  routers = codes "192.168.64.1" ∷ [];
  dns = codes "192.168.64.1" ∷ [];
}

abbrev smoke_vm : VmConfig
smoke_vm = smoke_config (codes "kernel-arm64") (codes "root.ext4") (codes "smoke")

-- The kernel has mounted /dev, and no environment is staged.
abbrev answer : Bytes → Call → Answer
answer line (read_file path) = text (line ++ (b'\n' ∷ []))
answer line (open_file path) = if equal path env_file then failed not_exist else done
answer line link_list = links (nic ∷ [])
answer line dhcp_request = lease offer
answer line (bash script env dir) = exited (pos 0)
answer line (mount spec) = if equal spec.target (codes "/dev") then failed busy else done
answer line c = done

abbrev smoke_world : World
smoke_world h c = answer (cmdline smoke_vm) c

smoke_recorded : recorded smoke_world ≡ pos 0
unfolding recorded run_init set_up setup_overlay_root mount_base mount_shares mount_virtiofs
    cmdline_has split_from space_width drop_empty has_field equal codes cmdline join run_build
    read_env_file bring_up_network find_ethernet first_ethernet write_resolv_conf resolv_lines
smoke_recorded = refl

smoke_recorded_in : InRange (recorded smoke_world)
smoke_recorded_in = rw smoke_recorded (ground arith)

recorded_zero_example : Passed smoke_world (pos 0) (run_init smoke_world).1
recorded_zero_example = recorded_zero smoke_world smoke_recorded

abbrev smoke_run : VmRun
smoke_run = record {
  starts = true;
  start_events = changed is_starting ∷ changed is_running ∷ [];
  wait_events = reported is_stopping ∷ reported is_stopped ∷ [];
  status_file = some (status_text (recorded smoke_world));
  last_state = is_stopped;
  can_stop = false;
}

abbrev all_work : Vz
all_work c = true

smoke_status : read_status (some (status_text (recorded smoke_world))) ≡ status_code (pos 0)
smoke_status = rw smoke_recorded (read_status-status_text (pos 0) (ground arith))

smoke_passes : boot_and_pass all_work smoke_vm smoke_run ≡ passed
unfolding boot_and_pass new_vm after_calls configure_storage configure_console configure_nat
    configure_shares share_devices boot start_loop wait_loop
smoke_passes = ap (λ s. verdict_of (guest_status s)) smoke_status

boot_and_pass-Passed_example : Passed smoke_world (pos 0) (run_init smoke_world).1
boot_and_pass-Passed_example =
    boot_and_pass-Passed all_work smoke_vm smoke_run smoke_world smoke_recorded_in refl smoke_passes

read_status-status_text_example :
    read_status (some (status_text (negsuc 0))) ≡ status_code (negsuc 0)
read_status-status_text_example = read_status-status_text (negsuc 0) (ground arith)

boot_iff_example :
    (boot smoke_run ≡ guest_status (status_code (pos 0))) ↔ LeftStatus smoke_run (pos 0)
boot_iff_example = boot_iff smoke_run (pos 0)

start_loop_iff_example :
    (start_loop (changed is_starting ∷ deadline is_running ∷ []) ≡ started)
    ↔ DecidedBy (changed is_starting ∷ deadline is_running ∷ []) Running
start_loop_iff_example = start_loop_iff (changed is_starting ∷ deadline is_running ∷ [])

start_loop_returns_example :
    start_loop (changed is_starting ∷ deadline is_paused ∷ []) ≢ starting_on
start_loop_returns_example = start_loop_returns (changed is_starting ∷ []) is_paused []

new_vm-Builds_example :
    Builds all_work (asked_calls smoke_vm) (asked_for smoke_vm) (new_vm all_work smoke_vm)
new_vm-Builds_example = new_vm-Builds all_work smoke_vm

init_guest_path-NoSpace : NoSpace init_guest_path
unfolding codes no_space
init_guest_path-NoSpace = NoSpace-of_Visible init_guest_path (no_space_sound init_guest_path refl)

cmdline_has-cmdline_example : Declares smoke_world [] []
cmdline_has-cmdline_example =
    cmdline_has-cmdline smoke_vm smoke_world [] init_guest_path-NoSpace tt (λ h. refl)
