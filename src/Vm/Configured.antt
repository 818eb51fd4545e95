-- ===== src/Vm/Configured.antt =====
-- What `New` makes of a configuration.
use mathlib.Core.Path.{subst}
use ossein_kernel.Base.{
  Bool, List, Option, [], ap, append-nil, append_assoc, false, if◌then◌else◌, none, refl, some, sym,
  true, ℕ, ◌++◌, ◌∷◌, ◌≡◌,
}
use ossein_kernel.Vm.Refusals.{Builds, Builds-bind, after_calls-Builds}
use ossein_kernel.Vm.{
  Machine, Share, VmConfig, Vz, VzCall, after_calls, bare_machine, block_device, built, cmdline,
  configure_console, configure_nat, configure_network, configure_shares, configure_storage,
  console_calls, console_device, disk_image_attachment, entropy_device, file_system_device,
  linux_boot_loader, machine_configuration, nat_attachment, network_device, new_vm, open_null_read,
  open_null_write, serial_port_attachment, share_calls, share_devices, shared_directory,
  single_directory_share, validate, virtual_machine,
}

-- The machine that a configuration asks for: the root disk is its only disk and cannot be written.
abbrev pub asked_for : VmConfig → Machine
asked_for cfg = record {
  boot_kernel = cfg.kernel;
  boot_cmdline = cmdline cfg;
  machine_cpus = cfg.cpus;
  machine_memory = cfg.memory;
  disks = (cfg.root_disk, true) ∷ [];
  consoles = cfg.console ∷ [];
  entropy_devices = 1;
  nat_devices = if cfg.network then 1 else 0;
  shared = cfg.shares;
}

abbrev calls_of_shares : List Share → List VzCall
calls_of_shares [] = []
calls_of_shares (s ∷ ss) =
    (file_system_device s.tag
      ∷ shared_directory s.host_dir s.read_only
      ∷ single_directory_share s.host_dir
      ∷ [])
    ++ calls_of_shares ss

abbrev console_devices : Option ℕ → List VzCall
console_devices none =
    open_null_write ∷ open_null_read ∷ serial_port_attachment none ∷ console_device ∷ []
console_devices (some file) =
    open_null_read ∷ serial_port_attachment (some file) ∷ console_device ∷ []

-- The calls of vz that a configuration asks for, in order.
abbrev pub asked_calls : VmConfig → List VzCall
asked_calls cfg =
    (linux_boot_loader cfg.kernel (cmdline cfg)
      ∷ machine_configuration cfg.cpus cfg.memory
      ∷ disk_image_attachment cfg.root_disk true
      ∷ block_device
      ∷ [])
    ++ console_devices cfg.console
    ++ (entropy_device ∷ [])
    ++ (if cfg.network then nat_attachment ∷ network_device ∷ [] else [])
    ++ calls_of_shares cfg.shares
    ++ (validate ∷ virtual_machine ∷ [])

-- The first of them: those up to the disk, and those up to the console and the entropy device.
abbrev disk_calls : VmConfig → List VzCall
disk_calls cfg =
    linux_boot_loader cfg.kernel (cmdline cfg)
    ∷ machine_configuration cfg.cpus cfg.memory
    ∷ disk_image_attachment cfg.root_disk true
    ∷ block_device
    ∷ []

abbrev entropy_calls : VmConfig → List VzCall
entropy_calls cfg = disk_calls cfg ++ console_devices cfg.console ++ (entropy_device ∷ [])

console_calls-Builds :
    (works : Vz) (file : Option ℕ) (m : Machine)
    → Builds works (console_devices file) m (after_calls works (console_calls file) m)
console_calls-Builds works none m = after_calls-Builds works (console_calls none) m
console_calls-Builds works (some file) m = after_calls-Builds works (console_calls (some file)) m

abbrev network_calls : Bool → List VzCall
network_calls b = if b then nat_attachment ∷ network_device ∷ [] else []

configure_network-Builds :
    (works : Vz) (b : Bool) (m : Machine)
    → m.nat_devices ≡ 0
    → Builds works
        (network_calls b)
        (record m { nat_devices = if b then 1 else 0 })
        (configure_network works b m)
unfolding configure_nat
configure_network-Builds works true m e =
    after_calls-Builds works (nat_attachment ∷ network_device ∷ []) (record m { nat_devices = 1 })
configure_network-Builds works false m e = (ap (λ n. record m { nat_devices = n }) e, tt)

share_devices-Builds :
    (works : Vz) (ss made : List Share)
    → Builds works (calls_of_shares ss) (made ++ ss) (share_devices works ss made)
unfolding share_devices
share_devices-Builds works [] made = (sym (append-nil made), tt)
share_devices-Builds works (s ∷ ss) made =
    Builds-bind works (share_calls s) (calls_of_shares ss) (made ++ s ∷ []) (made ++ s ∷ ss)
      (after_calls works (share_calls s) (made ++ s ∷ [])) (share_devices works ss)
      (after_calls-Builds works (share_calls s) (made ++ s ∷ []))
      (subst (λ l. Builds works (calls_of_shares ss) l (share_devices works ss (made ++ s ∷ [])))
        (append_assoc made (s ∷ []) ss) (share_devices-Builds works ss (made ++ s ∷ [])))

configure_shares-Builds :
    (works : Vz) (ss : List Share) (m : Machine)
    → m.shared ≡ []
    → Builds works (calls_of_shares ss) (record m { shared = ss }) (configure_shares works ss m)
unfolding configure_shares
configure_shares-Builds works [] m e = (ap (λ l. record m { shared = l }) e, tt)
configure_shares-Builds works (s ∷ ss) m e =
    subst (λ cs. Builds works cs (record m { shared = s ∷ ss }) (configure_shares works (s ∷ ss) m))
      (append-nil (calls_of_shares (s ∷ ss)))
      (Builds-bind works (calls_of_shares (s ∷ ss)) [] (s ∷ ss) (record m { shared = s ∷ ss })
        (share_devices works (s ∷ ss) []) (λ made. built (record m { shared = made }))
        (share_devices-Builds works (s ∷ ss) []) (refl, tt))

abbrev with_disk : VmConfig → Machine
with_disk cfg = record (bare_machine cfg) { disks = (cfg.root_disk, true) ∷ [] }

abbrev with_console : VmConfig → Machine
with_console cfg = record (with_disk cfg) { consoles = cfg.console ∷ [] }

abbrev with_entropy : VmConfig → Machine
with_entropy cfg = record (with_console cfg) { entropy_devices = 1 }

abbrev with_network : VmConfig → Machine
with_network cfg = record (with_entropy cfg) { nat_devices = if cfg.network then 1 else 0 }

-- `New` makes the calls that the configuration asks for, validation last but one, and gives the machine
-- that it asks for, with the root disk as its only disk and read-only, if all of them work; otherwise
-- it fails with the first that does not.
pub new_vm-Builds :
    (works : Vz) (cfg : VmConfig)
    → Builds works (asked_calls cfg) (asked_for cfg) (new_vm works cfg)
unfolding new_vm configure_storage configure_console
new_vm-Builds works cfg =
    Builds-bind works (entropy_calls cfg ++ network_calls cfg.network ++ calls_of_shares cfg.shares)
      (validate ∷ virtual_machine ∷ []) (asked_for cfg) (asked_for cfg) _ _
      (Builds-bind works (entropy_calls cfg ++ network_calls cfg.network)
        (calls_of_shares cfg.shares) (with_network cfg) (asked_for cfg) _ _
        (Builds-bind works (entropy_calls cfg) (network_calls cfg.network) (with_entropy cfg)
          (with_network cfg) _ _
          (Builds-bind works (disk_calls cfg ++ console_devices cfg.console) (entropy_device ∷ [])
            (with_console cfg) (with_entropy cfg) _ _
            (Builds-bind works (disk_calls cfg) (console_devices cfg.console) (with_disk cfg)
              (with_console cfg) _ _
              (Builds-bind works
                (linux_boot_loader cfg.kernel (cmdline cfg)
                  ∷ machine_configuration cfg.cpus cfg.memory
                  ∷ [])
                (disk_image_attachment cfg.root_disk true ∷ block_device ∷ []) (bare_machine cfg)
                (with_disk cfg) _ _ (after_calls-Builds works _ (bare_machine cfg))
                (after_calls-Builds works _ (with_disk cfg)))
              (console_calls-Builds works cfg.console (with_console cfg)))
            (after_calls-Builds works (entropy_device ∷ []) (with_entropy cfg)))
          (configure_network-Builds works cfg.network (with_entropy cfg) refl))
        (configure_shares-Builds works cfg.shares (with_network cfg) refl))
      (after_calls-Builds works (validate ∷ virtual_machine ∷ []) (asked_for cfg))
