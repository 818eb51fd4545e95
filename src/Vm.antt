-- ===== src/Vm.antt =====
-- internal/vm/vm.go: the virtual machine. The library vz is not modelled: whether each of its
-- constructors works is a parameter, and the events that it reports are a list.
pub mod Refusals
pub mod Configured
pub mod CommandLine
pub mod Loops
use ossein_kernel.Base.{
  Bool, Bytes, List, Option, [], codes, false, if◌then◌else◌, none, some, true, ℕ, ◌++◌, ◌∷◌,
}
use ossein_kernel.Strings.{join}

pub record Share : Type 0 where
  pub tag : Bytes
  pub host_dir : Bytes
  pub read_only : Bool

-- The console is a file descriptor.
pub record VmConfig : Type 0 where
  pub kernel : Bytes
  pub root_disk : Bytes
  pub init : Bytes
  pub cpus : ℕ
  pub memory : ℕ
  pub extra : List Bytes
  pub shares : List Share
  pub network : Bool
  pub console : Option ℕ

abbrev pub boot_args : VmConfig → List Bytes
boot_args cfg =
    codes "console=hvc0"
    ∷ codes "panic=-1"
    ∷ codes "mitigations=off"
    ∷ codes "root=/dev/vda"
    ∷ codes "ro"
    ∷ codes "rootfstype=ext4"
    ∷ (codes "init=" ++ cfg.init)
    ∷ cfg.extra

unfoldable pub cmdline : VmConfig → Bytes
cmdline cfg = join (boot_args cfg) b' '

pub data VzCall : Type 0 where
  linux_boot_loader : Bytes → Bytes → VzCall
  machine_configuration : ℕ → ℕ → VzCall
  disk_image_attachment : Bytes → Bool → VzCall
  block_device open_null_write open_null_read : VzCall
  serial_port_attachment : Option ℕ → VzCall
  console_device entropy_device nat_attachment network_device validate virtual_machine : VzCall
  file_system_device : Bytes → VzCall
  shared_directory : Bytes → Bool → VzCall
  single_directory_share : Bytes → VzCall

abbrev pub Vz : Type 0
Vz = VzCall → Bool

-- What the configuration of a machine holds. A console without a file writes to the null device.
pub record Machine : Type 0 where
  pub boot_kernel : Bytes
  pub boot_cmdline : Bytes
  pub machine_cpus : ℕ
  pub machine_memory : ℕ
  -- the path, and whether it is read-only
  pub disks : List (Bytes × Bool)
  pub consoles : List (Option ℕ)
  pub entropy_devices : ℕ
  pub nat_devices : ℕ
  pub shared : List Share

-- The machine, or the call that failed.
pub data Built (A : Type 0) : Type 0 where
  built : A → Built A
  refused : VzCall → Built A

infixl 5 ◌>>=◌
abbrev pub ◌>>=◌ : {A B : Type 0} → Built A → (A → Built B) → Built B
◌>>=◌ (built a) f = f a
◌>>=◌ (refused c) f = refused c

-- `a` if the calls work.
unfoldable pub after_calls : {A : Type 0} → Vz → List VzCall → A → Built A
after_calls works [] a = built a
after_calls works (c ∷ cs) a =
    let rest = after_calls works cs a in if works c then rest else refused c

unfoldable pub configure_storage : Vz → VmConfig → Machine → Built Machine
configure_storage works cfg m =
    after_calls works (disk_image_attachment cfg.root_disk true ∷ block_device ∷ [])
      (record m { disks = (cfg.root_disk, true) ∷ [] })

abbrev pub console_calls : Option ℕ → List VzCall
console_calls none =
    open_null_write ∷ open_null_read ∷ serial_port_attachment none ∷ console_device ∷ []
console_calls (some file) =
    open_null_read ∷ serial_port_attachment (some file) ∷ console_device ∷ []

unfoldable pub configure_console : Vz → VmConfig → Machine → Built Machine
configure_console works cfg m =
    after_calls works (console_calls cfg.console) (record m { consoles = cfg.console ∷ [] })

unfoldable pub configure_nat : Vz → Machine → Built Machine
configure_nat works m =
    after_calls works (nat_attachment ∷ network_device ∷ []) (record m { nat_devices = 1 })

abbrev pub configure_network : Vz → Bool → Machine → Built Machine
configure_network works true m = configure_nat works m
configure_network works false m = built m

abbrev pub share_calls : Share → List VzCall
share_calls s =
    file_system_device s.tag
    ∷ shared_directory s.host_dir s.read_only
    ∷ single_directory_share s.host_dir
    ∷ []

-- The devices made so far, in order.
unfoldable pub share_devices : Vz → List Share → List Share → Built (List Share)
share_devices works [] made = built made
share_devices works (s ∷ ss) made =
    after_calls works (share_calls s) (made ++ s ∷ []) >>= share_devices works ss

unfoldable pub configure_shares : Vz → List Share → Machine → Built Machine
configure_shares works [] m = built m
configure_shares works (s ∷ ss) m =
    share_devices works (s ∷ ss) [] >>= λ made. built (record m { shared = made })

abbrev pub bare_machine : VmConfig → Machine
bare_machine cfg = record {
  boot_kernel = cfg.kernel;
  boot_cmdline = cmdline cfg;
  machine_cpus = cfg.cpus;
  machine_memory = cfg.memory;
  disks = [];
  consoles = [];
  entropy_devices = 0;
  nat_devices = 0;
  shared = [];
}

-- `New`
unfoldable pub new_vm : Vz → VmConfig → Built Machine
new_vm works cfg =
    after_calls works
      (linux_boot_loader cfg.kernel (cmdline cfg) ∷ machine_configuration cfg.cpus cfg.memory ∷ [])
      (bare_machine cfg)
    >>= configure_storage works cfg
    >>= configure_console works cfg
    >>= (λ m. after_calls works (entropy_device ∷ []) (record m { entropy_devices = 1 }))
    >>= configure_network works cfg.network
    >>= configure_shares works cfg.shares
    >>= after_calls works (validate ∷ virtual_machine ∷ [])
