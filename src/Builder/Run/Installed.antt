-- ===== src/Builder/Run/Installed.antt =====
-- A run of the builder that returns no error has installed the kernel that its guest built.
use ossein_kernel.Base.{Bytes, Option, codes, some, ℕ, ◌≡◌}
use ossein_kernel.Paths.{join_path}
use ossein_kernel.System.{M, System, regular}
use ossein_kernel.System.Triples.{Files, Holds}
use ossein_kernel.Tar.{TarStream}
use ossein_kernel.Vm.{VmConfig}
use ossein_kernel.Builder.Boot.{Verdict, boot_and_pass, build_config, passed}
use ossein_kernel.Builder.Guest.{events_after}
use ossein_kernel.Builder.Promote.{promote}
use ossein_kernel.Builder.Promote.OnlyTested.{WritesOnly}
use ossein_kernel.Builder.Promote.Promoted.{IsKept, Tested}
use ossein_kernel.Builder.Toolchain.Stamped.{WritesWhole}
use ossein_kernel.Builder.Run.{Around, RunConfig, smoke_dir_of, workdir_of}

abbrev Any : Files → Type 0
Any fs = Unit

module _ (sha256 : Bytes → Bytes) (unzstd unxz : Bytes → Option TarStream)
    (write_file : Bytes → Bytes → M (Unit {0})) (only : WritesOnly write_file)
    (whole : WritesWhole write_file) (a : Around) (cfg : RunConfig) (out : Bytes) where
  abbrev kernel : Bytes
  kernel = join_path (workdir_of cfg) (codes "kernel-arm64")

  -- The machine of the build gave this verdict, and left these files.
  record BuiltWith (vm_config : VmConfig) (v : Verdict) (fs : Files) : Type 0 where
    built_at : System
    gave : boot_and_pass a.works vm_config (events_after a.build_vm (workdir_of cfg) built_at) ≡ v
    left : built_at.files ≡ fs

  -- The machine of the build passed and left this kernel, the machine of the boot test passed with it
  -- in place, and it is what `--out` holds.
  pub record Installed (fs : Files) : Type 0 where
    pub bootstrap : Bytes
    pub root : Bytes
    pub llvm : Bytes
    pub text : Bytes
    pub mode : ℕ
    pub built_at : System
    pub build_passed :
        boot_and_pass a.works
          (build_config a.cpus bootstrap root (workdir_of cfg) llvm)
          (events_after a.build_vm (workdir_of cfg) built_at)
        ≡ passed
    pub kernel_left :
        built_at.files (join_path (workdir_of cfg) (codes "kernel-arm64"))
        ≡ some (regular text mode)
    pub tested :
        Tested write_file only whole a.works a.smoke_vm
          (workdir_of cfg)
          out
          root
          (smoke_dir_of cfg)
          text
          mode
          passed
    pub holds : Holds text (fs out)

  -- The kernel is none of the files that the promotion writes.
  abbrev pub AlwaysKept : Type 0
  AlwaysKept =
      (root text : Bytes) (mode : ℕ)
      → IsKept write_file only whole a.works a.smoke_vm (workdir_of cfg) out root (smoke_dir_of cfg)
          text mode

  module _ (kept : AlwaysKept) (bootstrap root llvm : Bytes) where
    abbrev promotion : M (Unit {0})
    promotion = promote write_file a.works a.smoke_vm (workdir_of cfg) out root (smoke_dir_of cfg)
