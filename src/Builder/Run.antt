-- ===== src/Builder/Run.antt =====
-- `buildKernel` and `run`, cmd/ossein-kernel/main.go, which puts the parts together. What the guests
-- write into the shared directories is a parameter.
pub mod Seed
pub mod Frames
pub mod OnlyTested
pub mod Installed
use ossein_kernel.Base.{Bool, Bytes, Option, codes, none, some, ℕ}
use ossein_kernel.Paths.{join_path}
use ossein_kernel.System.{
  M, boot_failed, call, out_refused, pure, stat, stat_error, throw, untouched, ◌>>=◌, ◌>>◌,
}
use ossein_kernel.Vm.{Vz}
use ossein_kernel.Tar.{TarStream}
use ossein_kernel.Rootfs.Image.{Surroundings}
use ossein_kernel.Builder.Boot.{Verdict, build_config, passed}
use ossein_kernel.Builder.Guest.{GuestVm, boot_guest}
use ossein_kernel.Builder.Download.{Network, fetch_file}
use ossein_kernel.Builder.Seed.{SeedConfig, resolve_bootstrap}
use ossein_kernel.Builder.Disk.{DiskConfig, prepare_rootfs, root_image}
use ossein_kernel.Builder.Toolchain.Extract.{LlvmConfig, llvm_dir, prepare_llvm}
use ossein_kernel.Builder.Stage.{BuildConfig, source_tarball}
use ossein_kernel.Builder.Workdir.{Inputs, stage_workdir}
use ossein_kernel.Builder.Promote.{expect_found, promote}

abbrev pub expect_built : Verdict → M (Unit {0})
expect_built passed = pure tt
expect_built _ = throw boot_failed

unfoldable pub build_kernel : Vz → ℕ → GuestVm → Bytes → Bytes → Bytes → Bytes → M (Unit {0})
build_kernel vz cpus vm bootstrap root_image workdir llvm_dir =
    boot_guest vz (build_config cpus bootstrap root_image workdir llvm_dir) vm workdir
    >>= expect_built

-- `--out` as an absolute path, if pathcheck accepts it.
abbrev pub expect_out : Option Bytes → M Bytes
expect_out none = throw out_refused
expect_out (some out) = pure out

-- `os.Stat` of a directory.
unfoldable pub stat_directory : Bytes → M (Unit {0})
stat_directory path s = call (pure tt) untouched stat_error s.faults s

pub record RunConfig : Type 0 where
  pub scratch : Bytes
  pub init : Bytes
  pub image : Bytes
  pub kata_sha : Bytes
  pub llvm_sha : Bytes
  pub kernel_patches : Bytes
  pub inputs : Inputs
  pub build : BuildConfig

abbrev pub seed_config : RunConfig → Bytes → SeedConfig
seed_config cfg out = record { scratch = cfg.scratch; out = out; kata_sha = cfg.kata_sha }

abbrev pub disk_config : RunConfig → DiskConfig
disk_config cfg = record { scratch = cfg.scratch; image = cfg.image; init = cfg.init }

abbrev pub llvm_config : RunConfig → LlvmConfig
llvm_config cfg = record { scratch = cfg.scratch; sha = cfg.llvm_sha }

abbrev pub workdir_of : RunConfig → Bytes
workdir_of cfg = join_path cfg.scratch (codes "kernel")

abbrev pub smoke_dir_of : RunConfig → Bytes
smoke_dir_of cfg = join_path cfg.scratch (codes "smoke")

-- What a run meets.
pub record Around : Type 0 where
  pub absolute : Option Bytes
  pub seed_net : Network
  pub source_net : Network
  pub llvm_net : Network
  pub surroundings : Surroundings
  pub taken : ℕ → Bytes → Bool
  pub build_script : Bytes
  pub cpus : ℕ
  pub works : Vz
  pub build_vm : GuestVm
  pub smoke_vm : GuestVm

abbrev pub expect_inputs : RunConfig → M (Unit {0})
expect_inputs cfg = (stat cfg.init >>= expect_found stat_error) >>= λ _.
    (stat cfg.inputs.kernel_config >>= expect_found stat_error) >>= λ _.
    stat_directory cfg.kernel_patches

module _ (sha256 : Bytes → Bytes) (unzstd unxz : Bytes → Option TarStream)
    (write_file : Bytes → Bytes → M (Unit {0})) (a : Around) (cfg : RunConfig) where
  -- From the toolchain on.
  abbrev pub build_with_llvm : Bytes → Bytes → Bytes → Bytes → M (Unit {0})
  build_with_llvm out bootstrap root llvm =
      build_kernel a.works a.cpus a.build_vm bootstrap root (workdir_of cfg) llvm
      >> promote write_file a.works a.smoke_vm (workdir_of cfg) out root (smoke_dir_of cfg)

  abbrev pub stage_and_build : Bytes → Bytes → Bytes → M (Unit {0})
  stage_and_build out bootstrap root =
      stage_workdir a.taken write_file a.build_script cfg.build cfg.inputs (workdir_of cfg)
      >> fetch_file sha256 a.source_net (source_tarball (workdir_of cfg) cfg.build)
          cfg.build.source_sha
      >> prepare_llvm sha256 unxz a.taken write_file a.llvm_net (llvm_config cfg)
      >>= build_with_llvm out bootstrap root

  abbrev pub run_to : Bytes → M (Unit {0})
  run_to out =
      expect_inputs cfg
      >> resolve_bootstrap unzstd sha256 a.seed_net (seed_config cfg out)
      >>= λ bootstrap.
          prepare_rootfs sha256 a.surroundings write_file (disk_config cfg)
          >>= stage_and_build out bootstrap

  -- `run`
  unfoldable pub run_builder : M (Unit {0})
  run_builder = expect_out a.absolute >>= run_to
