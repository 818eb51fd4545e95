-- ===== src/Builder/Run/OnlyTested.antt =====
-- A run of the builder whose kernel does not pass leaves `--out` alone.
use ossein_kernel.Base.{Bytes, Option, codes, ◌++◌, ◌≢◌, ◌⊎◌}
use ossein_kernel.Paths.{join_path}
use ossein_kernel.System.{M}
use ossein_kernel.System.Frame.{Frame}
use ossein_kernel.Tar.{TarStream}
use ossein_kernel.Vm.{VmConfig}
use ossein_kernel.Builder.Boot.{smoke_config}
use ossein_kernel.Builder.Guest.Frames.{LeavesAlone, NeverPasses}
use ossein_kernel.Builder.Toolchain.Extract.{prepare_llvm}
use ossein_kernel.Builder.Promote.{script_in, status_file_in}
use ossein_kernel.Builder.Promote.OnlyTested.{WritesOnly}
use ossein_kernel.Builder.Run.{
  Around, RunConfig, disk_config, llvm_config, seed_config, smoke_dir_of, workdir_of,
}
use ossein_kernel.Builder.Run.Seed.{IsNoSeed}
use ossein_kernel.Builder.Run.Frames.{IsNoDisk}
use ossein_kernel.Builder.Stage.{source_tarball}
use ossein_kernel.Builder.Workdir.Frames.{IsUnstaged}

-- The machine of the boot test never passes, or that of the build never does, whatever the guests
-- leave.
abbrev pub IsUntested : Around → RunConfig → Type 0
IsUntested a cfg =
    ((root : Bytes)
      → NeverPasses a.works
          (smoke_config (join_path (workdir_of cfg) (codes "kernel-arm64")) root (smoke_dir_of cfg))
          a.smoke_vm (smoke_dir_of cfg))
    ⊎ ((c : VmConfig) → NeverPasses a.works c a.build_vm (workdir_of cfg))

-- `p` is none of the files below the scratch directory that a run writes, and the preparation of the
-- toolchain and the guests leave it alone.
pub record IsElsewhere (sha256 : Bytes → Bytes) (unxz : Bytes → Option TarStream)
    (write_file : Bytes → Bytes → M (Unit {0})) (only : WritesOnly write_file) (a : Around)
    (cfg : RunConfig) (p : Bytes) : Type 0 where
  pub seed : (out : Bytes) → IsNoSeed p (seed_config cfg out)
  pub disk : IsNoDisk write_file only p (disk_config cfg)
  pub staged : IsUnstaged a.taken write_file only p cfg.inputs (workdir_of cfg)
  pub source : source_tarball (workdir_of cfg) cfg.build ≢ p
  pub source_part : source_tarball (workdir_of cfg) cfg.build ++ codes ".part" ≢ p
  pub llvm : Frame p (prepare_llvm sha256 unxz a.taken write_file a.llvm_net (llvm_config cfg))
  pub guest : LeavesAlone p a.build_vm
  pub smoke_guest : LeavesAlone p a.smoke_vm
  pub smoke_status : status_file_in write_file (smoke_dir_of cfg) ≢ p
  pub smoke_script : script_in write_file (smoke_dir_of cfg) ≢ p
