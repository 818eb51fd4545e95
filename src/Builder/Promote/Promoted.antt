-- ===== src/Builder/Promote/Promoted.antt =====
-- A promotion that succeeds promotes the kernel that was tested.
use ossein_kernel.Base.{Bytes, codes, some, ℕ, ◌≡◌, ◌≢◌}
use ossein_kernel.Paths.{dir, join_path}
use ossein_kernel.System.{M, System, regular}
use ossein_kernel.System.Frame.{Frame}
use ossein_kernel.System.Triples.{Files}
use ossein_kernel.Vm.{VmConfig, Vz}
use ossein_kernel.Builder.Boot.{Verdict, boot_and_pass, smoke_config}
use ossein_kernel.Builder.Guest.{GuestVm, events_after}
use ossein_kernel.Builder.Guest.Frames.{LeavesAlone}
use ossein_kernel.Builder.Promote.{script_in, status_file_in}
use ossein_kernel.Builder.Promote.OnlyTested.{WritesOnly}
use ossein_kernel.Builder.Toolchain.Stamped.{WritesWhole}

module _ (write_file : Bytes → Bytes → M (Unit {0})) (only : WritesOnly write_file)
    (whole : WritesWhole write_file) (vz : Vz) (vm : GuestVm)
    (workdir out root smoke_dir text : Bytes) (mode : ℕ) where
  abbrev kernel : Bytes
  kernel = join_path workdir (codes "kernel-arm64")

  abbrev Built : Files → Type 0
  Built fs = fs kernel ≡ some (regular text mode)

  abbrev Any : Files → Type 0
  Any fs = Unit

  -- The kernel that was built is none of the files that the promotion writes.
  pub record IsKept : Type 0 where
    pub status : status_file_in write_file smoke_dir ≢ join_path workdir (codes "kernel-arm64")
    pub script : script_in write_file smoke_dir ≢ join_path workdir (codes "kernel-arm64")
    pub target : out ≢ join_path workdir (codes "kernel-arm64")
    pub perf : join_path (dir out) (codes "perf-arm64") ≢ join_path workdir (codes "kernel-arm64")
    pub guest : LeavesAlone (join_path workdir (codes "kernel-arm64")) vm
    pub beside : join_path (dir out) (codes "perf-arm64") ≢ out

  abbrev test_config : VmConfig
  test_config = smoke_config kernel root smoke_dir

  -- A run of the boot test gave this verdict, with the kernel that was built in place.
  pub record Tested (v : Verdict) : Type 0 where
    pub tested_at : System
    pub gave :
        boot_and_pass vz
          (smoke_config (join_path workdir (codes "kernel-arm64")) root smoke_dir)
          (events_after vm smoke_dir tested_at)
        ≡ v
    pub kernel_there :
        tested_at.files (join_path workdir (codes "kernel-arm64")) ≡ some (regular text mode)
