-- ===== src/Builder/Promote.antt =====
-- `smokeTest`, `promote`, `copyFile` and `copyExecutable` of cmd/ossein-kernel/main.go. `WriteFile` of
-- the library primordium is a parameter, and so is what happens in the machine of the test.
pub mod OnlyTested
pub mod Copying
pub mod Promoted
pub mod Irregular
use ossein_kernel.Base.{Bytes, Option, codes, none, some, ℕ}
use ossein_kernel.Paths.{dir, join_path}
use ossein_kernel.System.{
  Error, M, Node, catch, chmod, mkdir_all, no_perf, no_vmlinux, pure, read_error, read_file,
  regular, remove, smoke_failed, stat, stat_error, symlink, throw, ◌>>=◌, ◌>>◌,
}
use ossein_kernel.Vm.{Vz}
use ossein_kernel.Builder.Boot.{Verdict, passed, smoke_config}
use ossein_kernel.Builder.Guest.{GuestVm, boot_guest}

abbrev pub expect_passed : Verdict → M (Unit {0})
expect_passed passed = pure tt
expect_passed _ = throw smoke_failed

abbrev pub smoke_script : Bytes
smoke_script =
    codes "#!/bin/bash\nset -e\necho \"smoke: kernel $(uname -r) booted; userland OK\"\nexit 0\n"

abbrev pub expect_found : Error → Option Node → M Node
expect_found e none = throw e
expect_found e (some file) = pure file

abbrev pub mode_of : Node → ℕ
mode_of (regular s mode) = mode
mode_of (symlink link) = 0o777

module _ (write_file : Bytes → Bytes → M (Unit {0})) where
  unfoldable pub copy_file : Bytes → Bytes → M (Unit {0})
  copy_file src dst = read_file read_error src >>= λ s. mkdir_all (dir dst) >> write_file dst s

  unfoldable pub copy_executable : Bytes → Bytes → M (Unit {0})
  copy_executable src dst =
      stat src >>= expect_found stat_error >>= λ file. copy_file src dst >> chmod dst (mode_of file)

  abbrev pub status_file_in : Bytes → Bytes
  status_file_in share = join_path share (codes "status")

  abbrev pub script_in : Bytes → Bytes
  script_in share = join_path share (codes "build.sh")

  module _ (vz : Vz) (vm : GuestVm) where
    -- The test that the kernel boots.
    unfoldable pub smoke_test : Bytes → Bytes → Bytes → M (Unit {0})
    smoke_test kernel_path root_image smoke_dir =
        mkdir_all smoke_dir
        >> catch (remove (status_file_in smoke_dir)) (λ _. pure tt)
        >> write_file (script_in smoke_dir) smoke_script
        >> (boot_guest vz (smoke_config kernel_path root_image smoke_dir) vm smoke_dir
            >>= expect_passed)

    unfoldable pub promote : Bytes → Bytes → Bytes → Bytes → M (Unit {0})
    promote workdir out root_image smoke_dir =
        (stat (join_path workdir (codes "kernel-arm64")) >>= expect_found no_vmlinux) >>= λ _.
        smoke_test (join_path workdir (codes "kernel-arm64")) root_image smoke_dir >>= λ _.
        copy_file (join_path workdir (codes "kernel-arm64")) out
        >> (stat (join_path workdir (codes "perf-arm64")) >>= expect_found no_perf)
        >>= λ _.
            copy_executable (join_path workdir (codes "perf-arm64"))
              (join_path (dir out) (codes "perf-arm64"))
