-- ===== src/Builder/Promote/OnlyTested.antt =====
-- `--out` is replaced only by a kernel that passed its boot test.
use ossein_kernel.Base.{Bytes, Option, none, some, ◌≢◌}
use ossein_kernel.System.{Error, M, Node, pure, smoke_failed}
use ossein_kernel.System.Frame.{
  Frame, Frame-bind, Frame-catch, Frame-pure, Frame-throw, mkdir_all-Frame, remove-Frame, ◌then◌,
}
use ossein_kernel.Builder.Boot.{
  Verdict, boot_failure, config_refused, exited_with, passed, smoke_config,
}
use ossein_kernel.Vm.{Vz}
use ossein_kernel.Builder.Guest.{GuestVm}
use ossein_kernel.Builder.Guest.Frames.{LeavesAlone, boot_guest-Frame}
use ossein_kernel.Builder.Promote.{
  expect_found, expect_passed, script_in, smoke_script, smoke_test, status_file_in,
}

expect_passed-Frame : (v : Verdict) (p : Bytes) → Frame p (expect_passed v)
expect_passed-Frame passed p = Frame-pure p tt
expect_passed-Frame (exited_with n) p = Frame-throw p smoke_failed
expect_passed-Frame (boot_failure b) p = Frame-throw p smoke_failed
expect_passed-Frame (config_refused c) p = Frame-throw p smoke_failed

pub expect_found-Frame : (e : Error) (o : Option Node) (p : Bytes) → Frame p (expect_found e o)
expect_found-Frame e none p = Frame-throw p e
expect_found-Frame e (some file) p = Frame-pure p file

-- `WriteFile` changes no file but the one that it is given.
abbrev pub WritesOnly : (Bytes → Bytes → M (Unit {0})) → Type 0
WritesOnly write_file = (path text p : Bytes) → path ≢ p → Frame p (write_file path text)

module _ (write_file : Bytes → Bytes → M (Unit {0})) (writes : WritesOnly write_file) (vz : Vz)
    (vm : GuestVm) where
  pub smoke_test-Frame :
      (kernel_path root smoke_dir p : Bytes)
      → LeavesAlone p vm
      → status_file_in write_file smoke_dir ≢ p
      → script_in write_file smoke_dir ≢ p
      → Frame p (smoke_test write_file vz vm kernel_path root smoke_dir)
  unfolding smoke_test
  smoke_test-Frame kernel_path root smoke_dir p alone hs hb =
      mkdir_all-Frame smoke_dir p
      then Frame-catch (λ _. pure tt) (remove-Frame (status_file_in write_file smoke_dir) p hs)
          (λ _. Frame-pure p tt)
      then writes (script_in write_file smoke_dir) smoke_script p hb
      then Frame-bind expect_passed
          (boot_guest-Frame p vz (smoke_config kernel_path root smoke_dir) vm smoke_dir alone)
          (λ v. expect_passed-Frame v p)
