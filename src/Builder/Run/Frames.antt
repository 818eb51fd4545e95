-- ===== src/Builder/Run/Frames.antt =====
-- What the preparation of the root disk and of the toolchain, and the build, leave alone.
use ossein_kernel.Base.{
  Bool, Bytes, List, Option, [], arith, codes, false, true, ℕ, ◌++◌, ◌∷◌, ◌≡◌, ◌≢◌,
}
use ossein_kernel.Paths.Inside.{IsInside}
use ossein_kernel.System.{
  Fault, M, System, at_or_under, boot_failed, fails, pure, read_error, stops, works,
}
use ossein_kernel.System.Frame.{
  Frame, Frame-bind, Frame-pure, Frame-throw, mkdir_all-Frame, read_file-Frame, remove_all-Frame,
  rename-Frame, stat-Frame, update-other, ◌then◌,
}
use ossein_kernel.Tar.{TarStream}
use ossein_kernel.Rootfs.Image.{Surroundings, build_history, image_after}
use ossein_kernel.Builder.Stamp.{is_large_as}
use ossein_kernel.Builder.Stamp.Vouching.{stamp_says-Frame}
use ossein_kernel.Builder.Download.{Network}
use ossein_kernel.Builder.Download.Fetch.{fetch_file-Frame}
use ossein_kernel.Builder.Disk.{
  DiskConfig, build_disk, build_with, cache_key, earliest, is_reusable, partial_image,
  prepare_rootfs, renew_rootfs, root_image, root_stamp, rootfs_cache_key, rootfs_for,
  rootfs_size_bytes, rootfs_unless, source_at,
}
use ossein_kernel.Builder.Promote.OnlyTested.{WritesOnly}
use ossein_kernel.Builder.Toolchain.Extract.{
  LlvmConfig, llvm_dir, llvm_stamp, llvm_tarball, llvm_unless, prepare_llvm, renew_llvm,
}
use ossein_kernel.Paths.{dotdot, stack_of}
use ossein_kernel.Vm.{Vz}
use ossein_kernel.Builder.Boot.{
  Verdict, boot_failure, build_config, config_refused, exited_with, passed,
}
use ossein_kernel.Builder.Guest.{GuestVm}
use ossein_kernel.Builder.Guest.Frames.{LeavesAlone, boot_guest-Frame}
use ossein_kernel.Builder.Toolchain.Inside.{extract_llvm-Frame}
use ossein_kernel.Builder.Run.{build_kernel, expect_built}

module _ (write_file : Bytes → Bytes → M (Unit {0})) (only : WritesOnly write_file)
    (p : Bytes) where
  -- `p` is none of the files of the root disk.
  pub record IsNoDisk (cfg : DiskConfig) : Type 0 where
    pub image : root_image cfg ≢ p
    pub partial : partial_image cfg ≢ p
    pub stamp : root_stamp cfg ≢ p

  build_with-files :
      (x : Surroundings) (init out : Bytes) (faults : List Fault) (t : System)
      → out ≢ p
      → (build_with x init out faults t).1.files p ≡ t.files p
  build_with-files x init out [] t h =
      update-other t.files out p
        (image_after x (t.files out)
          (build_history x (source_at x init (t.files init)) rootfs_size_bytes))
        h
  build_with-files x init out (works ∷ rest) t h =
      update-other t.files out p
        (image_after x (t.files out)
          (build_history x (source_at x init (t.files init)) rootfs_size_bytes))
        h
  build_with-files x init out (fails n ∷ rest) t h =
      update-other t.files out p
        (image_after x (t.files out)
          (build_history x (source_at x init (t.files init)) rootfs_size_bytes))
        h
  build_with-files x init out (stops n ∷ rest) t h =
      update-other t.files out p
        (image_after x (t.files out)
          (earliest n (build_history x (source_at x init (t.files init)) rootfs_size_bytes)))
        h

  build_disk-Frame :
      (x : Surroundings) (init out : Bytes) → out ≢ p → Frame p (build_disk x init out)
  unfolding build_disk
  build_disk-Frame x init out h = record { frame = λ s. build_with-files x init out s.faults s h }

  is_reusable-Frame : (cfg : DiskConfig) (b : Bool) → Frame p (is_reusable cfg b)
  is_reusable-Frame cfg true =
      Frame-bind (λ o. pure (is_large_as 1 o)) (stat-Frame (root_image cfg) p)
        (λ o. Frame-pure p (is_large_as 1 o))
  is_reusable-Frame cfg false = Frame-pure p false

  module _ (sha256 : Bytes → Bytes) where
    rootfs_unless-Frame :
        (x : Surroundings) (cfg : DiskConfig) (key : Bytes) (b : Bool)
        → IsNoDisk cfg
        → Frame p (rootfs_unless sha256 x write_file cfg key b)
    unfolding renew_rootfs
    rootfs_unless-Frame x cfg key true n = Frame-pure p (root_image cfg)
    rootfs_unless-Frame x cfg key false n =
        mkdir_all-Frame cfg.scratch p
        then build_disk-Frame x cfg.init (partial_image cfg) n.partial
        then rename-Frame (partial_image cfg) (root_image cfg) p n.partial n.image
        then only (root_stamp cfg) key p n.stamp
        then Frame-pure p (root_image cfg)

    pub prepare_rootfs-Frame :
        (x : Surroundings) (cfg : DiskConfig)
        → IsNoDisk cfg
        → Frame p (prepare_rootfs sha256 x write_file cfg)
    unfolding prepare_rootfs rootfs_cache_key
    prepare_rootfs-Frame x cfg n =
        Frame-bind (rootfs_for sha256 x write_file cfg)
          (Frame-bind (λ s. pure (cache_key sha256 cfg s)) (read_file-Frame read_error cfg.init p)
            (λ s. Frame-pure p (cache_key sha256 cfg s)))
          (λ key.
            Frame-bind (rootfs_unless sha256 x write_file cfg key)
              (Frame-bind (is_reusable cfg) (stamp_says-Frame (root_stamp cfg) key p)
                (is_reusable-Frame cfg))
              (λ b. rootfs_unless-Frame x cfg key b n))

    -- `p` is none of the files of the toolchain.
    pub record IsNoLlvm (cfg : LlvmConfig) : Type 0 where
      pub tarball : llvm_tarball cfg ≢ p
      pub part : llvm_tarball cfg ++ codes ".part" ≢ p
      pub stamp : llvm_stamp cfg ≢ p
      pub not_below : at_or_under (llvm_dir cfg) p ≡ false
      pub not_inside : ¬ IsInside (llvm_dir cfg) p
      pub above : List Bytes
      pub named : stack_of (llvm_dir cfg) ≡ codes "llvm" ∷ above
      pub nonempty : llvm_dir cfg ≢ []

    llvm-ne-dotdot : codes "llvm" ≢ dotdot
    unfolding codes
    llvm-ne-dotdot = ground arith

    llvm_unless-Frame :
        (unxz : Bytes → Option TarStream) (taken : ℕ → Bytes → Bool) (net : Network)
        (cfg : LlvmConfig) (b : Bool)
        → IsNoLlvm cfg
        → Frame p (llvm_unless sha256 unxz taken write_file net cfg b)
    unfolding renew_llvm
    llvm_unless-Frame unxz taken net cfg true n = Frame-pure p (llvm_dir cfg)
    llvm_unless-Frame unxz taken net cfg false n =
        fetch_file-Frame sha256 net (llvm_tarball cfg) cfg.sha p n.tarball n.part
        then remove_all-Frame taken (llvm_dir cfg) p n.not_below
        then mkdir_all-Frame (llvm_dir cfg) p
        then extract_llvm-Frame (llvm_dir cfg) (codes "llvm") n.above n.named llvm-ne-dotdot
            n.nonempty unxz (llvm_tarball cfg) p n.not_inside
        then (only (llvm_stamp cfg) cfg.sha p n.stamp then Frame-pure p (llvm_dir cfg))

    pub prepare_llvm-Frame :
        (unxz : Bytes → Option TarStream) (taken : ℕ → Bytes → Bool) (net : Network)
        (cfg : LlvmConfig)
        → IsNoLlvm cfg
        → Frame p (prepare_llvm sha256 unxz taken write_file net cfg)
    unfolding prepare_llvm
    prepare_llvm-Frame unxz taken net cfg n =
        Frame-bind (llvm_unless sha256 unxz taken write_file net cfg)
          (stamp_says-Frame (llvm_stamp cfg) cfg.sha p)
          (λ b. llvm_unless-Frame unxz taken net cfg b n)

module _ (p : Bytes) (vz : Vz) (vm : GuestVm) where
  expect_built-Frame : (v : Verdict) → Frame p (expect_built v)
  expect_built-Frame passed = Frame-pure p tt
  expect_built-Frame (exited_with n) = Frame-throw p boot_failed
  expect_built-Frame (boot_failure b) = Frame-throw p boot_failed
  expect_built-Frame (config_refused c) = Frame-throw p boot_failed

  pub build_kernel-Frame :
      (cpus : ℕ) (bootstrap root workdir llvm : Bytes)
      → LeavesAlone p vm
      → Frame p (build_kernel vz cpus vm bootstrap root workdir llvm)
  unfolding build_kernel
  build_kernel-Frame cpus bootstrap root workdir llvm alone =
      Frame-bind expect_built
        (boot_guest-Frame p vz (build_config cpus bootstrap root workdir llvm) vm workdir alone)
        expect_built-Frame
