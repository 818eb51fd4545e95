-- ===== src/Ikconfig/Policy.antt =====
-- internal/ikconfig/policy.go: the table `Policy`, section by section.
use ossein_kernel.Base.{List, String, [], codes, ◌∷◌}
use ossein_kernel.Ikconfig.Verify.{Decision, Section, Want, want_not_y, want_y}

abbrev decide : String → Want → String → Decision
decide symbol want why = record { symbol = codes symbol; want = want; why = why }

abbrev pub root_enabler : Section
root_enabler = record {
  title = "root enabler";
  decisions = decide "EXPERT" want_y "gates the KPTI/BHB prompts below" ∷ [];
}

abbrev pub preemption : Section
preemption = record {
  title = "preemption (7.x arm64: NONE/VOLUNTARY unavailable; LAZY is lightest)";
  decisions =
      decide "PREEMPT_LAZY" want_y "lightest model selectable on 7.x arm64"
      ∷ decide "PREEMPT" want_not_y
          "full preemption = heaviest non-RT (measured: no sched-pipe gain)"
      ∷ decide "PREEMPT_DYNAMIC" want_not_y "no runtime-switchable preempt indirection"
      ∷ [];
}

abbrev pub arch_hardening : Section
arch_hardening = record {
  title = "arch hardening (VM boundary is the containment)";
  decisions =
      decide "ARM64_PTR_AUTH" want_not_y "user PAC key mgmt"
      ∷ decide "ARM64_PTR_AUTH_KERNEL" want_not_y "in-kernel signing codegen"
      ∷ decide "ARM64_BTI" want_not_y ""
      ∷ decide "ARM64_POE" want_not_y ""
      ∷ decide "ARM64_GCS" want_not_y ""
      ∷ decide "UNMAP_KERNEL_AT_EL0" want_not_y "KPTI (also runtime-off via mitigations=off)"
      ∷ decide "MITIGATE_SPECTRE_BRANCH_HISTORY" want_not_y
          "BHB (also runtime-off via mitigations=off)"
      ∷ decide "INIT_STACK_NONE" want_y "no per-call stack-var zeroing (Apple's choice)"
      ∷ decide "INIT_STACK_ALL_ZERO" want_not_y "must lose the choice to NONE"
      ∷ decide "LTO_CLANG_THIN" want_y "clang ThinLTO (build.sh builds with LLVM=1)"
      ∷ decide "ARM64_4K_PAGES" want_y "Rosetta (amd64 containers) requires 4K guest pages"
      ∷ [];
}

abbrev pub core_plumbing : Section
core_plumbing = record {
  title = "core plumbing (tinyconfig strips these; the allowlist MUST restore them)";
  decisions =
      decide "CC_OPTIMIZE_FOR_PERFORMANCE" want_y "-O2 not tinyconfig's -Os"
      ∷ decide "SMP" want_y "2+ vCPUs"
      ∷ decide "PRINTK" want_y "console output at all"
      ∷ decide "TTY" want_y "console + PTYs"
      ∷ decide "BLOCK" want_y "virtio-blk / ext4"
      ∷ decide "NET" want_y "networking core"
      ∷ decide "INET" want_y "IPv4"
      ∷ decide "UNIX" want_y "AF_UNIX (dockerd/containerd/gRPC)"
      ∷ decide "FUTEX" want_y "glibc/pthreads/Go runtime"
      ∷ decide "BLK_DEV_INITRD" want_y
          "initramfs root (ossein boots a cpio via rdinit=, no root device)"
      ∷ decide "BINFMT_ELF" want_y "run ELF binaries"
      ∷ decide "BINFMT_SCRIPT" want_y "run #! scripts"
      ∷ decide "FILE_LOCKING" want_y
          "fcntl/flock — apt/dpkg/git/DBs; EXPERT-trap, every container needs it"
      ∷ decide "ADVISE_SYSCALLS" want_y "posix_fadvise/madvise; EXPERT-trap"
      ∷ decide "INOTIFY_USER" want_y "file watching — countless container tools need it"
      ∷ decide "SHMEM" want_y "tmpfs backing (EXPERT-hidden; traps easily)"
      ∷ decide "NETDEVICES" want_y "menu gate over virtio-net/veth/tun"
      ∷ decide "VIRTIO_MENU" want_y "menu gate over virtio-pci transport"
      ∷ decide "PCI" want_y "VZ virtio-over-PCI"
      ∷ decide "ARM_GIC_V3" want_y "interrupt controller"
      ∷ decide "ARM_ARCH_TIMER" want_y "arch timer"
      ∷ decide "ARM_PSCI_FW" want_y "SMP boot + power-off"
      ∷ [];
}

abbrev pub boot_contract : Section
boot_contract = record {
  title = "boot contract (must always be on)";
  decisions =
      decide "VIRTIO_VSOCKETS" want_y "agent lifeline"
      ∷ decide "IKCONFIG" want_y "this check depends on it"
      ∷ decide "VIRTIO_PCI" want_y "virtio transport"
      ∷ decide "VIRTIO_BLK" want_y "root/cache disk"
      ∷ decide "VIRTIO_NET" want_y "guest networking"
      ∷ decide "VIRTIO_CONSOLE" want_y "console"
      ∷ decide "VIRTIO_FS" want_y "host<->guest shares"
      ∷ decide "FUSE_FS" want_y "virtio-fs needs fuse"
      ∷ decide "EXT4_FS" want_y "root disk fs"
      ∷ decide "OVERLAY_FS" want_y "container rootfs"
      ∷ decide "TMPFS" want_y "rootfs backing"
      ∷ decide "DEVTMPFS" want_y "/dev"
      ∷ decide "EROFS_FS" want_y
          "rootfs lower (mount-instead-of-extract materialization; erofs blob + no driver = boot ENODEV)"
      ∷ decide "EROFS_FS_XATTR" want_y "image xattrs"
      ∷ decide "EROFS_FS_SECURITY" want_y "security.capability on image files"
      ∷ decide "EROFS_FS_ZIP" want_not_y
          "uncompressed images only — ZIP drags LZ4/XZ decompressors into the kernel for nothing"
      ∷ decide "POSIX_MQUEUE" want_y "OCI default mount /dev/mqueue (stage2 mounts it)"
      ∷ decide "UNIX98_PTYS" want_y "OCI default mount /dev/pts (devpts)"
      ∷ decide "VETH" want_y "container net"
      ∷ decide "BRIDGE" want_not_y
          "cut 2026-07-16 — proven inert by a buildkit network-RUN test (B8)"
      ∷ decide "CGROUP_BPF" want_y
          "runc cgroup2 device policy (buildkit RUN); else bpf_prog_query EINVAL"
      ∷ decide "STACKPROTECTOR_STRONG" want_y
          "kernel stack canary (correctness net; +192KB, <0.5% runtime)"
      ∷ decide "SERIAL_AMBA_PL011_CONSOLE" want_y "VZ serial console"
      ∷ [];
}

abbrev pub allowlist_sanity : Section
allowlist_sanity = record {
  title = "allowlist sanity (never named → must be OFF; proves the empty base held)";
  decisions =
      decide "USB_SUPPORT" want_not_y "no USB in VZ"
      ∷ decide "SOUND" want_not_y "no audio"
      ∷ decide "DRM" want_not_y "headless"
      ∷ decide "WLAN" want_not_y "no wifi"
      ∷ decide "WIRELESS" want_not_y "no wifi subsystem"
      ∷ decide "ETHERNET" want_not_y
          "physical-NIC driver menu (~69 NET_VENDOR_* stubs); virtio-net doesn't need it"
      ∷ decide "NETWORK_FILESYSTEMS" want_not_y "no NFS/CIFS; ext4/overlay/tmpfs/virtio-fs only"
      ∷ decide "ATA" want_not_y "virtio-blk only"
      ∷ decide "ARCH_APPLE" want_not_y "VZ guest, not bare-metal SoC"
      ∷ decide "KALLSYMS_ALL" want_not_y "full symbol table = Image fat (was on under defconfig)"
      ∷ [];
}

abbrev pub deliberate_cuts : Section
deliberate_cuts = record {
  title = "deliberate cuts (must STAY off; if any reverts, something selects it)";
  decisions =
      decide "SWAP" want_not_y "no swap device ever attached"
      ∷ decide "DEBUG_INFO" want_not_y
          "no debug symbols / Image bloat (DEBUG_KERNEL itself is force-selected by EXPERT, so guard the real feature)"
      ∷ decide "CFS_BANDWIDTH" want_not_y "OCI spec sets no cpu limits (cgroup cpu ctrl cut)"
      ∷ decide "BLK_CGROUP" want_not_y "OCI spec sets no io limits (cgroup io ctrl cut)"
      ∷ decide "KALLSYMS" want_not_y
          "cut: ~1ns getpid (layout); debug-only, re-add locally to chase a panic"
      ∷ decide "COMPACTION" want_not_y "cut: part of the ~1ns getpid layout regression"
      ∷ decide "MIGRATION" want_not_y "cut: part of the ~1ns getpid layout regression"
      ∷ [];
}

abbrev pub shipped_policy : List Section
shipped_policy =
    root_enabler ∷ preemption ∷ arch_hardening ∷ core_plumbing ∷ boot_contract ∷ allowlist_sanity
    ∷ deliberate_cuts ∷ []
