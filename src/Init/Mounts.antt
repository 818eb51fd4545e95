-- ===== src/Init/Mounts.antt =====
-- The mounts of the guest, cmd/ossein-kernel/init/main.go: the writable root, the file systems that
-- the kernel provides, the shares of the host.
use ossein_kernel.Base.{
  Bool, Bytes, List, [], codes, equal, false, if◌then◌else◌, true, ℕ, ◌++◌, ◌||◌, ◌∷◌,
}
use ossein_kernel.Init.{
  Answer, Errno, M, MountSpec, attempt, busy, call_failed, chdir, done, failed, for_each, ignore,
  mkdir, mkdir_all, mount, pivot_root, pure, read_file, request, text, throw, unmount, ◌>>=◌, ◌>>◌,
}
use ossein_kernel.Strings.{fields}

abbrev pub kernel_share : Bytes
kernel_share = codes "/kernel"

abbrev pub overlay_mountpoint : Bytes
overlay_mountpoint = codes "/ram"

abbrev pub fs_tmpfs : Bytes
fs_tmpfs = codes "tmpfs"

abbrev pub ms_bind : ℕ
ms_bind = 0x1000

abbrev pub mnt_detach : ℕ
mnt_detach = 2

abbrev pub lower : Bytes
lower = overlay_mountpoint ++ codes "/lower"

abbrev pub upper : Bytes
upper = overlay_mountpoint ++ codes "/upper"

abbrev pub work : Bytes
work = overlay_mountpoint ++ codes "/work"

abbrev pub new_root : Bytes
new_root = overlay_mountpoint ++ codes "/root"

abbrev pub overlay_options : Bytes
overlay_options =
    codes "lowerdir=" ++ lower ++ codes ",upperdir=" ++ upper ++ codes ",workdir=" ++ work

abbrev pub old_root : Bytes
old_root = new_root ++ codes "/oldroot"

abbrev pub mount_spec : Bytes → Bytes → Bytes → ℕ → Bytes → MountSpec
mount_spec source target fstype flags options = record {
  source = source;
  target = target;
  fstype = fstype;
  flags = flags;
  options = options;
}

abbrev pub plain : Bytes → Bytes → Bytes → Bytes → MountSpec
plain source target fstype options = mount_spec source target fstype 0 options

unfoldable pub setup_overlay_root : M (Unit {0})
setup_overlay_root =
    attempt (mount (plain fs_tmpfs overlay_mountpoint fs_tmpfs []))
    >> for_each (λ d. attempt (mkdir d)) (lower ∷ upper ∷ work ∷ new_root ∷ [])
    >> attempt (mount (mount_spec (codes "/") lower [] ms_bind []))
    >> attempt (mount (plain (codes "overlay") new_root (codes "overlay") overlay_options))
    >> attempt (mkdir old_root)
    >> attempt (pivot_root new_root old_root)
    >> attempt (chdir (codes "/"))
    >> ignore (unmount (codes "/oldroot") mnt_detach)

-- Parents before children.
abbrev pub base_mounts : List MountSpec
base_mounts =
    plain (codes "proc") (codes "/proc") (codes "proc") []
    ∷ plain (codes "sysfs") (codes "/sys") (codes "sysfs") []
    ∷ plain (codes "devtmpfs") (codes "/dev") (codes "devtmpfs") []
    ∷ plain (codes "devpts") (codes "/dev/pts") (codes "devpts") (codes "gid=5,mode=620")
    ∷ plain fs_tmpfs (codes "/dev/shm") fs_tmpfs []
    ∷ plain fs_tmpfs (codes "/run") fs_tmpfs []
    ∷ plain fs_tmpfs (codes "/tmp") fs_tmpfs []
    ∷ plain fs_tmpfs (codes "/kbuild") fs_tmpfs []
    ∷ []

-- The kernel may have mounted /dev already.
abbrev pub mounted_before : MountSpec → Errno → Bool
mounted_before spec busy = equal spec.target (codes "/dev")
mounted_before spec _ = false

abbrev pub accept_mount : MountSpec → Answer → M (Unit {0})
accept_mount spec done = pure tt
accept_mount spec (failed e) =
    if mounted_before spec e then pure tt else throw (call_failed (mount spec))
accept_mount spec _ = throw (call_failed (mount spec))

abbrev pub mount_one : MountSpec → M (Unit {0})
mount_one spec = attempt (mkdir_all spec.target) >> (request (mount spec) >>= accept_mount spec)

unfoldable pub mount_base : M (Unit {0})
mount_base = for_each mount_one base_mounts

abbrev pub cmdline_path : Bytes
cmdline_path = codes "/proc/cmdline"

-- `slices.Contains`
unfoldable pub has_field : List Bytes → Bytes → Bool
has_field [] t = false
has_field (s ∷ ss) t = equal s t || has_field ss t

abbrev pub found_token : Bytes → Answer → Bool
found_token token (text data_read) = has_field (fields data_read) token
found_token token _ = false

unfoldable pub cmdline_has : Bytes → M Bool
cmdline_has token = request (read_file cmdline_path) >>= λ a. pure (found_token token a)

unfoldable pub mount_virtiofs : Bytes → Bytes → M (Unit {0})
mount_virtiofs tag target =
    attempt (mkdir_all target) >> attempt (mount (plain tag target (codes "virtiofs") []))

abbrev pub when : Bool → M (Unit {0}) → M (Unit {0})
when true m = m
when false m = pure tt

abbrev pub llvm_token : Bytes
llvm_token = codes "ossein.llvm=1"

unfoldable pub mount_shares : M (Unit {0})
mount_shares =
    mount_virtiofs (codes "kernel") kernel_share >> cmdline_has llvm_token >>= λ declared.
    when declared (mount_virtiofs (codes "llvm") (codes "/opt/llvm"))
