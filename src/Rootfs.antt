-- ===== src/Rootfs.antt =====
-- internal/rootfs/rootfs.go: the Debian root disk, written through the ext4 writer of go-diskfs.
pub mod DiskPath
pub mod Writer
pub mod Unpack
pub mod Plan
pub mod Normal
pub mod Removed
pub mod Image
use ossein_kernel.Base.{Bytes, [], ◌∷◌}
use ossein_kernel.Strings.{trim_left}
use ossein_kernel.Paths.{clean, dot, slash}

abbrev pub or_dot : Bytes → Bytes
or_dot [] = dot
or_dot (c ∷ s) = c ∷ s

unfoldable pub disk_path : Bytes → Bytes
disk_path raw = or_dot (trim_left (clean raw) slash)
