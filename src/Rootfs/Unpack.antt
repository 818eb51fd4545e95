-- ===== src/Rootfs/Unpack.antt =====
-- `Build` and what it calls, internal/rootfs/rootfs.go. The image and the archive come from
-- go-containerregistry: whether the reference is pinned by a digest and what is pulled are
-- arguments.
use ossein_kernel.Base.{
  Bool, Bytes, List, Option, [], codes, equal, if◌then◌else◌, none, some, ℕ, ◌||◌, ◌∷◌,
}
use ossein_kernel.Paths.{dir, dot, slash}
use ossein_kernel.Rootfs.{disk_path}
use ossein_kernel.Rootfs.Writer.{
  M, attempt, close_image, contents_broken, create_image, disk_chmod, disk_chown, disk_close,
  disk_mkdir, disk_open, disk_symlink, disk_write, format_image, ignore, not_pinned, on_error,
  open_source, pull_failed, pure, remove_image, require, tar_broken, throw, ◌>>◌,
}
use ossein_kernel.Tar.{
  TarEntry, TarKind, TarStream, directory, hard_link, other_kind, perm, regular_file, symbolic_link,
}

unfoldable pub write_reg : Bytes → Bytes → Bool → M (Unit {0})
write_reg dest contents readable =
    attempt (disk_open dest)
    >> on_error (attempt (disk_write dest contents) >> require readable contents_broken)
        (disk_close dest ∷ [])
    >> attempt (disk_close dest)

unfoldable pub apply_meta : Bytes → TarEntry → M (Unit {0})
apply_meta dest hdr =
    attempt (disk_chmod dest (perm hdr.mode)) >> attempt (disk_chown dest hdr.uid hdr.gid)

abbrev pub is_top : Bytes → Bool
is_top path = equal path dot || equal path (slash ∷ []) || equal path []

unfoldable pub mk_parent : Bytes → M (Unit {0})
mk_parent dest = if is_top (dir dest) then pure tt else attempt (disk_mkdir (dir dest))

-- A hard link is made a symbolic one, to the absolute path.
abbrev pub hard_link_target : Bytes → Bytes
hard_link_target link = slash ∷ disk_path link

abbrev pub write_kind : TarKind → Bytes → TarEntry → M (Unit {0})
write_kind directory dest hdr = attempt (disk_mkdir dest) >> apply_meta dest hdr
write_kind regular_file dest hdr =
    mk_parent dest >> write_reg dest hdr.contents hdr.readable >> apply_meta dest hdr
write_kind symbolic_link dest hdr = mk_parent dest >> attempt (disk_symlink hdr.link_name dest)
write_kind hard_link dest hdr =
    mk_parent dest >> attempt (disk_symlink (hard_link_target hdr.link_name) dest)
write_kind other_kind dest hdr = pure tt

unfoldable pub write_entry : Bytes → TarEntry → M (Unit {0})
write_entry dest hdr = write_kind hdr.kind dest hdr

abbrev pub skipped_path : Bytes → Bool
skipped_path dest = equal dest [] || equal dest dot

abbrev pub unpack_entry : TarEntry → M (Unit {0})
unpack_entry hdr =
    if skipped_path (disk_path hdr.entry_name)
    then pure tt
    else write_entry (disk_path hdr.entry_name) hdr

unfoldable pub unpack_entries : List TarEntry → M (Unit {0})
unpack_entries [] = pure tt
unpack_entries (hdr ∷ hdrs) = unpack_entry hdr >> unpack_entries hdrs

unfoldable pub unpack_tar : TarStream → M (Unit {0})
unpack_tar stream = unpack_entries stream.entries >> require stream.complete tar_broken

abbrev pub init_guest_path : Bytes
init_guest_path = codes "/ossein-init"

abbrev pub init_mode : ℕ
init_mode = 0o755

-- A file of the host: its contents, and whether they can be read to their end.
pub record Source : Type 0 where
  pub path : Bytes
  pub bytes : Bytes
  pub whole : Bool

unfoldable pub embed_init : Source → M (Unit {0})
embed_init src =
    attempt (open_source src.path)
    >> write_reg (disk_path init_guest_path) src.bytes src.whole
    >> attempt (disk_chmod (disk_path init_guest_path) init_mode)

abbrev pub written_image : TarStream → Source → ℕ → M (Unit {0})
written_image stream src size =
    attempt (format_image size)
    >> unpack_tar stream
    >> attempt (disk_mkdir (codes "ram"))
    >> embed_init src

-- `Build` from the image file on, with `cleanup` after an error.
unfoldable pub fill_image : TarStream → Source → ℕ → M (Unit {0})
fill_image stream src size =
    on_error (written_image stream src size) (close_image ∷ remove_image ∷ [])
    >> on_error (attempt close_image) (remove_image ∷ [])

unfoldable pub build_image : TarStream → Source → ℕ → M (Unit {0})
build_image stream src size =
    ignore remove_image >> attempt (create_image size) >> fill_image stream src size

abbrev pub pulled_image : Option TarStream → Source → ℕ → M (Unit {0})
pulled_image none src size = throw pull_failed
pulled_image (some stream) src size = build_image stream src size

-- `Build`
unfoldable pub build : Bool → Option TarStream → Source → ℕ → M (Unit {0})
build pinned pulled src size = require pinned not_pinned >> pulled_image pulled src size
