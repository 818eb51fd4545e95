-- ===== src/Tests/Disk.antt =====
-- A root disk of four entries, and one whose writer fails.
use ossein_kernel.Base.{All, Bytes, [], codes, equal, false, refl, some, true, ◌∷◌, ◌≡◌}
use ossein_kernel.Strings.{trim_left}
use ossein_kernel.Paths.{clean, dir}
use ossein_kernel.Rootfs.{disk_path}
use ossein_kernel.Rootfs.Writer.{
  World, close_image, create_image, disk_chmod, disk_chown, disk_close, disk_mkdir, disk_open,
  disk_symlink, disk_write, format_image, ok, open_source,
}
use ossein_kernel.Rootfs.Unpack.{
  Source, apply_meta, build, build_image, embed_init, fill_image, mk_parent, unpack_entries,
  unpack_tar, write_entry, write_reg,
}
use ossein_kernel.Rootfs.Plan.{build_calls}
use ossein_kernel.Rootfs.Plan.Followed.{Follows, build-Follows}
use ossein_kernel.Rootfs.Normal.{IsNormal, build-IsNormal}
use ossein_kernel.Rootfs.Removed.{Leaves, build-Leaves}
use ossein_kernel.Tar.{TarEntry, TarKind, TarStream, directory, hard_link, regular_file}

abbrev item : TarKind → Bytes → Bytes → Bytes → TarEntry
item kind entry_name link_name contents = record {
  entry_name = entry_name;
  kind = kind;
  link_name = link_name;
  mode = 0o40755;
  uid = 0;
  gid = 0;
  contents = contents;
  readable = true;
}

abbrev base_image : TarStream
base_image = record {
  entries =
      item directory (codes "./") [] []
      ∷ item directory (codes "./usr/") [] []
      ∷ item regular_file (codes "usr/bin/perl") [] (codes "perl")
      ∷ item hard_link (codes "usr/bin/perl5") (codes "usr/bin/perl") []
      ∷ [];
  complete = true;
}

abbrev guest_init : Source
guest_init = record { path = codes "init"; bytes = codes "elf"; whole = true }

abbrev all_work : World
all_work h c = true

planned :
    build_calls base_image guest_init 9
    ≡ create_image 9
      ∷ format_image 9
      ∷ disk_mkdir (codes "usr")
      ∷ disk_chmod (codes "usr") 0o755
      ∷ disk_chown (codes "usr") 0 0
      ∷ disk_mkdir (codes "usr/bin")
      ∷ disk_open (codes "usr/bin/perl")
      ∷ disk_write (codes "usr/bin/perl") (codes "perl")
      ∷ disk_close (codes "usr/bin/perl")
      ∷ disk_chmod (codes "usr/bin/perl") 0o755
      ∷ disk_chown (codes "usr/bin/perl") 0 0
      ∷ disk_mkdir (codes "usr/bin")
      ∷ disk_symlink (codes "/usr/bin/perl") (codes "usr/bin/perl5")
      ∷ disk_mkdir (codes "ram")
      ∷ open_source (codes "init")
      ∷ disk_open (codes "ossein-init")
      ∷ disk_write (codes "ossein-init") (codes "elf")
      ∷ disk_close (codes "ossein-init")
      ∷ disk_chmod (codes "ossein-init") 0o755
      ∷ close_image
      ∷ []
unfolding disk_path clean dir trim_left equal codes
planned = refl

built : (build true (some base_image) guest_init 9 all_work []).0 ≡ ok tt
unfolding build build_image fill_image unpack_tar unpack_entries write_entry mk_parent write_reg
    apply_meta embed_init disk_path clean dir trim_left equal codes
built = refl

build-Follows_example : Follows base_image guest_init 9 all_work
build-Follows_example = build-Follows base_image guest_init 9 all_work

build-IsNormal_example : All IsNormal (build true (some base_image) guest_init 9 all_work []).1
build-IsNormal_example = build-IsNormal true (some base_image) guest_init 9 all_work

-- The writer refuses links.
abbrev no_links : World
no_links h (disk_symlink l p) = false
no_links h c = true

build-Leaves_example :
    Leaves no_links 9
      (build true (some base_image) guest_init 9 no_links []).0
      (build true (some base_image) guest_init 9 no_links []).1
build-Leaves_example = build-Leaves true (some base_image) guest_init 9 no_links
