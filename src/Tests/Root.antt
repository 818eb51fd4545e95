-- ===== src/Tests/Root.antt =====
-- A root disk that is built, reused, and rebuilt for another init. A file is its own digest here, and
-- the image holds the text that was written last.
use ossein_kernel.Base.{
  Bytes, List, [], arith, codes, equal, if◌then◌else◌, none, refl, some, true, ◌∷◌, ◌≡◌, ◌≢◌,
}
use ossein_kernel.Paths.{clean, join_path}
use ossein_kernel.Strings.{find_cut, trim_left, space_width, trim_from, trim_space_right}
use ossein_kernel.Rootfs.{disk_path}
use ossein_kernel.Rootfs.Unpack.{
  build, build_image, embed_init, fill_image, unpack_entries, unpack_tar, write_reg,
}
use ossein_kernel.Rootfs.Image.{Surroundings, image_after}
use ossein_kernel.System.{
  Fault, M, Result, System, append_file, call, create, fails, mkdir_all, ok, open_empty, quiet,
  read_file, regular, rename, set_file, stat, stopped, stops, untouched, update, works, write_error,
}
use ossein_kernel.Rootfs.Writer.{History, disk_write}
use ossein_kernel.System.Frame.{update-other, update-same, ◌then◌}
use ossein_kernel.Tar.{TarStream}
use ossein_kernel.Builder.Stamp.{stamp_says}
use ossein_kernel.Builder.Disk.{
  DiskConfig, build_disk, prepare_rootfs, renew_rootfs, root_image, root_stamp, rootfs_cache_key,
}
use ossein_kernel.System.Triples.{Triple}
use ossein_kernel.Builder.Disk.Prepared.{DiskIsSafe, DiskWas}
use ossein_kernel.Builder.Disk.Reused.{Prepared, prepare_rootfs-Triple}
use ossein_kernel.Builder.Promote.OnlyTested.{WritesOnly}
use ossein_kernel.Builder.Toolchain.Stamped.{WritesWhole}

abbrev itself : Bytes → Bytes
itself s = s

abbrev overwrite : Bytes → Bytes → M (Unit {0})
overwrite path s t =
    call (λ u. (ok tt, set_file path (some (regular s 0o600)) u)) untouched write_error t.faults t

written-Frame :
    (path s p : Bytes) (fs : List Fault) (t : System)
    → path ≢ p
    → (call
          (λ u. (ok tt, set_file path (some (regular s 0o600)) u))
          untouched
          write_error
          fs
          t).1.files
        p
      ≡ t.files p
written-Frame path s p [] t h = update-other t.files path p (some (regular s 0o600)) h
written-Frame path s p (works ∷ fs) t h = update-other t.files path p (some (regular s 0o600)) h
written-Frame path s p (fails n ∷ fs) t h = refl
written-Frame path s p (stops n ∷ fs) t h = refl

overwrite-WritesOnly : WritesOnly overwrite
overwrite-WritesOnly path s p h = record { frame = λ t. written-Frame path s p t.faults t h }

written_whole :
    (path s : Bytes) (fs : List Fault) (t : System)
    → (call (λ u. (ok tt, set_file path (some (regular s 0o600)) u)) untouched write_error fs t).0
      ≡ ok tt
    → (call
          (λ u. (ok tt, set_file path (some (regular s 0o600)) u))
          untouched
          write_error
          fs
          t).1.files
        path
      ≡ some (regular s 0o600)
written_whole path s [] t h = update-same t.files path (some (regular s 0o600))
written_whole path s (works ∷ fs) t h = update-same t.files path (some (regular s 0o600))
written_whole path s (fails n ∷ fs) t h = absurd (ground arith)
written_whole path s (stops n ∷ fs) t h = absurd (ground arith)

overwrite-WritesWhole : WritesWhole overwrite
overwrite-WritesWhole path s t h = (0o600, written_whole path s t.faults t h)

written_last : History → Bytes
written_last [] = []
written_last (disk_write path s ∷ h) = s
written_last (c ∷ h) = written_last h

abbrev no_entries : TarStream
no_entries = record { entries = []; complete = true }

abbrev surroundings : Surroundings
surroundings = record {
  pinned = true;
  pulled = some no_entries;
  init_whole = true;
  world = λ h c. true;
  disk = written_last;
  image_mode = 0o666;
}

abbrev disk_config : DiskConfig
disk_config = record { scratch = codes "k"; image = codes "d"; init = codes "i" }

abbrev with_init : Bytes → System → System
with_init s t = record t {
  files = λ p. if equal p (codes "i") then some (regular s 0o755) else t.files p;
}

abbrev no_files : System
no_files = record { files = λ p. none; faults = [] }

abbrev first_run : Result Bytes × System
first_run =
    prepare_rootfs itself surroundings overwrite disk_config (with_init (codes "one") no_files)

first_image :
    (first_run.0 ≡ ok (codes "k/debian-rootfs.ext4"))
    × (first_run.1.files (codes "k/debian-rootfs.ext4") ≡ some (regular (codes "one") 0o666))
    × (first_run.1.files (codes "k/.debian-rootfs-ref") ≡ some (regular (codes "d@init:one") 0o600))
unfolding prepare_rootfs rootfs_cache_key stamp_says renew_rootfs build_disk image_after build
    build_image fill_image unpack_tar unpack_entries embed_init write_reg disk_path clean trim_left
    join_path find_cut read_file stat mkdir_all create open_empty append_file rename update equal
    codes written_last
first_image = (refl, refl, refl)

-- The run for another init is stopped when the new disk is in place, before the stamp is written.
abbrev cut_run : Result Bytes × System
cut_run =
    prepare_rootfs itself surroundings overwrite disk_config
      (record (with_init (codes "two") first_run.1) {
        faults = works ∷ works ∷ works ∷ works ∷ works ∷ stops 0 ∷ [];
      })

-- With the first init again, the disk with the second one is taken.
abbrev stale_run : Result Bytes × System
stale_run =
    prepare_rootfs itself surroundings overwrite disk_config
      (quiet (with_init (codes "one") cut_run.1))

stale :
    (cut_run.0 ≡ stopped)
    × (stale_run.0 ≡ ok (codes "k/debian-rootfs.ext4"))
    × (stale_run.1.files (codes "k/debian-rootfs.ext4") ≡ some (regular (codes "two") 0o666))
unfolding prepare_rootfs rootfs_cache_key stamp_says renew_rootfs build_disk image_after build
    build_image fill_image unpack_tar unpack_entries embed_init write_reg disk_path clean trim_left
    join_path find_cut read_file stat mkdir_all create open_empty append_file rename update equal
    codes written_last trim_space_right trim_from space_width
stale = (refl, refl, refl)

stamp-ne-image : root_stamp disk_config ≢ root_image disk_config
unfolding join_path clean codes
stamp-ne-image = ground arith

prepare_rootfs-Triple_example :
    Triple
      (DiskWas itself surroundings overwrite disk_config (codes "one") 0o755 none)
      (prepare_rootfs itself surroundings overwrite disk_config)
      (Prepared itself surroundings overwrite disk_config (codes "one") 0o755 none)
      (DiskIsSafe itself surroundings overwrite disk_config (codes "one") 0o755 none)
prepare_rootfs-Triple_example =
    prepare_rootfs-Triple itself surroundings overwrite disk_config (codes "one") 0o755 none
      overwrite-WritesOnly overwrite-WritesWhole stamp-ne-image
