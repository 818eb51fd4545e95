-- ===== src/Builder/Disk.antt =====
-- `prepareRootfs` and `rootfsCacheKey`, cmd/ossein-kernel/main.go. Where the process is stopped in
-- `Build` is a number of the calls that it makes.
pub mod Prepared
pub mod Stamped
pub mod Reused
use ossein_kernel.Base.{
  Bool, Bytes, List, Option, [], codes, drop, false, length, some, true, ℕ, ◌++◌, ◌-◌, ◌∷◌,
}
use ossein_kernel.Paths.{join_path}
use ossein_kernel.System.{
  Fault, M, Node, Result, System, build_failed, err, fails, mkdir_all, ok, pure, read_error,
  read_file, regular, rename, set_file, stat, stopped, stops, works, ◌>>=◌, ◌>>◌,
}
use ossein_kernel.Rootfs.Writer.{History}
use ossein_kernel.Rootfs.Unpack.{Source}
use ossein_kernel.Rootfs.Image.{Surroundings, build_history, builds, image_after}
use ossein_kernel.Builder.Stamp.{is_large_as, stamp_says}

abbrev pub rootfs_size_bytes : ℕ
rootfs_size_bytes = 0x80000000

abbrev pub source_at : Surroundings → Bytes → Option Node → Source
source_at x path (some (regular s mode)) = record { path = path; bytes = s; whole = x.init_whole }
source_at x path o = record { path = path; bytes = []; whole = false }

-- The first so many calls of a history.
abbrev pub earliest : ℕ → History → History
earliest n h = drop (length h - n) h

abbrev pub outcome : Bool → Result (Unit {0})
outcome true = ok tt
outcome false = err build_failed

abbrev pub with_image : Surroundings → Bytes → History → System → System
with_image x out h t = set_file out (image_after x (t.files out) h) t

abbrev pub whole_build : Surroundings → Source → Bytes → M (Unit {0})
whole_build x src out t = (
  outcome (builds x src rootfs_size_bytes),
  with_image x out (build_history x src rootfs_size_bytes) t,
)

abbrev pub cut_build : Surroundings → Source → Bytes → ℕ → M (Unit {0})
cut_build x src out n t =
    (stopped, with_image x out (earliest n (build_history x src rootfs_size_bytes)) t)

abbrev pub build_with : Surroundings → Bytes → Bytes → List Fault → M (Unit {0})
build_with x init out [] t = whole_build x (source_at x init (t.files init)) out t
build_with x init out (works ∷ rest) t =
    whole_build x (source_at x init (t.files init)) out (record t { faults = rest })
build_with x init out (fails n ∷ rest) t =
    whole_build x (source_at x init (t.files init)) out (record t { faults = rest })
build_with x init out (stops n ∷ rest) t =
    cut_build x (source_at x init (t.files init)) out n (record t { faults = rest })

-- `Build` in the file system: its own calls fail as `x` says.
unfoldable pub build_disk : Surroundings → Bytes → Bytes → M (Unit {0})
build_disk x init out s = build_with x init out s.faults s

-- The fields of `config` about the root disk, and the directory `scratchDir`.
pub record DiskConfig : Type 0 where
  pub scratch : Bytes
  pub image : Bytes
  pub init : Bytes

abbrev pub root_image : DiskConfig → Bytes
root_image cfg = join_path cfg.scratch (codes "debian-rootfs.ext4")

abbrev pub root_stamp : DiskConfig → Bytes
root_stamp cfg = join_path cfg.scratch (codes ".debian-rootfs-ref")

abbrev pub partial_image : DiskConfig → Bytes
partial_image cfg = root_image cfg ++ codes ".part"

abbrev pub is_reusable : DiskConfig → Bool → M Bool
is_reusable cfg true = stat (root_image cfg) >>= λ o. pure (is_large_as 1 o)
is_reusable cfg false = pure false

module _ (sha256 : Bytes → Bytes) where
  abbrev pub cache_key : DiskConfig → Bytes → Bytes
  cache_key cfg init = cfg.image ++ (codes "@init:" ++ sha256 init)

  unfoldable pub rootfs_cache_key : DiskConfig → M Bytes
  rootfs_cache_key cfg = read_file read_error cfg.init >>= λ s. pure (cache_key cfg s)

  module _ (x : Surroundings) (write_file : Bytes → Bytes → M (Unit {0})) where
    unfoldable pub renew_rootfs : DiskConfig → Bytes → M (Unit {0})
    renew_rootfs cfg key =
        mkdir_all cfg.scratch
        >> build_disk x cfg.init (partial_image cfg)
        >> rename (partial_image cfg) (root_image cfg)
        >> write_file (root_stamp cfg) key

    abbrev pub rootfs_unless : DiskConfig → Bytes → Bool → M Bytes
    rootfs_unless cfg key true = pure (root_image cfg)
    rootfs_unless cfg key false = renew_rootfs cfg key >> pure (root_image cfg)

    abbrev pub rootfs_for : DiskConfig → Bytes → M Bytes
    rootfs_for cfg key =
        stamp_says (root_stamp cfg) key >>= is_reusable cfg >>= rootfs_unless cfg key

    unfoldable pub prepare_rootfs : DiskConfig → M Bytes
    prepare_rootfs cfg = rootfs_cache_key cfg >>= rootfs_for cfg
