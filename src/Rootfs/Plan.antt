-- ===== src/Rootfs/Plan.antt =====
-- What `Build` writes, as a list of calls that the archive alone decides: it succeeds exactly when
-- each of them works, and has then made these and no other.
pub mod Rules
pub mod Followed
use ossein_kernel.Base.{Bytes, List, [], codes, if◌then◌else◌, refl, true, ℕ, ◌++◌, ◌∷◌, ◌≡◌}
use ossein_kernel.Paths.{dir, slash}
use ossein_kernel.Rootfs.{disk_path}
use ossein_kernel.Rootfs.Writer.{
  Call, History, M, Result, World, close_image, create_image, disk_chmod, disk_chown, disk_close,
  disk_mkdir, disk_open, disk_symlink, disk_write, err, format_image, ok, open_source,
}
use ossein_kernel.Rootfs.Unpack.{Source, is_top, skipped_path}
use ossein_kernel.Tar.{
  TarEntry, TarKind, TarStream, directory, hard_link, other_kind, perm, regular_file, symbolic_link,
}

abbrev pub meta_calls : Bytes → TarEntry → List Call
meta_calls dest hdr = disk_chmod dest (perm hdr.mode) ∷ disk_chown dest hdr.uid hdr.gid ∷ []

abbrev pub parent_calls : Bytes → List Call
parent_calls dest = if is_top (dir dest) then [] else disk_mkdir (dir dest) ∷ []

abbrev pub file_calls : Bytes → Bytes → List Call
file_calls dest bytes = disk_open dest ∷ disk_write dest bytes ∷ disk_close dest ∷ []

abbrev pub kind_calls : TarKind → Bytes → TarEntry → List Call
kind_calls directory dest hdr = disk_mkdir dest ∷ meta_calls dest hdr
kind_calls regular_file dest hdr =
    (parent_calls dest ++ file_calls dest hdr.contents) ++ meta_calls dest hdr
kind_calls symbolic_link dest hdr = parent_calls dest ++ (disk_symlink hdr.link_name dest ∷ [])
kind_calls hard_link dest hdr =
    parent_calls dest ++ (disk_symlink (slash ∷ disk_path hdr.link_name) dest ∷ [])
kind_calls other_kind dest hdr = []

-- The root of the archive is not written.
abbrev pub entry_calls : TarEntry → List Call
entry_calls hdr =
    if skipped_path (disk_path hdr.entry_name)
    then []
    else kind_calls hdr.kind (disk_path hdr.entry_name) hdr

abbrev pub entries_calls : List TarEntry → List Call
entries_calls [] = []
entries_calls (hdr ∷ hdrs) = entry_calls hdr ++ entries_calls hdrs

abbrev pub init_path : Bytes
init_path = codes "ossein-init"

-- All that a build does after it removed the image of an earlier one.
abbrev pub build_calls : TarStream → Source → ℕ → List Call
build_calls stream src size =
    create_image size
    ∷ format_image size
    ∷ (entries_calls stream.entries
        ++ (disk_mkdir (codes "ram")
            ∷ open_source src.path
            ∷ (file_calls init_path src.bytes ++ (disk_chmod init_path 0o755 ∷ close_image ∷ []))))

-- Calls made one after another, on a history.
abbrev pub onto : List Call → History → History
onto [] h = h
onto (c ∷ cs) h = onto cs (c ∷ h)

-- Each of them works after those before it.
abbrev pub AllWork : World → History → List Call → Type 0
AllWork w h [] = Unit
AllWork w h (c ∷ cs) = (w h c ≡ true) × AllWork w (c ∷ h) cs

pub onto-append : (cs ds : List Call) (h : History) → onto (cs ++ ds) h ≡ onto ds (onto cs h)
onto-append [] ds h = refl
onto-append (c ∷ cs) ds h = onto-append cs ds (c ∷ h)

pub AllWork-append :
    (w : World) (h : History) (cs ds : List Call)
    → AllWork w h cs
    → AllWork w (onto cs h) ds
    → AllWork w h (cs ++ ds)
AllWork-append w h [] ds p q = q
AllWork-append w h (c ∷ cs) ds p q = (p.0, AllWork-append w (c ∷ h) cs ds p.1 q)

pub AllWork-split :
    (w : World) (h : History) (cs ds : List Call)
    → AllWork w h (cs ++ ds)
    → AllWork w h cs × AllWork w (onto cs h) ds
AllWork-split w h [] ds p = (tt, p)
AllWork-split w h (c ∷ cs) ds p = let (q, r) = AllWork-split w (c ∷ h) cs ds p.1 in ((p.0, q), r)

abbrev pub OnOk : Type 0 → Result (Unit {0}) → Type 0
OnOk P (ok u) = P
OnOk P (err e) = Unit

-- `m` succeeds exactly when `Ready` holds and the calls `cs` work, and has then made these.
pub record Executes (m : M (Unit {0})) (cs : List Call) (Ready : Type 0) : Type 0 where
  pub made :
      (w : World) (h : History) → OnOk (((m w h).1 ≡ onto cs h) × AllWork w h cs × Ready) (m w h).0
  pub succeeds : (w : World) (h : History) → Ready → AllWork w h cs → (m w h).0 ≡ ok tt
