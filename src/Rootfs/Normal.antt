-- ===== src/Rootfs/Normal.antt =====
-- Whatever fails, the ext4 writer is given normal paths alone, and an image that is not finished is
-- removed.
use ossein_kernel.Base.{
  All, Bool, Bool-cases, Bytes, List, Option, [], arith, codes, equal, equal_iff, false, inl, inr,
  none, refl, some, true, ℕ, ◌==◌, ◌∙◌, ◌∷◌, ◌≡◌, ◌≢◌,
}
use ossein_kernel.Paths.Clean.{clean-clean, stack_of-clean}
use ossein_kernel.Strings.{trim_left}
use ossein_kernel.Paths.{clean, dir, dot, is_rooted, slash, split_cons, split_path}
use ossein_kernel.Rootfs.Writer.{
  Call, Failure, History, M, Result, World, after_error, and_then, attempt, close_image,
  contents_broken, create_image, disk_chmod, disk_chown, disk_close, disk_mkdir, disk_open,
  disk_symlink, disk_write, err, format_image, ignore, not_pinned, ok, on_error, open_source,
  pull_failed, pure, remove_image, require, tar_broken, throw, ◌>>◌,
}
use ossein_kernel.Rootfs.Unpack.{
  Source, apply_meta, build, build_image, embed_init, fill_image, hard_link_target, init_guest_path,
  init_mode, is_top, mk_parent, pulled_image, skipped_path, unpack_entries, unpack_tar, write_entry,
  write_kind, write_reg,
}
use ossein_kernel.Tar.{
  TarEntry, TarKind, TarStream, directory, hard_link, other_kind, perm, regular_file, symbolic_link,
}
use ossein_kernel.Rootfs.{disk_path}
use ossein_kernel.Rootfs.DiskPath.{disk_path_normal}

-- Relative, clean, not empty, and not the root.
pub record IsDiskPath (p : Bytes) : Type 0 where
  pub relative : is_rooted p ≡ false
  pub is_clean : clean p ≡ p
  pub ne_nil : p ≢ []
  pub ne_dot : p ≢ dot

-- A call of the writer is about a normal path.
abbrev pub IsNormal : Call → Type 0
IsNormal (disk_mkdir p) = IsDiskPath p
IsNormal (disk_open p) = IsDiskPath p
IsNormal (disk_close p) = IsDiskPath p
IsNormal (disk_write p s) = IsDiskPath p
IsNormal (disk_symlink l p) = IsDiskPath p
IsNormal (disk_chmod p mode) = IsDiskPath p
IsNormal (disk_chown p uid gid) = IsDiskPath p
IsNormal _ = Unit

-- `m` adds calls of this kind alone to the history.
pub record Makes (P : Call → Type 0) {A : Type 0} (m : M A) : Type 0 where
  pub made : (w : World) (h : History) → All P h → All P (m w h).1

and_then-Makes :
    {A B : Type 0} (P : Call → Type 0) (k : M B)
    → Makes P k
    → (r : Result A) (w : World) (h : History) → All P h
    → All P (and_then (λ _. k) r w h).1
and_then-Makes P k x (ok a) w h p = x.made w h p
and_then-Makes P k x (err e) w h p = p

infixl 5 ◌next◌
pub ◌next◌ :
    {P : Call → Type 0} {B : Type 0} {m : M (Unit {0})} {k : M B}
    → Makes P m
    → Makes P k
    → Makes P (m >> k)
◌next◌ {P} {m = m} {k} x y = record {
  made = λ w h p. and_then-Makes P k y (m w h).0 w (m w h).1 (x.made w h p);
}

pub attempt-Makes : {P : Call → Type 0} (c : Call) → P c → Makes P (attempt c)
attempt-Makes c p = record { made = λ w h q. (p, q) }

pub ignore-Makes : {P : Call → Type 0} (c : Call) → P c → Makes P (ignore c)
ignore-Makes c p = record { made = λ w h q. (p, q) }

pub pure-Makes : {P : Call → Type 0} {A : Type 0} (a : A) → Makes P (pure a)
pure-Makes a = record { made = λ w h q. q }

pub throw-Makes : {P : Call → Type 0} {A : Type 0} (e : Failure) → Makes P (throw {A = A} e)
throw-Makes e = record { made = λ w h q. q }

after_error-All :
    (P : Call → Type 0) (cs : List Call) (r : Result (Unit {0})) (h : History)
    → All P cs
    → All P h
    → All P (after_error cs r h).1
after_error-All P [] r h c p = p
after_error-All P (x ∷ cs) (ok u) h c p = p
after_error-All P (x ∷ cs) (err e) h c p = after_error-All P cs (err e) (x ∷ h) c.1 (c.0, p)

pub on_error-Makes :
    {P : Call → Type 0} {m : M (Unit {0})} (cs : List Call)
    → All P cs
    → Makes P m
    → Makes P (on_error m cs)
on_error-Makes {P} {m} cs c x = record {
  made = λ w h p. after_error-All P cs (m w h).0 (m w h).1 c (x.made w h p);
}

pub require-Makes : {P : Call → Type 0} (b : Bool) (e : Failure) → Makes P (require b e)
require-Makes true e = pure-Makes tt
require-Makes false e = throw-Makes e

write_reg-Makes :
    (dest s : Bytes) (b : Bool) → IsDiskPath dest → Makes IsNormal (write_reg dest s b)
unfolding write_reg
write_reg-Makes dest s b d =
    attempt-Makes (disk_open dest) d
    next on_error-Makes (disk_close dest ∷ []) (d, tt)
        (attempt-Makes (disk_write dest s) d next require-Makes b contents_broken)
    next attempt-Makes (disk_close dest) d

apply_meta-Makes :
    (dest : Bytes) (hdr : TarEntry) → IsDiskPath dest → Makes IsNormal (apply_meta dest hdr)
unfolding apply_meta
apply_meta-Makes dest hdr d =
    attempt-Makes (disk_chmod dest (perm hdr.mode)) d
    next attempt-Makes (disk_chown dest hdr.uid hdr.gid) d

split_cons-relative :
    (c : ℕ) (d f : Bytes) → (c == slash) ≡ false → is_rooted (split_cons c d f).0 ≡ false
split_cons-relative c [] f h = rw h refl
split_cons-relative c (x ∷ d) f h = h

split_path-relative : (s : Bytes) → is_rooted s ≡ false → is_rooted (split_path s).0 ≡ false
unfolding split_path
split_path-relative [] h = refl
split_path-relative (c ∷ s) h = split_cons-relative c (split_path s).0 (split_path s).1 h

-- The parent of a relative path is relative and clean.
parent-IsDiskPath :
    (dest : Bytes) → IsDiskPath dest → is_top (dir dest) ≡ false → IsDiskPath (dir dest)
unfolding dir
parent-IsDiskPath dest d t = record {
  relative = (stack_of-clean (split_path dest).0).1 ∙ split_path-relative dest d.relative;
  is_clean = clean-clean (split_path dest).0;
  ne_nil = λ e. ground (arith, equal_iff (dir dest) []);
  ne_dot = λ e. ground (arith, equal_iff (dir dest) dot);
}

mk_parent-Makes : (dest : Bytes) → IsDiskPath dest → Makes IsNormal (mk_parent dest)
unfolding mk_parent
mk_parent-Makes dest d = elim (Bool-cases (is_top (dir dest))) [
  | inl e ↦ rw e (pure-Makes tt)
  | inr e ↦ rw e (attempt-Makes (disk_mkdir (dir dest)) (parent-IsDiskPath dest d e))
]

write_kind-Makes :
    (kind : TarKind) (dest : Bytes) (hdr : TarEntry)
    → IsDiskPath dest
    → Makes IsNormal (write_kind kind dest hdr)
write_kind-Makes directory dest hdr d =
    attempt-Makes (disk_mkdir dest) d next apply_meta-Makes dest hdr d
write_kind-Makes regular_file dest hdr d =
    mk_parent-Makes dest d
    next write_reg-Makes dest hdr.contents hdr.readable d
    next apply_meta-Makes dest hdr d
write_kind-Makes symbolic_link dest hdr d =
    mk_parent-Makes dest d next attempt-Makes (disk_symlink hdr.link_name dest) d
write_kind-Makes hard_link dest hdr d =
    mk_parent-Makes dest d next attempt-Makes (disk_symlink (hard_link_target hdr.link_name) dest) d
write_kind-Makes other_kind dest hdr d = pure-Makes tt

disk_path-IsDiskPath :
    (raw : Bytes) → skipped_path (disk_path raw) ≡ false → IsDiskPath (disk_path raw)
disk_path-IsDiskPath raw h =
    let n = disk_path_normal raw in
    record {
      relative = n.0;
      is_clean = n.2;
      ne_nil = n.1;
      ne_dot = λ e. ground (arith, equal_iff (disk_path raw) dot);
    }

unpack_entries-Makes : (hdrs : List TarEntry) → Makes IsNormal (unpack_entries hdrs)
unfolding unpack_entries write_entry
unpack_entries-Makes [] = pure-Makes tt
unpack_entries-Makes (hdr ∷ hdrs) = elim (Bool-cases (skipped_path (disk_path hdr.entry_name))) [
  | inl e ↦ rw e (pure-Makes tt next unpack_entries-Makes hdrs)
  | inr e ↦ rw e (
      write_kind-Makes hdr.kind (disk_path hdr.entry_name) hdr
        (disk_path-IsDiskPath hdr.entry_name e)
      next unpack_entries-Makes hdrs)
]

init_path-IsDiskPath : IsDiskPath (disk_path init_guest_path)
init_path-IsDiskPath =
    disk_path-IsDiskPath init_guest_path (unfold disk_path clean trim_left codes equal in refl)

ram-IsDiskPath : IsDiskPath (codes "ram")
unfolding clean codes
ram-IsDiskPath = record {
  relative = refl;
  is_clean = refl;
  ne_nil = ground arith;
  ne_dot = ground arith;
}

fill_image-Makes :
    (stream : TarStream) (src : Source) (size : ℕ) → Makes IsNormal (fill_image stream src size)
unfolding fill_image unpack_tar embed_init
fill_image-Makes stream src size =
    on_error-Makes (close_image ∷ remove_image ∷ []) (tt, (tt, tt))
      (attempt-Makes (format_image size) tt
        next (unpack_entries-Makes stream.entries next require-Makes stream.complete tar_broken)
        next attempt-Makes (disk_mkdir (codes "ram")) ram-IsDiskPath
        next (attempt-Makes (open_source src.path) tt
            next write_reg-Makes (disk_path init_guest_path) src.bytes src.whole
                init_path-IsDiskPath
            next attempt-Makes (disk_chmod (disk_path init_guest_path) init_mode)
                init_path-IsDiskPath))
    next on_error-Makes (remove_image ∷ []) (tt, tt) (attempt-Makes close_image tt)

pulled_image-Makes :
    (pulled : Option TarStream) (src : Source) (size : ℕ)
    → Makes IsNormal (pulled_image pulled src size)
unfolding build_image
pulled_image-Makes none src size = throw-Makes pull_failed
pulled_image-Makes (some stream) src size =
    ignore-Makes remove_image tt
    next attempt-Makes (create_image size) tt
    next fill_image-Makes stream src size

-- Whatever the archive holds and whatever fails, every path that `Build` gives to the ext4 writer is
-- relative, clean, not empty and not the root.
pub build-IsNormal :
    (pinned : Bool) (pulled : Option TarStream) (src : Source) (size : ℕ) (w : World)
    → All IsNormal (build pinned pulled src size w []).1
unfolding build
build-IsNormal pinned pulled src size w =
    (require-Makes pinned not_pinned next pulled_image-Makes pulled src size).made w [] tt
