-- ===== src/Rootfs/Image/Whole.antt =====
-- A successful `Build` leaves the whole image.
use mathlib.Core.Path.{subst}
use ossein_kernel.Base.{
  Bool, Bool-cases, Bytes, List, Option, [], ap, arith, codes, false, inl, inr, none, refl, some,
  sym, true, ℕ, ◌++◌, ◌∷◌, ◌≡◌,
}
use ossein_kernel.Paths.{dir, slash}
use ossein_kernel.Rootfs.{disk_path}
use ossein_kernel.Rootfs.Writer.{
  Call, History, Result, close_image, create_image, disk_chmod, disk_chown, disk_close, disk_mkdir,
  disk_open, disk_symlink, disk_write, err, format_image, ok, open_source, remove_image,
}
use ossein_kernel.System.{Node, regular}
use ossein_kernel.Rootfs.Unpack.{Source, build, is_top, skipped_path}
use ossein_kernel.Rootfs.Image.{Surroundings, build_history, builds, image_after, is_ok, rewritten}
use ossein_kernel.Rootfs.Plan.{
  entries_calls, entry_calls, file_calls, init_path, kind_calls, meta_calls, onto, parent_calls,
}
use ossein_kernel.Tar.{
  TarEntry, TarKind, TarStream, directory, hard_link, other_kind, regular_file, symbolic_link,
}
use ossein_kernel.Rootfs.Plan.Followed.{build-Follows}

-- A call that neither creates nor removes the image.
abbrev Fills : Call → Type 0
Fills remove_image = ⊥
Fills (create_image size) = ⊥
Fills c = Unit

abbrev AllFill : List Call → Type 0
AllFill [] = Unit
AllFill (c ∷ cs) = Fills c × AllFill cs

AllFill-append : (cs ds : List Call) → AllFill cs → AllFill ds → AllFill (cs ++ ds)
AllFill-append [] ds p q = q
AllFill-append (c ∷ cs) ds p q = (p.0, AllFill-append cs ds p.1 q)

parent_calls-AllFill : (dest : Bytes) → AllFill (parent_calls dest)
parent_calls-AllFill dest = elim (Bool-cases (is_top (dir dest))) [
  | inl e ↦ rw e tt
  | inr e ↦ rw e (tt, tt)
]

kind_calls-AllFill :
    (kind : TarKind) (dest : Bytes) (hdr : TarEntry) → AllFill (kind_calls kind dest hdr)
kind_calls-AllFill directory dest hdr = (tt, (tt, (tt, tt)))
kind_calls-AllFill regular_file dest hdr =
    AllFill-append (parent_calls dest ++ file_calls dest hdr.contents) (meta_calls dest hdr)
      (AllFill-append (parent_calls dest) (file_calls dest hdr.contents) (parent_calls-AllFill dest)
        (tt, (tt, (tt, tt))))
      (tt, (tt, tt))
kind_calls-AllFill symbolic_link dest hdr =
    AllFill-append (parent_calls dest) (disk_symlink hdr.link_name dest ∷ [])
      (parent_calls-AllFill dest) (tt, tt)
kind_calls-AllFill hard_link dest hdr =
    AllFill-append (parent_calls dest) (disk_symlink (slash ∷ disk_path hdr.link_name) dest ∷ [])
      (parent_calls-AllFill dest) (tt, tt)
kind_calls-AllFill other_kind dest hdr = tt

entry_calls-AllFill : (hdr : TarEntry) → AllFill (entry_calls hdr)
entry_calls-AllFill hdr = elim (Bool-cases (skipped_path (disk_path hdr.entry_name))) [
  | inl e ↦ rw e tt
  | inr e ↦ rw e (kind_calls-AllFill hdr.kind (disk_path hdr.entry_name) hdr)
]

entries_calls-AllFill : (hdrs : List TarEntry) → AllFill (entries_calls hdrs)
entries_calls-AllFill [] = tt
entries_calls-AllFill (hdr ∷ hdrs) =
    AllFill-append (entry_calls hdr) (entries_calls hdrs) (entry_calls-AllFill hdr)
      (entries_calls-AllFill hdrs)

abbrev after_entries : Source → List Call
after_entries src =
    disk_mkdir (codes "ram")
    ∷ open_source src.path
    ∷ (file_calls init_path src.bytes ++ (disk_chmod init_path 0o755 ∷ close_image ∷ []))

filling-AllFill :
    (stream : TarStream) (src : Source)
    → AllFill (entries_calls stream.entries ++ after_entries src)
filling-AllFill stream src =
    AllFill-append (entries_calls stream.entries) (after_entries src)
      (entries_calls-AllFill stream.entries) (tt, (tt, (tt, (tt, (tt, (tt, (tt, tt)))))))

module _ (x : Surroundings) (o : Option Node) where
  abbrev IsWhole : History → Type 0
  IsWhole h = image_after x o h ≡ some (regular (x.disk h) x.image_mode)

  call-IsWhole : (c : Call) (h : History) → Fills c → IsWhole h → IsWhole (c ∷ h)
  unfolding image_after
  call-IsWhole remove_image h f p = absurd f
  call-IsWhole (create_image size) h f p = absurd f
  call-IsWhole close_image h f p = ap (rewritten (x.disk (close_image ∷ h))) p
  call-IsWhole (format_image size) h f p = ap (rewritten (x.disk (format_image size ∷ h))) p
  call-IsWhole (open_source path) h f p = ap (rewritten (x.disk (open_source path ∷ h))) p
  call-IsWhole (disk_mkdir path) h f p = ap (rewritten (x.disk (disk_mkdir path ∷ h))) p
  call-IsWhole (disk_open path) h f p = ap (rewritten (x.disk (disk_open path ∷ h))) p
  call-IsWhole (disk_close path) h f p = ap (rewritten (x.disk (disk_close path ∷ h))) p
  call-IsWhole (disk_write path s) h f p = ap (rewritten (x.disk (disk_write path s ∷ h))) p
  call-IsWhole (disk_symlink link path) h f p =
      ap (rewritten (x.disk (disk_symlink link path ∷ h))) p
  call-IsWhole (disk_chmod path mode) h f p = ap (rewritten (x.disk (disk_chmod path mode ∷ h))) p
  call-IsWhole (disk_chown path uid gid) h f p =
      ap (rewritten (x.disk (disk_chown path uid gid ∷ h))) p

  onto-IsWhole : (cs : List Call) (h : History) → AllFill cs → IsWhole h → IsWhole (onto cs h)
  onto-IsWhole [] h f p = p
  onto-IsWhole (c ∷ cs) h f p = onto-IsWhole cs (c ∷ h) f.1 (call-IsWhole c h f.0 p)

  created-IsWhole :
      (size : ℕ) (h : History)
      → x.world h (create_image size) ≡ true
      → IsWhole (create_image size ∷ h)
  unfolding image_after
  created-IsWhole size h e = rw e refl

  built-IsWhole :
      (stream : TarStream) (src : Source) (size : ℕ)
      → (build true (some stream) src size x.world []).0 ≡ ok tt
      → IsWhole (build true (some stream) src size x.world []).1
  built-IsWhole stream src size e =
      let f = build-Follows stream src size x.world in
      let a = (f.succeeds.0 e).1 in
      subst IsWhole (sym (f.calls e)) (
        onto-IsWhole (format_image size ∷ (entries_calls stream.entries ++ after_entries src))
          (create_image size ∷ remove_image ∷ []) (tt, filling-AllFill stream src)
          (created-IsWhole size (remove_image ∷ []) a.0))

  is_ok-eq : (r : Result (Unit {0})) → is_ok r ≡ true → r ≡ ok tt
  is_ok-eq (ok u) e = refl
  is_ok-eq (err f) e = absurd (ground arith)

  run-IsWhole :
      (pinned : Bool) (pulled : Option TarStream) (src : Source) (size : ℕ)
      → is_ok (build pinned pulled src size x.world []).0 ≡ true
      → IsWhole (build pinned pulled src size x.world []).1
  unfolding build
  run-IsWhole false pulled src size e = absurd (ground arith)
  run-IsWhole true none src size e = absurd (ground arith)
  run-IsWhole true (some stream) src size e =
      built-IsWhole stream src size (is_ok-eq (build true (some stream) src size x.world []).0 e)

-- After a successful `Build` the image file holds what the ext4 writer wrote.
pub build-IsWhole :
    (x : Surroundings) (o : Option Node) (src : Source) (size : ℕ)
    → builds x src size ≡ true
    → image_after x o (build_history x src size)
      ≡ some (regular (x.disk (build_history x src size)) x.image_mode)
build-IsWhole x o src size e = run-IsWhole x o x.pinned x.pulled src size e
