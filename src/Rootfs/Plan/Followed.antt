-- ===== src/Rootfs/Plan/Followed.antt =====
-- `Build` follows its plan.
use ossein_kernel.Base.{
  All, Bool, Bool-cases, Bytes, List, [], append-nil, append_assoc, arith, codes, false, inl, inr,
  refl, some, true, ℕ, ◌++◌, ◌↔◌, ◌∷◌, ◌≡◌,
}
use ossein_kernel.Paths.{clean, dir}
use ossein_kernel.Rootfs.{disk_path}
use ossein_kernel.Rootfs.Writer.{
  Call, History, M, Result, World, attempt, close_image, contents_broken, create_image, disk_chmod,
  disk_chown, disk_close, disk_mkdir, disk_open, disk_symlink, disk_write, err, format_image, ok,
  open_source, remove_image, tar_broken, ◌>>◌,
}
use ossein_kernel.Rootfs.Unpack.{
  Source, apply_meta, build, build_image, embed_init, fill_image, hard_link_target, init_guest_path,
  is_top, mk_parent, skipped_path, unpack_entries, unpack_entry, unpack_tar, write_entry,
  write_kind, write_reg,
}
use ossein_kernel.Rootfs.Plan.{
  AllWork, Executes, OnOk, build_calls, entries_calls, entry_calls, file_calls, init_path,
  kind_calls, meta_calls, onto, parent_calls,
}
use ossein_kernel.Rootfs.Plan.Rules.{attempted, guarded, nothing_done, readied, required, ◌next◌}
use ossein_kernel.Strings.{trim_left}
use ossein_kernel.Tar.{
  TarEntry, TarKind, TarStream, directory, hard_link, other_kind, perm, regular_file, symbolic_link,
}

abbrev Unless : Bool → Type 0 → Type 0
Unless true P = Unit
Unless false P = P

abbrev KindReady : TarKind → TarEntry → Type 0
KindReady regular_file hdr = hdr.readable ≡ true
KindReady _ hdr = Unit

-- The contents of a file that is written can be read to their end.
abbrev pub EntryReady : TarEntry → Type 0
EntryReady hdr = Unless (skipped_path (disk_path hdr.entry_name)) (KindReady hdr.kind hdr)

write_reg-Executes :
    (dest contents : Bytes) (readable : Bool)
    → Executes (write_reg dest contents readable) (file_calls dest contents) (readable ≡ true)
unfolding write_reg
write_reg-Executes dest contents readable =
    readied refl (λ r. r.0.1.1) (λ r. ((tt, (tt, r)), tt))
      (attempted (disk_open dest)
        next guarded (disk_close dest ∷ [])
            (attempted (disk_write dest contents) next required readable contents_broken)
        next attempted (disk_close dest))

apply_meta-Executes :
    (dest : Bytes) (hdr : TarEntry)
    → Executes (apply_meta dest hdr) (meta_calls dest hdr) (Unit {0})
unfolding apply_meta
apply_meta-Executes dest hdr =
    readied refl (λ r. tt) (λ r. (tt, tt))
      (attempted (disk_chmod dest (perm hdr.mode)) next attempted (disk_chown dest hdr.uid hdr.gid))

mk_parent-Executes : (dest : Bytes) → Executes (mk_parent dest) (parent_calls dest) (Unit {0})
unfolding mk_parent
mk_parent-Executes dest = elim (Bool-cases (is_top (dir dest))) [
  | inl e ↦ rw e nothing_done
  | inr e ↦ rw e (attempted (disk_mkdir (dir dest)))
]

write_kind-Executes :
    (kind : TarKind) (dest : Bytes) (hdr : TarEntry)
    → Executes (write_kind kind dest hdr) (kind_calls kind dest hdr) (KindReady kind hdr)
write_kind-Executes directory dest hdr =
    readied refl (λ r. tt) (λ r. (tt, tt))
      (attempted (disk_mkdir dest) next apply_meta-Executes dest hdr)
write_kind-Executes regular_file dest hdr =
    readied refl (λ r. r.0.1) (λ r. ((tt, r), tt))
      (mk_parent-Executes dest
        next write_reg-Executes dest hdr.contents hdr.readable
        next apply_meta-Executes dest hdr)
write_kind-Executes symbolic_link dest hdr =
    readied refl (λ r. tt) (λ r. (tt, tt))
      (mk_parent-Executes dest next attempted (disk_symlink hdr.link_name dest))
write_kind-Executes hard_link dest hdr =
    readied refl (λ r. tt) (λ r. (tt, tt))
      (mk_parent-Executes dest next attempted (disk_symlink (hard_link_target hdr.link_name) dest))
write_kind-Executes other_kind dest hdr = nothing_done

unpack_entry-Executes :
    (hdr : TarEntry) → Executes (unpack_entry hdr) (entry_calls hdr) (EntryReady hdr)
unfolding write_entry
unpack_entry-Executes hdr = elim (Bool-cases (skipped_path (disk_path hdr.entry_name))) [
  | inl e ↦ rw e nothing_done
  | inr e ↦ rw e (write_kind-Executes hdr.kind (disk_path hdr.entry_name) hdr)
]

unpack_entries-Executes :
    (hdrs : List TarEntry)
    → Executes (unpack_entries hdrs) (entries_calls hdrs) (All EntryReady hdrs)
unfolding unpack_entries
unpack_entries-Executes [] = nothing_done
unpack_entries-Executes (hdr ∷ hdrs) = unpack_entry-Executes hdr next unpack_entries-Executes hdrs

-- All that is read can be read to its end.
pub record AllReady (stream : TarStream) (src : Source) : Type 0 where
  pub files : All EntryReady stream.entries
  pub archive : stream.complete ≡ true
  pub init : src.whole ≡ true

unpack_tar-Executes :
    (stream : TarStream)
    → Executes
        (unpack_tar stream)
        (entries_calls stream.entries)
        (All EntryReady stream.entries × (stream.complete ≡ true))
unfolding unpack_tar
unpack_tar-Executes stream =
    readied (append-nil (entries_calls stream.entries)) (λ r. r) (λ r. r)
      (unpack_entries-Executes stream.entries next required stream.complete tar_broken)

disk_init_path : disk_path init_guest_path ≡ init_path
unfolding disk_path clean trim_left codes
disk_init_path = refl

abbrev init_calls : Source → List Call
init_calls src =
    open_source src.path ∷ (file_calls init_path src.bytes ++ (disk_chmod init_path 0o755 ∷ []))

embed_init-Executes : (src : Source) → Executes (embed_init src) (init_calls src) (src.whole ≡ true)
unfolding embed_init
embed_init-Executes src = rw disk_init_path (
    readied refl (λ r. r.0.1) (λ r. ((tt, r), tt))
      (attempted (open_source src.path)
        next write_reg-Executes init_path src.bytes src.whole
        next attempted (disk_chmod init_path 0o755)))

regroup :
    (size : ℕ) (stream : TarStream) (src : Source)
    → (create_image size ∷ [])
        ++ (((((format_image size ∷ []) ++ entries_calls stream.entries)
                ++ (disk_mkdir (codes "ram") ∷ []))
              ++ init_calls src)
            ++ (close_image ∷ []))
      ≡ build_calls stream src size
regroup size stream src = simp append_assoc

abbrev Parts : TarStream → Source → Type 0
Parts stream src =
    Unit {0}
    × ((((Unit {0} × (All EntryReady stream.entries × (stream.complete ≡ true))) × Unit {0})
          × (src.whole ≡ true))
        × Unit {0})

gathered : (stream : TarStream) (src : Source) → Parts stream src → AllReady stream src
gathered stream src r = record { files = r.1.0.0.0.1.0; archive = r.1.0.0.0.1.1; init = r.1.0.1 }

spread : (stream : TarStream) (src : Source) → AllReady stream src → Parts stream src
spread stream src r = (tt, ((((tt, (r.files, r.archive)), tt), r.init), tt))

fill_image-Executes :
    (stream : TarStream) (src : Source) (size : ℕ)
    → Executes
        (attempt (create_image size) >> fill_image stream src size)
        (build_calls stream src size)
        (AllReady stream src)
unfolding fill_image
fill_image-Executes stream src size =
    readied (regroup size stream src) (gathered stream src) (spread stream src) (
      attempted (create_image size)
      next (guarded (close_image ∷ remove_image ∷ []) (
            attempted (format_image size)
            next unpack_tar-Executes stream
            next attempted (disk_mkdir (codes "ram"))
            next embed_init-Executes src)
          next guarded (remove_image ∷ []) (attempted close_image)))

pub record Follows (stream : TarStream) (src : Source) (size : ℕ) (w : World) : Type 0 where
  pub succeeds :
      ((build true (some stream) src size w []).0 ≡ ok tt)
      ↔ (AllReady stream src × AllWork w (remove_image ∷ []) (build_calls stream src size))
  pub calls :
      (build true (some stream) src size w []).0 ≡ ok tt
      → (build true (some stream) src size w []).1
        ≡ onto (build_calls stream src size) (remove_image ∷ [])

OnOk-ok : (P : Type 0) (r : Result (Unit {0})) → OnOk P r → r ≡ ok tt → P
OnOk-ok P (ok u) p e = p
OnOk-ok P (err f) p e = absurd (ground arith)

-- `Build` of a pinned and pulled image succeeds exactly when the archive and the init can be read and
-- each of the planned calls works after those before it; it has then made these calls and no other,
-- after the removal of an earlier image.
pub build-Follows :
    (stream : TarStream) (src : Source) (size : ℕ) (w : World) → Follows stream src size w
unfolding build build_image
build-Follows stream src size w =
    let x = fill_image-Executes stream src size in
    let h : History = remove_image ∷ [] in
    let m : M (Unit {0}) = attempt (create_image size) >> fill_image stream src size in
    record {
      succeeds = (
        λ e. let p = OnOk-ok _ (m w h).0 (x.made w h) e in (p.2, p.1),
        λ p. x.succeeds w h p.0 p.1,
      );
      calls = λ e. (OnOk-ok _ (m w h).0 (x.made w h) e).0;
    }
