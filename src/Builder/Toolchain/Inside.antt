-- ===== src/Builder/Toolchain/Inside.antt =====
-- What the extraction leaves alone, if no path is followed through a link.
use mathlib.Core.Path.{subst}
use ossein_kernel.Base.{
  All, Bool, Bytes, List, Option, [], false, none, refl, some, true, ◌∷◌, ◌≡◌, ◌≢◌,
}
use ossein_kernel.Paths.{dir, dotdot, stack_of}
use ossein_kernel.System.{decompress_error, pure, read_error, tar_error, tar_escape}
use ossein_kernel.System.Frame.{
  Frame, Frame-bind, Frame-catch, Frame-pure, Frame-throw, append_file-Frame, make_symlink-Frame,
  mkdir_all-Frame, open_empty-Frame, read_file-Frame, remove-Frame, ◌then◌,
}
use ossein_kernel.Tar.{
  TarEntry, TarKind, TarStream, directory, hard_link, other_kind, perm, regular_file, symbolic_link,
}
use ossein_kernel.Builder.Download.Elsewhere.{Frame-closed_after, Frame-if}
use ossein_kernel.Builder.Toolchain.{
  Target, escapes, link_stays, llvm_entry_target, root_of, unwanted, wanted,
}
use ossein_kernel.Builder.Toolchain.Extract.{
  end_of_tar, extract_entries, extract_llvm, extract_stream, extract_to, whole_or_error,
  write_llvm_entry, write_llvm_file, write_llvm_kind, write_llvm_symlink,
}
use ossein_kernel.Paths.Inside.{IsInside}
use ossein_kernel.Builder.Toolchain.Targets.{llvm_entry_target-IsInside}

whole-Frame : (p : Bytes) (b : Bool) → Frame p (whole_or_error b)
whole-Frame p true = Frame-pure p tt
whole-Frame p false = Frame-throw p read_error

write_llvm_file-Frame :
    (target p : Bytes) (hdr : TarEntry) → target ≢ p → Frame p (write_llvm_file target hdr)
unfolding write_llvm_file
write_llvm_file-Frame target p hdr h =
    mkdir_all-Frame (dir target) p
    then open_empty-Frame target p (perm hdr.mode) h
    then Frame-closed_after p target
        (append_file-Frame target hdr.contents p h then whole-Frame p hdr.readable)

pub write_llvm_symlink-Frame :
    (root target p : Bytes) (hdr : TarEntry)
    → target ≢ p
    → Frame p (write_llvm_symlink root target hdr)
unfolding write_llvm_symlink
write_llvm_symlink-Frame root target p hdr h =
    Frame-if (link_stays root target hdr.link_name)
      (mkdir_all-Frame (dir target) p
        then Frame-catch (λ _. pure tt) (remove-Frame target p h) (λ _. Frame-pure p tt)
        then make_symlink-Frame hdr.link_name target p h)
      (Frame-throw p tar_escape)

write_llvm_kind-Frame :
    (kind : TarKind) (root target p : Bytes) (hdr : TarEntry)
    → target ≢ p
    → Frame p (write_llvm_kind kind root target hdr)
write_llvm_kind-Frame directory root target p hdr h = mkdir_all-Frame target p
write_llvm_kind-Frame regular_file root target p hdr h = write_llvm_file-Frame target p hdr h
write_llvm_kind-Frame symbolic_link root target p hdr h =
    write_llvm_symlink-Frame root target p hdr h
write_llvm_kind-Frame hard_link root target p hdr h = Frame-pure p tt
write_llvm_kind-Frame other_kind root target p hdr h = Frame-pure p tt

-- The entry is not extracted to `p`.
abbrev pub Misses : Bytes → Bytes → TarEntry → Type 0
Misses dest p hdr =
    (target : Bytes)
    → llvm_entry_target hdr.entry_name dest (root_of dest) ≡ wanted target
    → target ≢ p

extract_to-Frame :
    (t : Target) (root p : Bytes) (hdr : TarEntry)
    → ((target : Bytes) → t ≡ wanted target → target ≢ p)
    → Frame p (extract_to t root hdr)
unfolding write_llvm_entry
extract_to-Frame escapes root p hdr h = Frame-throw p tar_escape
extract_to-Frame unwanted root p hdr h = Frame-pure p tt
extract_to-Frame (wanted target) root p hdr h =
    write_llvm_kind-Frame hdr.kind root target p hdr (h target refl)

pub extract_entries-Frame :
    (dest p : Bytes) (hdrs : List TarEntry)
    → All (Misses dest p) hdrs
    → Frame p (extract_entries dest hdrs)
unfolding extract_entries
extract_entries-Frame dest p [] h = Frame-pure p tt
extract_entries-Frame dest p (hdr ∷ hdrs) h =
    extract_to-Frame (llvm_entry_target hdr.entry_name dest (root_of dest)) (root_of dest) p hdr h.0
    then extract_entries-Frame dest p hdrs h.1

end_of_tar-Frame : (p : Bytes) (b : Bool) → Frame p (end_of_tar b)
end_of_tar-Frame p true = Frame-pure p tt
end_of_tar-Frame p false = Frame-throw p tar_error

pub extract_stream-Frame :
    (dest p : Bytes) (o : Option TarStream)
    → ((stream : TarStream) → o ≡ some stream → All (Misses dest p) stream.entries)
    → Frame p (extract_stream dest o)
extract_stream-Frame dest p none h = Frame-throw p decompress_error
extract_stream-Frame dest p (some stream) h =
    extract_entries-Frame dest p stream.entries (h stream refl)
    then end_of_tar-Frame p stream.complete

module _ (dest name : Bytes) (above : List Bytes) (named : stack_of dest ≡ name ∷ above)
    (no_way_up : name ≢ dotdot) (ne : dest ≢ []) where
  All-Misses : (p : Bytes) (hdrs : List TarEntry) → ¬ IsInside dest p → All (Misses dest p) hdrs
  All-Misses p [] h = tt
  All-Misses p (hdr ∷ hdrs) h = (
    λ target e same. h (
        subst (IsInside dest) same
          (llvm_entry_target-IsInside dest name above named no_way_up hdr.entry_name target ne e)),
    All-Misses p hdrs h,
  )

  -- Where no call follows a link, the extraction changes no file outside its destination, which is not
  -- empty and whose last element is not `..`.
  pub extract_llvm-Frame :
      (unxz : Bytes → Option TarStream) (tarball p : Bytes)
      → ¬ IsInside dest p
      → Frame p (extract_llvm unxz tarball dest)
  unfolding extract_llvm
  extract_llvm-Frame unxz tarball p h =
      Frame-bind (λ s. extract_stream dest (unxz s)) (read_file-Frame read_error tarball p)
        (λ s. extract_stream-Frame dest p (unxz s) (λ stream e. All-Misses p stream.entries h))
