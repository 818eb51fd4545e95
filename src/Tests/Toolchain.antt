-- ===== src/Tests/Toolchain.antt =====
-- A toolchain of a few entries. A file is its own digest here.
use mathlib.Core.Path.{subst}
use mathlib.Core.List.{reverse}
use ossein_kernel.Base.{
  All, Bool, Bytes, List, Option, [], ap, arith, codes, equal, false, if◌then◌else◌, none, refl,
  some, suc, sym, true, zero, ℕ, ◌++◌, ◌∙◌, ◌∷◌, ◌≡◌, ◌≢◌,
}
use ossein_kernel.Strings.{
  before_suffix, find_cut, join, split, space_width, trim_from, trim_space_right,
}
use ossein_kernel.Paths.{dir, dotdot, join_path, slash}
use ossein_kernel.System.{
  M, Node, Result, System, append_file, close_file, create, make_symlink, mkdir_all, ok, open_empty,
  quiet, read_file, regular, remove, remove_all, rename, set_file, stat, symlink, update,
}
use ossein_kernel.System.Frame.{update-same}
use ossein_kernel.Tar.{TarEntry, TarKind, TarStream, directory, regular_file, symbolic_link}
use ossein_kernel.Builder.Stamp.{stamp_says}
use ossein_kernel.Builder.Download.{
  Network, attempts_from, body, cache_path, cached_artifact_ok, copy_body, download_attempt,
  download_with_retries, eof, equal_fold, fetch_file, no_reply, verify_sha,
}
use ossein_kernel.Builder.Toolchain.{
  Target, link_stays, llvm_entry_target, root_of, unwanted, wanted,
}
use ossein_kernel.Builder.Toolchain.Extract.{
  LlvmConfig, extract_entries, extract_llvm, extract_stream, llvm_dir, llvm_stamp, prepare_llvm,
  renew_llvm, write_llvm_entry, write_llvm_file, write_llvm_symlink,
}
use ossein_kernel.Builder.Toolchain.Stamped.{IsApart, WritesWhole, prepare_llvm-Vouches}
use ossein_kernel.Strings.Fields.{Word}
use ossein_kernel.Builder.Toolchain.Inside.{Misses}
use ossein_kernel.Builder.Toolchain.Reused.{prepare_llvm_again}
use ossein_kernel.Builder.Stamp.Vouching.{Vouches}

abbrev pub item : TarKind → Bytes → Bytes → Bytes → TarEntry
item kind entry_name link_name contents = record {
  entry_name = entry_name;
  kind = kind;
  link_name = link_name;
  mode = 0o755;
  uid = 0;
  gid = 0;
  contents = contents;
  readable = true;
}

abbrev bundle : TarStream
bundle = record {
  entries =
      item directory (codes "L/") [] []
      ∷ item regular_file (codes "L/bin/clang") [] (codes "elf")
      ∷ item symbolic_link (codes "L/bin/cc") (codes "clang") []
      ∷ item regular_file (codes "L/include/x.h") [] (codes "h")
      ∷ [];
  complete = true;
}

abbrev itself : Bytes → Bytes
itself s = s

abbrev unxz : Bytes → Option TarStream
unxz s = some bundle

abbrev none_taken : ℕ → Bytes → Bool
none_taken n p = false

abbrev overwrite : Bytes → Bytes → M (Unit {0})
overwrite path s t = (ok tt, set_file path (some (regular s 0o600)) t)

overwrite-WritesWhole : WritesWhole overwrite
overwrite-WritesWhole path s t e = (0o600, update-same t.files path (some (regular s 0o600)))

abbrev cfg : LlvmConfig
cfg = record { scratch = codes "k"; sha = codes "d1" }

abbrev serving : Network
serving = record {
  reply = λ n. body (codes "D1" ∷ []) eof;
  interrupted_in = λ n. false;
  interrupted_before = λ n. false;
}

abbrev dead : Network
dead = record {
  reply = λ n. no_reply;
  interrupted_in = λ n. false;
  interrupted_before = λ n. false;
}

abbrev blank : System
blank = record { files = λ p. none; faults = [] }

abbrev prepared : Result Bytes × System
prepared = prepare_llvm itself unxz none_taken overwrite serving cfg blank

extracted :
    (prepared.0 ≡ ok (codes "k/llvm"))
    × (prepared.1.files (codes "k/llvm/bin/clang") ≡ some (regular (codes "elf") 0o755))
    × (prepared.1.files (codes "k/llvm/bin/cc") ≡ some (symlink (codes "clang")))
    × (prepared.1.files (codes "k/llvm/include/x.h") ≡ none)
unfolding prepare_llvm renew_llvm extract_llvm extract_entries write_llvm_entry write_llvm_file
    write_llvm_symlink llvm_entry_target link_stays root_of join_path codes find_cut before_suffix
    dir stamp_says cache_path fetch_file cached_artifact_ok verify_sha read_file stat mkdir_all
    open_empty create append_file close_file rename remove remove_all make_symlink update equal
    equal_fold download_with_retries attempts_from download_attempt copy_body trim_from space_width
    trim_space_right
extracted = (refl, refl, refl, refl)

digest-Word : Word cfg.sha
unfolding codes space_width
digest-Word = (ground arith, (refl, (refl, tt)))

prepared_ok : prepared.0 ≡ ok (codes "k/llvm")
prepared_ok = extracted.0

prepare_llvm_again_example :
    prepare_llvm itself unxz none_taken overwrite dead cfg (quiet prepared.1)
    ≡ (ok (llvm_dir cfg), quiet prepared.1)
prepare_llvm_again_example =
    prepare_llvm_again itself unxz none_taken overwrite cfg serving dead blank (codes "k/llvm")
      overwrite-WritesWhole digest-Word prepared_ok

misses :
    (path : Bytes) (hdr : TarEntry) (t : Target)
    → llvm_entry_target hdr.entry_name (llvm_dir cfg) (root_of (llvm_dir cfg)) ≡ t
    → ((target : Bytes) → t ≡ wanted target → target ≢ path)
    → Misses (llvm_dir cfg) path hdr
misses path hdr t e n target w = n target (sym e ∙ w)

elsewhere :
    (a path : Bytes) → a ≢ path → (target : Bytes) → wanted a ≡ wanted target → target ≢ path
elsewhere a path h target w e = h (cc)

nowhere : (path target : Bytes) → unwanted ≡ wanted target → target ≢ path
nowhere path target w e = ground arith

bundle-Misses : All (Misses (llvm_dir cfg) (llvm_stamp cfg)) bundle.entries
unfolding llvm_entry_target root_of join_path codes find_cut before_suffix
bundle-Misses = (
  misses (llvm_stamp cfg) (item directory (codes "L/") [] []) unwanted refl
      (nowhere (llvm_stamp cfg)),
  (
    misses (llvm_stamp cfg) (item regular_file (codes "L/bin/clang") [] (codes "elf"))
        (wanted (codes "k/llvm/bin/clang")) refl
        (elsewhere (codes "k/llvm/bin/clang") (llvm_stamp cfg) (ground arith)),
    (
      misses (llvm_stamp cfg) (item symbolic_link (codes "L/bin/cc") (codes "clang") [])
          (wanted (codes "k/llvm/bin/cc")) refl
          (elsewhere (codes "k/llvm/bin/cc") (llvm_stamp cfg) (ground arith)),
      (
        misses (llvm_stamp cfg) (item regular_file (codes "L/include/x.h") [] (codes "h")) unwanted
            refl (nowhere (llvm_stamp cfg)),
        tt,
      ),
    ),
  ),
)

abbrev stream_in : Option TarStream → TarStream
stream_in none = bundle
stream_in (some stream) = stream

apart : IsApart itself unxz cfg
unfolding join_path cache_path codes find_cut
apart = record {
  tarball = ground arith;
  partial = ground arith;
  entries = λ s stream e.
      subst (λ (t : TarStream). All (Misses (llvm_dir cfg) (llvm_stamp cfg)) t.entries)
        (ap stream_in e) bundle-Misses;
}

blank-silent : ¬ Vouches cfg.sha (blank.files (llvm_stamp cfg))
blank-silent v = v

dead_fails :
    (renew_llvm itself unxz none_taken overwrite dead cfg
      (stamp_says (llvm_stamp cfg) cfg.sha blank).1).0
    ≢ ok tt
unfolding renew_llvm stamp_says cache_path fetch_file cached_artifact_ok read_file stat mkdir_all
    join_path find_cut download_with_retries attempts_from download_attempt codes
dead_fails e = ground arith

prepare_llvm-Vouches_example :
    ¬ Vouches cfg.sha
      ((prepare_llvm itself unxz none_taken overwrite dead cfg blank).1.files (llvm_stamp cfg))
prepare_llvm-Vouches_example =
    prepare_llvm-Vouches itself unxz none_taken overwrite dead cfg blank apart blank-silent
      dead_fails

up : List Bytes → List Bytes
up [] = []
up (e ∷ es) = es

-- The file that a path leads to when links are followed, element by element; with fuel.
followed : ℕ → (Bytes → Option Node) → List Bytes → List Bytes → List Bytes
followed zero files stack elements = stack
followed (suc fuel) files stack [] = stack
followed (suc fuel) files stack (e ∷ es) =
    if equal e dotdot
    then followed fuel files (up stack) es
    else (let path = join (reverse (e ∷ stack)) slash in
        elim (files path) [
          | none ↦ followed fuel files (e ∷ stack) es
          | some (regular s mode) ↦ followed fuel files (e ∷ stack) es
          | some (symlink link) ↦ followed fuel files stack (split link slash ++ es)
        ])

-- Each link passes the test by the text of its target, and the third entry is written through both.
abbrev chained : TarStream
chained = record {
  entries =
      item symbolic_link (codes "L/a/b/s") (codes "../..") []
      ∷ item symbolic_link (codes "L/t") (codes "a/b/s/..") []
      ∷ item regular_file (codes "L/t/evil") [] (codes "x")
      ∷ [];
  complete = true;
}

abbrev after_chained : Result (Unit {0}) × System
after_chained = extract_stream (codes "k/llvm") (some chained) blank

-- The extraction ends well, and the file it wrote below the destination stands beside it.
escaped :
    (after_chained.0 ≡ ok tt)
    × (after_chained.1.files (codes "k/llvm/t/evil") ≡ some (regular (codes "x") 0o755))
    × (followed 20 after_chained.1.files [] (split (codes "k/llvm/t/evil") slash)
        ≡ codes "evil" ∷ codes "k" ∷ [])
unfolding extract_entries write_llvm_entry write_llvm_file write_llvm_symlink llvm_entry_target
    link_stays root_of join_path codes find_cut before_suffix dir mkdir_all open_empty append_file
    close_file remove make_symlink update equal followed up split join
escaped = (refl, refl, refl)
