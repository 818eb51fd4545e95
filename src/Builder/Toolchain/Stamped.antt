-- ===== src/Builder/Toolchain/Stamped.antt =====
-- The toolchain's stamp vouches only for a toolchain that was extracted to the end.
use mathlib.Core.Path.{subst}
use ossein_kernel.Base.{All, Bool, Bytes, Option, false, refl, some, sym, true, ℕ, ◌≡◌, ◌≢◌}
use ossein_kernel.System.{
  M, Result, System, and_then, err, mkdir_all, ok, pure, read_error, regular, remove_all, stopped,
  ◌>>◌,
}
use ossein_kernel.System.Frame.{Frame-bind, mkdir_all-Frame, read_file-Frame}
use ossein_kernel.Tar.{TarStream}
use ossein_kernel.Builder.Stamp.{stamp_says}
use ossein_kernel.Builder.Stamp.Vouching.{
  Drops, Drops-bind, Drops-of_Frame, Vouches, remove_all-Drops, silent, stamp_says-Frame,
  stamp_says-Vouches,
}
use ossein_kernel.Builder.Download.{Network, partial_path}
use ossein_kernel.Builder.Download.Fetch.{fetch_file-Frame}
use ossein_kernel.Builder.Toolchain.Extract.{
  LlvmConfig, extract_llvm, extract_stream, llvm_dir, llvm_stamp, llvm_tarball, llvm_unless,
  prepare_llvm, renew_llvm,
}
use ossein_kernel.Builder.Toolchain.Inside.{Misses, extract_stream-Frame}

-- `WriteFile` leaves the text in the file when it returns no error.
abbrev pub WritesWhole : (Bytes → Bytes → M (Unit {0})) → Type 0
WritesWhole write_file =
    (path text : Bytes) (s : System)
    → (write_file path text s).0 ≡ ok tt
    → (mode : ℕ) × ((write_file path text s).1.files path ≡ some (regular text mode))

-- The stamp is none of the files that are downloaded or extracted.
pub record IsApart (sha256 : Bytes → Bytes) (unxz : Bytes → Option TarStream) (cfg : LlvmConfig)
    : Type 0 where
  pub tarball : llvm_tarball cfg ≢ llvm_stamp cfg
  pub partial : partial_path sha256 (llvm_tarball cfg) ≢ llvm_stamp cfg
  pub entries :
      (s : Bytes) (stream : TarStream)
      → unxz s ≡ some stream
      → All (Misses (llvm_dir cfg) (llvm_stamp cfg)) stream.entries

module _ (sha256 : Bytes → Bytes) (unxz : Bytes → Option TarStream) (taken : ℕ → Bytes → Bool)
    (write_file : Bytes → Bytes → M (Unit {0})) (net : Network) (cfg : LlvmConfig) where
  renew_llvm-Drops :
      IsApart sha256 unxz cfg
      → Drops (llvm_stamp cfg) (renew_llvm sha256 unxz taken write_file net cfg)
  unfolding renew_llvm extract_llvm
  renew_llvm-Drops a =
      Drops-bind (λ _. extract_llvm unxz (llvm_tarball cfg) (llvm_dir cfg))
        (Drops-bind (λ _. mkdir_all (llvm_dir cfg))
          (Drops-bind (λ _. remove_all taken (llvm_dir cfg))
            (Drops-of_Frame (
              fetch_file-Frame sha256 net (llvm_tarball cfg) cfg.sha (llvm_stamp cfg) a.tarball
                a.partial))
            (λ _. remove_all-Drops taken (llvm_dir cfg) (llvm_stamp cfg)))
          (λ _. Drops-of_Frame (mkdir_all-Frame (llvm_dir cfg) (llvm_stamp cfg))))
        (λ _. Drops-of_Frame (
          Frame-bind (λ s. extract_stream (llvm_dir cfg) (unxz s))
            (read_file-Frame read_error (llvm_tarball cfg) (llvm_stamp cfg))
            (λ s. extract_stream-Frame (llvm_dir cfg) (llvm_stamp cfg) (unxz s) (a.entries s))))

  abbrev renewing : System → Result (Unit {0}) × System
  renewing s = renew_llvm sha256 unxz taken write_file net cfg s

  abbrev after_stamp : System → System
  after_stamp s = (stamp_says (llvm_stamp cfg) cfg.sha s).1

  renewed-silent :
      (r : Result (Unit {0})) (t : System)
      → r ≢ ok tt
      → ¬ Vouches cfg.sha (t.files (llvm_stamp cfg))
      → ¬ Vouches cfg.sha (
          (and_then (λ _. write_file (llvm_stamp cfg) cfg.sha >> pure (llvm_dir cfg)) r t).1.files
            (llvm_stamp cfg))
  renewed-silent (ok u) t n v = absurd (n refl)
  renewed-silent (err e) t n v = v
  renewed-silent stopped t n v = v

  unless-silent :
      (r : Result Bool) (t : System)
      → IsApart sha256 unxz cfg
      → r ≢ ok true
      → (renewing t).0 ≢ ok tt
      → ¬ Vouches cfg.sha (t.files (llvm_stamp cfg))
      → ¬ Vouches cfg.sha (
          (and_then (llvm_unless sha256 unxz taken write_file net cfg) r t).1.files
            (llvm_stamp cfg))
  unless-silent (ok true) t a n k v = absurd (n refl)
  unless-silent (ok false) t a n k v = renewed-silent (renewing t).0 (renewing t).1 k (
      silent cfg.sha (t.files (llvm_stamp cfg)) ((renewing t).1.files (llvm_stamp cfg))
        ((renew_llvm-Drops a).drops t) v)
  unless-silent (err e) t a n k v = v
  unless-silent stopped t a n k v = v

  -- If the stamp does not vouch for the toolchain, and its download, the removal of the old one or
  -- the extraction does not end well, then it does not vouch for it afterwards either, wherever the
  -- process was stopped. The stamp is none of the files downloaded or extracted.
  pub prepare_llvm-Vouches :
      (s : System)
      → IsApart sha256 unxz cfg
      → ¬ Vouches cfg.sha (s.files (llvm_stamp cfg))
      → (renew_llvm sha256 unxz taken write_file net cfg
          (stamp_says (llvm_stamp cfg) cfg.sha s).1).0
        ≢ ok tt
      → ¬ Vouches cfg.sha
          ((prepare_llvm sha256 unxz taken write_file net cfg s).1.files (llvm_stamp cfg))
  unfolding prepare_llvm
  prepare_llvm-Vouches s a v n =
      unless-silent (stamp_says (llvm_stamp cfg) cfg.sha s).0 (after_stamp s) a
        (λ e. v (stamp_says-Vouches (llvm_stamp cfg) cfg.sha s e)) n
        (subst (λ o. ¬ Vouches cfg.sha o)
          (sym ((stamp_says-Frame (llvm_stamp cfg) cfg.sha (llvm_stamp cfg)).frame s)) v)
