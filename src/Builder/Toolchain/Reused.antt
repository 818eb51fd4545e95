-- ===== src/Builder/Toolchain/Reused.antt =====
-- A toolchain that was prepared is used again as it is.
use mathlib.Core.Path.{subst}
use ossein_kernel.Base.{
  Bool, Bytes, Option, arith, equal_refl, false, refl, some, sym, true, ℕ, ◌≡◌,
}
use ossein_kernel.Strings.Fields.{Word, trim_space-Word}
use ossein_kernel.System.{
  M, Node, Result, System, and_then, err, ok, pure, quiet, regular, stopped, ◌>>◌,
}
use ossein_kernel.Tar.{TarStream}
use ossein_kernel.Builder.Stamp.{stamp_says}
use ossein_kernel.Builder.Stamp.Vouching.{
  Vouches, stamp_says-Frame, stamp_says-Vouches, stamp_says-true,
}
use ossein_kernel.Builder.Download.{Network}
use ossein_kernel.Builder.Toolchain.Extract.{
  LlvmConfig, llvm_dir, llvm_stamp, llvm_unless, prepare_llvm, renew_llvm,
}
use ossein_kernel.Builder.Toolchain.Stamped.{WritesWhole}

module _ (sha256 : Bytes → Bytes) (unxz : Bytes → Option TarStream) (taken : ℕ → Bytes → Bool)
    (write_file : Bytes → Bytes → M (Unit {0})) (cfg : LlvmConfig) where
  key-Vouches :
      (o : Option Node) (mode : ℕ)
      → Word cfg.sha
      → o ≡ some (regular cfg.sha mode)
      → Vouches cfg.sha o
  key-Vouches o mode w e =
      subst (Vouches cfg.sha) (sym e) (rw (trim_space-Word cfg.sha w) (equal_refl cfg.sha))

  stamped :
      (r : Result (Unit {0})) (t : System) (d : Bytes)
      → (r ≡ ok tt → Vouches cfg.sha (t.files (llvm_stamp cfg)))
      → (and_then (λ _. pure (llvm_dir cfg)) r t).0 ≡ ok d
      → Vouches cfg.sha ((and_then (λ _. pure (llvm_dir cfg)) r t).1.files (llvm_stamp cfg))
  stamped (ok u) t d v e = v refl
  stamped (err f) t d v e = absurd (ground arith)
  stamped stopped t d v e = absurd (ground arith)

  renewed :
      (r : Result (Unit {0})) (t : System) (d : Bytes)
      → WritesWhole write_file
      → Word cfg.sha
      → (and_then (λ _. write_file (llvm_stamp cfg) cfg.sha >> pure (llvm_dir cfg)) r t).0 ≡ ok d
      → Vouches cfg.sha (
          (and_then (λ _. write_file (llvm_stamp cfg) cfg.sha >> pure (llvm_dir cfg)) r t).1.files
            (llvm_stamp cfg))
  renewed (ok u) t d whole w e =
      stamped (write_file (llvm_stamp cfg) cfg.sha t).0 (write_file (llvm_stamp cfg) cfg.sha t).1 d
        (λ f.
          let (mode, g) = whole (llvm_stamp cfg) cfg.sha t f in
          key-Vouches ((write_file (llvm_stamp cfg) cfg.sha t).1.files (llvm_stamp cfg)) mode w g)
        e
  renewed (err f) t d whole w e = absurd (ground arith)
  renewed stopped t d whole w e = absurd (ground arith)

  prepared :
      (net : Network) (r : Result Bool) (t : System) (d : Bytes)
      → WritesWhole write_file
      → Word cfg.sha
      → (r ≡ ok true → Vouches cfg.sha (t.files (llvm_stamp cfg)))
      → (and_then (llvm_unless sha256 unxz taken write_file net cfg) r t).0 ≡ ok d
      → Vouches cfg.sha (
          (and_then (llvm_unless sha256 unxz taken write_file net cfg) r t).1.files
            (llvm_stamp cfg))
  prepared net (ok true) t d whole w v e = v refl
  prepared net (ok false) t d whole w v e =
      renewed (renew_llvm sha256 unxz taken write_file net cfg t).0
        (renew_llvm sha256 unxz taken write_file net cfg t).1 d whole w e
  prepared net (err f) t d whole w v e = absurd (ground arith)
  prepared net stopped t d whole w v e = absurd (ground arith)

  prepare_llvm-ok :
      (net : Network) (s : System) (d : Bytes)
      → WritesWhole write_file
      → Word cfg.sha
      → (prepare_llvm sha256 unxz taken write_file net cfg s).0 ≡ ok d
      → Vouches cfg.sha
          ((prepare_llvm sha256 unxz taken write_file net cfg s).1.files (llvm_stamp cfg))
  unfolding prepare_llvm
  prepare_llvm-ok net s d whole w e =
      let m = stamp_says (llvm_stamp cfg) cfg.sha s in
      prepared net m.0 m.1 d whole w
        (λ f.
          subst (Vouches cfg.sha)
            (sym ((stamp_says-Frame (llvm_stamp cfg) cfg.sha (llvm_stamp cfg)).frame s))
            (stamp_says-Vouches (llvm_stamp cfg) cfg.sha s f))
        e

  -- After a success, another `prepareLLVM` for the same digest gives the same directory and changes
  -- nothing, whatever the server sends, if no call fails. `WriteFile` writes the whole text when it
  -- returns no error, and the digest has no white space in it.
  pub prepare_llvm_again :
      (net later : Network) (s : System) (d : Bytes)
      → WritesWhole write_file
      → Word cfg.sha
      → (prepare_llvm sha256 unxz taken write_file net cfg s).0 ≡ ok d
      → prepare_llvm sha256 unxz taken write_file later cfg
          (quiet (prepare_llvm sha256 unxz taken write_file net cfg s).1)
        ≡ (ok (llvm_dir cfg), quiet (prepare_llvm sha256 unxz taken write_file net cfg s).1)
  prepare_llvm_again net later s d whole w e =
      unfold prepare_llvm in
      rw
        (stamp_says-true (llvm_stamp cfg) cfg.sha
          (prepare_llvm sha256 unxz taken write_file net cfg s).1
          (prepare_llvm-ok net s d whole w e))
        refl
