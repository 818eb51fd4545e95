-- ===== src/Builder/Toolchain/Extract.antt =====
-- `extractLLVM`, `writeLLVMEntry` and below, and `prepareLLVM`, cmd/ossein-kernel/main.go. The xz
-- reader is a parameter, and so is primordium's `WriteFile`.
use ossein_kernel.Base.{
  Bool, Bytes, List, Option, [], codes, false, if◌then◌else◌, none, some, true, ℕ, ◌∷◌,
}
use ossein_kernel.Paths.{dir, join_path}
use ossein_kernel.System.{
  M, append_file, catch, decompress_error, make_symlink, mkdir_all, open_empty, pure, read_error,
  read_file, remove, remove_all, tar_error, tar_escape, throw, ◌>>=◌, ◌>>◌,
}
use ossein_kernel.Builder.Stamp.{stamp_says}
use ossein_kernel.Tar.{TarEntry, TarKind, TarStream, directory, perm, regular_file, symbolic_link}
use ossein_kernel.Builder.Download.{Network, cache_path, closed_after, fetch_file}
use ossein_kernel.Builder.Toolchain.{
  Target, escapes, link_stays, llvm_entry_target, root_of, unwanted, wanted,
}

abbrev pub whole_or_error : Bool → M (Unit {0})
whole_or_error true = pure tt
whole_or_error false = throw read_error

unfoldable pub write_llvm_file : Bytes → TarEntry → M (Unit {0})
write_llvm_file target hdr =
    mkdir_all (dir target)
    >> open_empty target (perm hdr.mode)
    >> closed_after target (append_file target hdr.contents >> whole_or_error hdr.readable)

abbrev pub link_anew : Bytes → Bytes → M (Unit {0})
link_anew link target =
    mkdir_all (dir target) >> catch (remove target) (λ _. pure tt) >> make_symlink link target

unfoldable pub write_llvm_symlink : Bytes → Bytes → TarEntry → M (Unit {0})
write_llvm_symlink root target hdr =
    if link_stays root target hdr.link_name
    then link_anew hdr.link_name target
    else throw tar_escape

abbrev pub write_llvm_kind : TarKind → Bytes → Bytes → TarEntry → M (Unit {0})
write_llvm_kind directory root target hdr = mkdir_all target
write_llvm_kind regular_file root target hdr = write_llvm_file target hdr
write_llvm_kind symbolic_link root target hdr = write_llvm_symlink root target hdr
write_llvm_kind _ root target hdr = pure tt

unfoldable pub write_llvm_entry : Bytes → Bytes → TarEntry → M (Unit {0})
write_llvm_entry root target hdr = write_llvm_kind hdr.kind root target hdr

abbrev pub extract_to : Target → Bytes → TarEntry → M (Unit {0})
extract_to escapes root hdr = throw tar_escape
extract_to unwanted root hdr = pure tt
extract_to (wanted target) root hdr = write_llvm_entry root target hdr

unfoldable pub extract_entries : Bytes → List TarEntry → M (Unit {0})
extract_entries dest [] = pure tt
extract_entries dest (hdr ∷ hdrs) =
    extract_to (llvm_entry_target hdr.entry_name dest (root_of dest)) (root_of dest) hdr
    >> extract_entries dest hdrs

abbrev pub end_of_tar : Bool → M (Unit {0})
end_of_tar true = pure tt
end_of_tar false = throw tar_error

abbrev pub extract_stream : Bytes → Option TarStream → M (Unit {0})
extract_stream dest none = throw decompress_error
extract_stream dest (some stream) =
    extract_entries dest stream.entries >> end_of_tar stream.complete

-- The fields of `config` about the toolchain, and the directory `scratchDir`.
pub record LlvmConfig : Type 0 where
  pub scratch : Bytes
  pub sha : Bytes

abbrev pub llvm_dir : LlvmConfig → Bytes
llvm_dir cfg = join_path cfg.scratch (codes "llvm")

abbrev pub llvm_stamp : LlvmConfig → Bytes
llvm_stamp cfg = join_path (llvm_dir cfg) (codes ".ossein-llvm-sha")

abbrev pub llvm_tarball : LlvmConfig → Bytes
llvm_tarball cfg = cache_path (join_path cfg.scratch (codes "llvm.tar.xz")) cfg.sha

module _ (unxz : Bytes → Option TarStream) where
  unfoldable pub extract_llvm : Bytes → Bytes → M (Unit {0})
  extract_llvm tarball dest = read_file read_error tarball >>= λ s. extract_stream dest (unxz s)

module _ (sha256 : Bytes → Bytes) (unxz : Bytes → Option TarStream) (taken : ℕ → Bytes → Bool)
    (write_file : Bytes → Bytes → M (Unit {0})) where
  -- `prepareLLVM` up to the stamp: the toolchain is fetched, and extracted into an empty directory.
  unfoldable pub renew_llvm : Network → LlvmConfig → M (Unit {0})
  renew_llvm net cfg =
      fetch_file sha256 net (llvm_tarball cfg) cfg.sha
      >> remove_all taken (llvm_dir cfg)
      >> mkdir_all (llvm_dir cfg)
      >> extract_llvm unxz (llvm_tarball cfg) (llvm_dir cfg)

  abbrev pub llvm_unless : Network → LlvmConfig → Bool → M Bytes
  llvm_unless net cfg true = pure (llvm_dir cfg)
  llvm_unless net cfg false =
      renew_llvm net cfg >> (write_file (llvm_stamp cfg) cfg.sha >> pure (llvm_dir cfg))

  unfoldable pub prepare_llvm : Network → LlvmConfig → M Bytes
  prepare_llvm net cfg = stamp_says (llvm_stamp cfg) cfg.sha >>= llvm_unless net cfg
