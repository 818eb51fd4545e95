-- ===== src/Builder/Seed.antt =====
-- The kernel that the build boots first: `resolveBootstrap`, `fetchSeedKernel`, `extractSeedKernel`
-- and `writeSeedKernel`, cmd/ossein-kernel/main.go. The zstd reader is a parameter.
pub mod Installed
pub mod First
pub mod Cached
pub mod Resolved
use ossein_kernel.Base.{
  Bool, Bytes, List, Option, [], codes, false, if◌then◌else◌, none, some, true, ℕ, ◌&&◌, ◌++◌, ◌∷◌,
}
use ossein_kernel.Strings.{has_prefix}
use ossein_kernel.Paths.{base, dir, join_path}
use ossein_kernel.System.{
  M, append_file, create, decompress_error, mkdir_all, no_seed_vmlinux, pure, read_error, read_file,
  rename, stat, tar_error, throw, ◌>>=◌, ◌>>◌,
}
use ossein_kernel.Tar.{TarEntry, TarKind, TarStream, regular_file}
use ossein_kernel.Builder.Stamp.{is_large_as}
use ossein_kernel.Builder.Download.{Network, cache_path, closed_after, fetch_file}
use ossein_kernel.Builder.Toolchain.Extract.{whole_or_error}

abbrev pub min_kernel_bytes : ℕ
min_kernel_bytes = 0x100000

abbrev pub is_regular : TarKind → Bool
is_regular regular_file = true
is_regular _ = false

unfoldable pub is_seed_kernel : TarEntry → Bool
is_seed_kernel hdr = is_regular hdr.kind && has_prefix (base hdr.entry_name) (codes "vmlinux")

unfoldable pub write_seed_kernel : Bytes → TarEntry → M (Unit {0})
unfolding create
write_seed_kernel cache hdr =
    mkdir_all (dir cache)
    >> create (cache ++ codes ".part")
    >> closed_after (cache ++ codes ".part")
        (append_file (cache ++ codes ".part") hdr.contents >> whole_or_error hdr.readable)
    >> rename (cache ++ codes ".part") cache

-- The end of the archive, or of what can be read of it.
abbrev pub no_more_entries : Bool → M (Unit {0})
no_more_entries true = throw no_seed_vmlinux
no_more_entries false = throw tar_error

unfoldable pub seed_from : Bytes → Bool → List TarEntry → M (Unit {0})
seed_from cache complete [] = no_more_entries complete
seed_from cache complete (hdr ∷ hdrs) =
    let rest = seed_from cache complete hdrs in
    if is_seed_kernel hdr then write_seed_kernel cache hdr else rest

abbrev pub seed_stream : Bytes → Option TarStream → M (Unit {0})
seed_stream cache none = throw decompress_error
seed_stream cache (some stream) = seed_from cache stream.complete stream.entries

-- The fields of `config` about the bootstrap kernel, and the directory `scratchDir`.
pub record SeedConfig : Type 0 where
  pub scratch : Bytes
  pub out : Bytes
  pub kata_sha : Bytes

abbrev pub seed_cache : SeedConfig → Bytes
seed_cache cfg = join_path cfg.scratch (codes "bootstrap-kernel-arm64")

abbrev pub seed_tarball : SeedConfig → Bytes
seed_tarball cfg = cache_path (join_path cfg.scratch (codes "seed-kernel.tar.zst")) cfg.kata_sha

module _ (unzstd : Bytes → Option TarStream) where
  unfoldable pub extract_seed_kernel : Bytes → Bytes → M (Unit {0})
  extract_seed_kernel tarball cache =
      read_file read_error tarball >>= λ s. seed_stream cache (unzstd s)

  module _ (sha256 : Bytes → Bytes) where
    abbrev pub seed_unless : Network → SeedConfig → Bool → M Bytes
    seed_unless net cfg true = pure (seed_cache cfg)
    seed_unless net cfg false =
        fetch_file sha256 net (seed_tarball cfg) cfg.kata_sha
        >> extract_seed_kernel (seed_tarball cfg) (seed_cache cfg)
        >> pure (seed_cache cfg)

    unfoldable pub fetch_seed_kernel : Network → SeedConfig → M Bytes
    fetch_seed_kernel net cfg = stat (seed_cache cfg) >>= λ o. seed_unless net cfg (is_large_as 1 o)

    unfoldable pub resolve_bootstrap : Network → SeedConfig → M Bytes
    resolve_bootstrap net cfg = stat cfg.out >>= λ o.
        if is_large_as min_kernel_bytes o then pure cfg.out else fetch_seed_kernel net cfg
