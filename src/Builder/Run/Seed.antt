-- ===== src/Builder/Run/Seed.antt =====
-- What the preparation of the bootstrap kernel leaves alone.
use ossein_kernel.Base.{
  Bool, Bytes, List, Option, [], codes, false, none, some, true, ◌++◌, ◌∷◌, ◌≢◌,
}
use ossein_kernel.Paths.{dir}
use ossein_kernel.System.{decompress_error, no_seed_vmlinux, read_error, tar_error}
use ossein_kernel.System.Frame.{
  Frame, Frame-bind, Frame-pure, Frame-throw, append_file-Frame, create-Frame, mkdir_all-Frame,
  read_file-Frame, rename-Frame, stat-Frame, ◌then◌,
}
use ossein_kernel.Tar.{TarEntry, TarStream}
use ossein_kernel.Builder.Stamp.{is_large_as}
use ossein_kernel.Builder.Download.{Network}
use ossein_kernel.Builder.Download.Elsewhere.{Frame-closed_after, Frame-if}
use ossein_kernel.Builder.Download.Fetch.{fetch_file-Frame}
use ossein_kernel.Builder.Seed.{
  SeedConfig, extract_seed_kernel, fetch_seed_kernel, is_seed_kernel, min_kernel_bytes,
  resolve_bootstrap, seed_cache, seed_from, seed_stream, seed_tarball, seed_unless,
  write_seed_kernel,
}
use ossein_kernel.Builder.Toolchain.Extract.{whole_or_error}

module _ (p : Bytes) where
  whole_or_error-Frame : (b : Bool) → Frame p (whole_or_error b)
  whole_or_error-Frame true = Frame-pure p tt
  whole_or_error-Frame false = Frame-throw p read_error

  write_seed_kernel-Frame :
      (cache : Bytes) (hdr : TarEntry)
      → cache ≢ p
      → cache ++ codes ".part" ≢ p
      → Frame p (write_seed_kernel cache hdr)
  unfolding write_seed_kernel
  write_seed_kernel-Frame cache hdr h k =
      mkdir_all-Frame (dir cache) p
      then create-Frame (cache ++ codes ".part") p k
      then Frame-closed_after p (cache ++ codes ".part") (
          append_file-Frame (cache ++ codes ".part") hdr.contents p k
          then whole_or_error-Frame hdr.readable)
      then rename-Frame (cache ++ codes ".part") cache p k h

  seed_from-Frame :
      (cache : Bytes) (complete : Bool) (entries : List TarEntry)
      → cache ≢ p
      → cache ++ codes ".part" ≢ p
      → Frame p (seed_from cache complete entries)
  unfolding seed_from
  seed_from-Frame cache true [] h k = Frame-throw p no_seed_vmlinux
  seed_from-Frame cache false [] h k = Frame-throw p tar_error
  seed_from-Frame cache complete (hdr ∷ hdrs) h k =
      Frame-if (is_seed_kernel hdr) (write_seed_kernel-Frame cache hdr h k)
        (seed_from-Frame cache complete hdrs h k)

  seed_stream-Frame :
      (cache : Bytes) (o : Option TarStream)
      → cache ≢ p
      → cache ++ codes ".part" ≢ p
      → Frame p (seed_stream cache o)
  seed_stream-Frame cache none h k = Frame-throw p decompress_error
  seed_stream-Frame cache (some stream) h k =
      seed_from-Frame cache stream.complete stream.entries h k

  -- `p` is none of the files of the seed kernel.
  pub record IsNoSeed (cfg : SeedConfig) : Type 0 where
    pub cache : seed_cache cfg ≢ p
    pub partial : seed_cache cfg ++ codes ".part" ≢ p
    pub tarball : seed_tarball cfg ≢ p
    pub part : seed_tarball cfg ++ codes ".part" ≢ p

  module _ (sha256 : Bytes → Bytes) (unzstd : Bytes → Option TarStream) (net : Network) where
    seed_unless-Frame :
        (cfg : SeedConfig) (b : Bool) → IsNoSeed cfg → Frame p (seed_unless unzstd sha256 net cfg b)
    unfolding extract_seed_kernel
    seed_unless-Frame cfg true n = Frame-pure p (seed_cache cfg)
    seed_unless-Frame cfg false n =
        fetch_file-Frame sha256 net (seed_tarball cfg) cfg.kata_sha p n.tarball n.part
        then Frame-bind (λ s. seed_stream (seed_cache cfg) (unzstd s))
            (read_file-Frame read_error (seed_tarball cfg) p)
            (λ s. seed_stream-Frame (seed_cache cfg) (unzstd s) n.cache n.partial)
        then Frame-pure p (seed_cache cfg)

    pub resolve_bootstrap-Frame :
        (cfg : SeedConfig) → IsNoSeed cfg → Frame p (resolve_bootstrap unzstd sha256 net cfg)
    unfolding resolve_bootstrap fetch_seed_kernel
    resolve_bootstrap-Frame cfg n = Frame-bind _ (stat-Frame cfg.out p) (λ o.
        Frame-if (is_large_as min_kernel_bytes o) (Frame-pure p cfg.out) (
          Frame-bind _ (stat-Frame (seed_cache cfg) p)
            (λ c. seed_unless-Frame cfg (is_large_as 1 c) n)))
