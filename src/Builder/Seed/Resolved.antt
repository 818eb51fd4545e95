-- ===== src/Builder/Seed/Resolved.antt =====
-- The kernel that the build boots.
use ossein_kernel.Base.{
  Bool, Bytes, Option, [], false, if◌then◌else◌, inl, inr, refl, true, ◌≡◌, ◌≢◌, ◌⊎◌,
}
use ossein_kernel.System.{Node, pure}
use ossein_kernel.System.Triples.{Files, Triple, Triple-bind, Triple-from, Triple-to, stat-Triple}
use ossein_kernel.Tar.{TarStream}
use ossein_kernel.Builder.Stamp.{is_large_as}
use ossein_kernel.Builder.Download.{Network}
use ossein_kernel.Builder.Seed.{SeedConfig, fetch_seed_kernel, min_kernel_bytes, resolve_bootstrap}
use ossein_kernel.Builder.Seed.Cached.{
  CacheIs, CacheIsSafe, IsApart, Returned, fetch_seed_kernel-Triple, large_as-Found,
}

module _ (sha256 : Bytes → Bytes) (unzstd : Bytes → Option TarStream) (net : Network)
    (cfg : SeedConfig) where
  -- A kernel that was built before and is large enough, or the cached one.
  abbrev pub Resolved : Option Node → Bytes → Files → Type 0
  Resolved was path fs =
      ((path ≡ cfg.out) × (is_large_as min_kernel_bytes (fs cfg.out) ≡ true))
      ⊎ Returned sha256 unzstd net cfg was path fs

  out_or_seed-Triple :
      (was : Option Node) (b : Bool)
      → IsApart sha256 unzstd net cfg
      → cfg.kata_sha ≢ []
      → Triple
          (λ fs.
            CacheIs sha256 unzstd net cfg was fs
            × (b ≡ true → is_large_as min_kernel_bytes (fs cfg.out) ≡ true))
          (if b then pure cfg.out else fetch_seed_kernel unzstd sha256 net cfg)
          (Resolved was)
          (CacheIsSafe sha256 unzstd net cfg was)
  out_or_seed-Triple was true a ne = record { run = λ s p. inl (refl, p.1 refl) }
  out_or_seed-Triple was false a ne =
      Triple-from (λ fs p. p.0)
        (Triple-to (λ path fs q. inr q) (fetch_seed_kernel-Triple sha256 unzstd net cfg was a ne))

  -- `resolveBootstrap` returns the kernel that was built before, if there are enough bytes of it, or
  -- the cached seed kernel, which held something before or is the first regular file named `vmlinux…`
  -- of an archive with the digest that is wanted. Whatever fails and wherever the process is stopped,
  -- the cached kernel is as it was or such a file. A digest is wanted, and the archive is kept
  -- elsewhere.
  pub resolve_bootstrap-Triple :
      (was : Option Node)
      → IsApart sha256 unzstd net cfg
      → cfg.kata_sha ≢ []
      → Triple
          (CacheIs sha256 unzstd net cfg was)
          (resolve_bootstrap unzstd sha256 net cfg)
          (Resolved was)
          (CacheIsSafe sha256 unzstd net cfg was)
  unfolding resolve_bootstrap
  resolve_bootstrap-Triple was a ne =
      Triple-bind
        (λ o.
          if is_large_as min_kernel_bytes o
          then pure cfg.out
          else fetch_seed_kernel unzstd sha256 net cfg)
        (stat-Triple (λ fs p. inl p) cfg.out)
        (λ o.
          Triple-from (λ fs p. (p.0, large_as-Found min_kernel_bytes cfg.out o fs p.1))
            (out_or_seed-Triple was (is_large_as min_kernel_bytes o) a ne))
