-- ===== src/Builder/Seed/Cached.antt =====
-- The cached seed kernel is what it was, or the kernel of an archive that was verified.
use mathlib.Core.Path.{subst}
use ossein_kernel.Base.{
  Bool, Bytes, Option, [], arith, false, inl, inr, refl, some, true, ℕ, ◌∙◌, ◌≡◌, ◌≢◌, ◌⊎◌,
}
use ossein_kernel.System.{Node, Result, System, err, ok, read_error, stopped}
use ossein_kernel.System.Triples.{
  After, Files, Found, Holds, Triple, Triple-bind, Triple-from, Triple-given, read_file-Triple,
  stat-Triple, ◌and◌,
}
use ossein_kernel.Tar.{TarStream}
use ossein_kernel.Builder.Stamp.{is_large_as}
use ossein_kernel.Builder.Seed.First.{IsFirst, seed_stream-Triple}
use ossein_kernel.Builder.Seed.{
  SeedConfig, extract_seed_kernel, fetch_seed_kernel, seed_cache, seed_stream, seed_tarball,
  seed_unless,
}
use ossein_kernel.Builder.Download.{Network, equal_fold, fetch_file, partial_path}
use ossein_kernel.Builder.Download.Verified.{OnOk, Verified}
use ossein_kernel.System.Triples.Installed.{Installed}
use ossein_kernel.Builder.Download.Fetch.{fetch_file-Fetched, fetch_file-Frame}

-- The kernel is the first one in an archive with this digest.
pub record IsSeed (sha256 : Bytes → Bytes) (unzstd : Bytes → Option TarStream) (want kernel : Bytes)
    : Type 0 where
  pub text : Bytes
  pub stream : TarStream
  pub digest : equal_fold (sha256 text) want ≡ true
  pub archive : unzstd text ≡ some stream
  pub first : IsFirst stream.entries kernel

pub large_as-Found :
    (least : ℕ) (path : Bytes) (o : Option Node) (fs : Files)
    → Found path o fs
    → is_large_as least o ≡ true
    → is_large_as least (fs path) ≡ true
large_as-Found least path o fs (inl e) h =
    let no = subst (λ m. is_large_as least m ≡ true) e h in absurd (ground arith)
large_as-Found least path o fs (inr e) h = subst (λ m. is_large_as least m ≡ true) e h

module _ (sha256 : Bytes → Bytes) (unzstd : Bytes → Option TarStream) (net : Network)
    (cfg : SeedConfig) where
  abbrev Seed : Bytes → Type 0
  Seed = IsSeed sha256 unzstd cfg.kata_sha

  abbrev pub CacheIs : Option Node → Files → Type 0
  CacheIs was fs = fs (seed_cache cfg) ≡ was

  -- The cached file is as it was, or the kernel of a verified archive.
  abbrev pub CacheIsSafe : Option Node → Files → Type 0
  CacheIsSafe was fs =
      (fs (seed_cache cfg) ≡ was)
      ⊎ Installed (IsSeed sha256 unzstd cfg.kata_sha) (fs (seed_cache cfg))

  -- The tarball is none of the files of the cached kernel.
  abbrev pub IsApart : Type 0
  IsApart =
      (seed_tarball cfg ≢ seed_cache cfg)
      × (partial_path sha256 (seed_tarball cfg) ≢ seed_cache cfg)

  digest-Holds :
      (text : Bytes) (o : Option Node)
      → Verified sha256 cfg.kata_sha o
      → Holds text o
      → equal_fold (sha256 text) cfg.kata_sha ≡ true
  digest-Holds text o v h = subst (Verified sha256 cfg.kata_sha) h.is_file v

  abbrev BothFetched : Option Node → Files → Type 0
  BothFetched was fs = CacheIs was fs × Verified sha256 cfg.kata_sha (fs (seed_tarball cfg))

  fetched-After :
      (was : Option Node) (r : Result (Unit {0})) (t : System)
      → CacheIs was t.files
      → OnOk sha256 cfg.kata_sha (Verified sha256 cfg.kata_sha (t.files (seed_tarball cfg))) r
      → After (λ _. BothFetched was) (CacheIsSafe was) r t
  fetched-After was (ok u) t c v = (c, v)
  fetched-After was (err e) t c v = inl c
  fetched-After was stopped t c v = inl c

  fetch_file-Triple :
      (was : Option Node)
      → IsApart
      → cfg.kata_sha ≢ []
      → Triple
          (CacheIs was)
          (fetch_file sha256 net (seed_tarball cfg) cfg.kata_sha)
          (λ _. BothFetched was)
          (CacheIsSafe was)
  fetch_file-Triple was (a, b) ne = record {
    run = λ s p.
        let m = fetch_file sha256 net (seed_tarball cfg) cfg.kata_sha s in
        fetched-After was m.0 m.1
          ((fetch_file-Frame sha256 net (seed_tarball cfg) cfg.kata_sha (seed_cache cfg) a b).frame
              s
            ∙ p)
          ((fetch_file-Fetched sha256 net (seed_tarball cfg) cfg.kata_sha s ne).on_ok);
  }

  extracted-Triple :
      (was : Option Node)
      → Triple
          (BothFetched was)
          (extract_seed_kernel unzstd (seed_tarball cfg) (seed_cache cfg))
          (λ _ fs. Installed Seed (fs (seed_cache cfg)))
          (CacheIsSafe was)
  unfolding extract_seed_kernel
  extracted-Triple was =
      Triple-bind (λ s. seed_stream (seed_cache cfg) (unzstd s))
        (read_file-Triple (λ fs p. inl p.0) read_error (seed_tarball cfg))
        (λ s.
          Triple-given (λ fs p. digest-Holds s (fs (seed_tarball cfg)) p.0.1 p.1)
            (λ d.
              Triple-from (λ fs p. p.0.0)
                (seed_stream-Triple (seed_cache cfg) was Seed (unzstd s) (λ stream k a f. record {
                  text = s;
                  stream = stream;
                  digest = d;
                  archive = a;
                  first = f;
                }))))

  -- What the path that is returned stands for.
  abbrev pub Returned : Option Node → Bytes → Files → Type 0
  Returned was path fs =
      (path ≡ seed_cache cfg)
      × (((is_large_as 1 was ≡ true) × (fs (seed_cache cfg) ≡ was))
          ⊎ Installed (IsSeed sha256 unzstd cfg.kata_sha) (fs (seed_cache cfg)))

  seed_unless-Triple :
      (was : Option Node) (b : Bool)
      → IsApart
      → cfg.kata_sha ≢ []
      → Triple
          (λ fs. CacheIs was fs × (b ≡ true → is_large_as 1 was ≡ true))
          (seed_unless unzstd sha256 net cfg b)
          (Returned was)
          (CacheIsSafe was)
  seed_unless-Triple was true a ne = record { run = λ s p. (refl, inl (p.1 refl, p.0)) }
  seed_unless-Triple was false a ne =
      Triple-from (λ fs p. p.0)
        (fetch_file-Triple was a ne
          and extracted-Triple was
          and record { run = λ s p. (refl, inr p) })

  pub fetch_seed_kernel-Triple :
      (was : Option Node)
      → IsApart
      → cfg.kata_sha ≢ []
      → Triple
          (CacheIs was)
          (fetch_seed_kernel unzstd sha256 net cfg)
          (Returned was)
          (CacheIsSafe was)
  unfolding fetch_seed_kernel
  fetch_seed_kernel-Triple was a ne =
      Triple-bind (λ o. seed_unless unzstd sha256 net cfg (is_large_as 1 o))
        (stat-Triple (λ fs p. inl p) (seed_cache cfg))
        (λ o.
          Triple-from
            (λ fs p. (
              p.0,
              λ h.
                  subst (λ m. is_large_as 1 m ≡ true) p.0
                    (large_as-Found 1 (seed_cache cfg) o fs p.1 h),
            ))
            (seed_unless-Triple was (is_large_as 1 o) a ne))
