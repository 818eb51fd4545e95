-- ===== src/Builder/Disk/Prepared.antt =====
-- The root disk that the build boots is whole, and is the one that the stamp names.
use mathlib.Core.Path.{subst}
use ossein_kernel.Base.{
  Bool, Bytes, List, Option, [], ap, false, inl, refl, some, sym, true, ℕ, ◌∙◌, ◌∷◌, ◌≡◌, ◌⊎◌,
}
use ossein_kernel.System.{Fault, M, Node, System, fails, regular, stops, update, works}
use ossein_kernel.System.Frame.{update-other, update-same}
use ossein_kernel.System.Triples.{After, Files, Triple}
use ossein_kernel.Rootfs.Image.{Surroundings, build_history, builds, image_after}
use ossein_kernel.Rootfs.Image.Whole.{build-IsWhole}
use ossein_kernel.Rootfs.Writer.{History}
use ossein_kernel.Rootfs.Unpack.{Source}
use ossein_kernel.Builder.Disk.{
  DiskConfig, build_disk, build_with, earliest, outcome, partial_image, root_image,
  rootfs_size_bytes, source_at, whole_build, with_image,
}
use ossein_kernel.Builder.Download.Elsewhere.{partial_path-ne}
use ossein_kernel.System.Triples.Installed.{Installed}

-- What a successful `Build` with this init leaves in the image file.
pub record IsImage (x : Surroundings) (src : Source) (text : Bytes) : Type 0 where
  pub succeeded : builds x src rootfs_size_bytes ≡ true
  pub written : x.disk (build_history x src rootfs_size_bytes) ≡ text

module _ (sha256 : Bytes → Bytes) (x : Surroundings) (write_file : Bytes → Bytes → M (Unit {0}))
    (cfg : DiskConfig) (init : Bytes) (mode : ℕ) (was : Option Node) where
  abbrev Src : Source
  Src = source_at x cfg.init (some (regular init mode))

  -- Before: the file of the init, and what stands where the root disk will.
  abbrev pub DiskWas : Files → Type 0
  DiskWas fs = (fs (root_image cfg) ≡ was) × (fs cfg.init ≡ some (regular init mode))

  -- The root disk is as it was, or whole.
  abbrev pub DiskIsSafe : Files → Type 0
  DiskIsSafe fs =
      (fs (root_image cfg) ≡ was)
      ⊎ Installed (IsImage x (source_at x cfg.init (some (regular init mode))))
          (fs (root_image cfg))

  abbrev pub Partly : Files → Type 0
  Partly fs = (fs (root_image cfg) ≡ was) × Installed (IsImage x Src) (fs (partial_image cfg))

  abbrev pub Done : Files → Type 0
  Done fs = Installed (IsImage x Src) (fs (root_image cfg))

  after_build :
      (fs : Files) (h : History)
      → DiskWas fs
      → update fs (partial_image cfg) (image_after x (fs (partial_image cfg)) h) (root_image cfg)
        ≡ was
  after_build fs h p =
      update-other fs (partial_image cfg) (root_image cfg)
        (image_after x (fs (partial_image cfg)) h) (partial_path-ne (root_image cfg))
      ∙ p.0

  whole-After :
      (b : Bool) (t : System)
      → builds x Src rootfs_size_bytes ≡ b
      → DiskWas t.files
      → After
          (λ _. Partly)
          DiskIsSafe
          (outcome b)
          (with_image x (partial_image cfg) (build_history x Src rootfs_size_bytes) t)
  whole-After true t e p = (
    after_build t.files (build_history x Src rootfs_size_bytes) p,
    record {
      text = x.disk (build_history x Src rootfs_size_bytes);
      good = record { succeeded = e; written = refl };
      holds = record {
        mode = x.image_mode;
        is_file =
            update-same t.files (partial_image cfg)
              (image_after x (t.files (partial_image cfg)) (build_history x Src rootfs_size_bytes))
            ∙ build-IsWhole x (t.files (partial_image cfg)) Src rootfs_size_bytes e;
      };
    },
  )
  whole-After false t e p = inl (after_build t.files (build_history x Src rootfs_size_bytes) p)

  whole_build-After :
      (src : Source) (t : System)
      → src ≡ Src
      → DiskWas t.files
      → After
          (λ _. Partly)
          DiskIsSafe
          (whole_build x src (partial_image cfg) t).0
          (whole_build x src (partial_image cfg) t).1
  whole_build-After src t e p =
      subst
        (λ s.
          After (λ _. Partly) DiskIsSafe (whole_build x s (partial_image cfg) t).0
            (whole_build x s (partial_image cfg) t).1)
        (sym e) (whole-After (builds x Src rootfs_size_bytes) t refl p)

  build_with-After :
      (faults : List Fault) (t : System)
      → DiskWas t.files
      → After
          (λ _. Partly)
          DiskIsSafe
          (build_with x cfg.init (partial_image cfg) faults t).0
          (build_with x cfg.init (partial_image cfg) faults t).1
  build_with-After [] t p =
      whole_build-After (source_at x cfg.init (t.files cfg.init)) t (ap (source_at x cfg.init) p.1)
        p
  build_with-After (works ∷ rest) t p =
      whole_build-After (source_at x cfg.init (t.files cfg.init)) (record t { faults = rest })
        (ap (source_at x cfg.init) p.1) p
  build_with-After (fails n ∷ rest) t p =
      whole_build-After (source_at x cfg.init (t.files cfg.init)) (record t { faults = rest })
        (ap (source_at x cfg.init) p.1) p
  build_with-After (stops n ∷ rest) t p = inl (
      after_build t.files
        (earliest n (build_history x (source_at x cfg.init (t.files cfg.init)) rootfs_size_bytes))
        p)

  pub build_disk-Triple :
      Triple DiskWas (build_disk x cfg.init (partial_image cfg)) (λ _. Partly) DiskIsSafe
  unfolding build_disk
  build_disk-Triple = record { run = λ s p. build_with-After s.faults s p }
