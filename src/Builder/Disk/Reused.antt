-- ===== src/Builder/Disk/Reused.antt =====
-- `prepareRootfs` returns a disk that was whole before, or was built from the init that is there.
use mathlib.Core.Path.{subst}
use ossein_kernel.Base.{
  Bool, Bytes, Option, ap, arith, false, inl, inr, refl, sym, true, ℕ, ◌∙◌, ◌≡◌, ◌≢◌, ◌⊎◌,
}
use ossein_kernel.System.{M, Node, Result, System, err, ok, pure, read_error, stopped}
use ossein_kernel.System.Triples.{
  After, Files, Triple, Triple-bind, Triple-from, Triple-given, read_file-Triple, same_text,
  stat-Triple, ◌and◌,
}
use ossein_kernel.Rootfs.Image.{Surroundings}
use ossein_kernel.Builder.Stamp.{is_large_as, stamp_says}
use ossein_kernel.Builder.Stamp.Vouching.{Vouches, stamp_says-Frame, stamp_says-Vouches}
use ossein_kernel.Builder.Disk.{
  DiskConfig, cache_key, is_reusable, prepare_rootfs, root_image, root_stamp, rootfs_cache_key,
  rootfs_for, rootfs_unless,
}
use ossein_kernel.Builder.Disk.Prepared.{DiskIsSafe, DiskWas}
use ossein_kernel.Builder.Seed.Cached.{large_as-Found}
use ossein_kernel.Builder.Promote.OnlyTested.{WritesOnly}
use ossein_kernel.Builder.Toolchain.Stamped.{WritesWhole}
use ossein_kernel.Builder.Disk.Stamped.{Renewed, renew_rootfs-Triple}

module _ (sha256 : Bytes → Bytes) (x : Surroundings) (write_file : Bytes → Bytes → M (Unit {0}))
    (cfg : DiskConfig) (init : Bytes) (mode : ℕ) (was : Option Node) where
  abbrev Was : Files → Type 0
  Was = DiskWas sha256 x write_file cfg init mode was

  abbrev Safe : Files → Type 0
  Safe = DiskIsSafe sha256 x write_file cfg init mode was

  -- The disk that is returned was there, not empty and named by the stamp; or it is new.
  abbrev pub Prepared : Bytes → Files → Type 0
  Prepared path fs =
      (path ≡ root_image cfg)
      × ((is_large_as 1 was ≡ true)
            × (fs (root_image cfg) ≡ was)
            × Vouches (cache_key sha256 cfg init) (fs (root_stamp cfg))
          ⊎ Renewed sha256 x write_file cfg init mode was fs)

  says-After :
      (r : Result Bool) (t : System)
      → Was t.files
      → (r ≡ ok true → Vouches (cache_key sha256 cfg init) (t.files (root_stamp cfg)))
      → After
          (λ b fs. Was fs × (b ≡ true → Vouches (cache_key sha256 cfg init) (fs (root_stamp cfg))))
          Safe
          r
          t
  says-After (ok b) t p v = (p, λ e. v (ap ok e))
  says-After (err e) t p v = inl p.0
  says-After stopped t p v = inl p.0

  stamp_says-Triple :
      Triple Was
        (stamp_says (root_stamp cfg) (cache_key sha256 cfg init))
        (λ b fs. Was fs × (b ≡ true → Vouches (cache_key sha256 cfg init) (fs (root_stamp cfg))))
        Safe
  stamp_says-Triple = record {
    run = λ s p.
        let key = cache_key sha256 cfg init in
        let m = stamp_says (root_stamp cfg) key s in
        says-After m.0 m.1
          (
            (stamp_says-Frame (root_stamp cfg) key (root_image cfg)).frame s ∙ p.0,
            (stamp_says-Frame (root_stamp cfg) key cfg.init).frame s ∙ p.1,
          )
          (λ e.
            subst (Vouches key)
              (sym ((stamp_says-Frame (root_stamp cfg) key (root_stamp cfg)).frame s))
              (stamp_says-Vouches (root_stamp cfg) key s e));
  }

  abbrev Reusable : Files → Type 0
  Reusable fs =
      (is_large_as 1 was ≡ true) × Vouches (cache_key sha256 cfg init) (fs (root_stamp cfg))

  is_reusable-Triple :
      (b : Bool)
      → Triple
          (λ fs. Was fs × (b ≡ true → Vouches (cache_key sha256 cfg init) (fs (root_stamp cfg))))
          (is_reusable cfg b)
          (λ c fs. Was fs × (c ≡ true → Reusable fs))
          Safe
  is_reusable-Triple true =
      Triple-bind (λ o. pure (is_large_as 1 o)) (stat-Triple (λ fs p. inl p.0.0) (root_image cfg))
        (λ o. record {
          run = λ s p. (
            p.0.0,
            λ e. (
              subst (λ n. is_large_as 1 n ≡ true) p.0.0.0
                  (large_as-Found 1 (root_image cfg) o s.files p.1 e),
              p.0.1 refl,
            ),
          );
        })
  is_reusable-Triple false = record { run = λ s p. (p.0, λ e. absurd (ground arith)) }

  rootfs_unless-Triple :
      (c : Bool)
      → WritesOnly write_file
      → WritesWhole write_file
      → root_stamp cfg ≢ root_image cfg
      → Triple
          (λ fs. Was fs × (c ≡ true → Reusable fs))
          (rootfs_unless sha256 x write_file cfg (cache_key sha256 cfg init) c)
          Prepared
          Safe
  rootfs_unless-Triple true only whole ne = record {
    run = λ s p. (refl, inl ((p.1 refl).0, p.0.0, (p.1 refl).1));
  }
  rootfs_unless-Triple false only whole ne =
      Triple-from (λ fs p. p.0)
        (renew_rootfs-Triple sha256 x write_file cfg init mode was only whole ne
          and record { run = λ s p. (refl, inr p) })

  rootfs_for-Triple :
      (key : Bytes)
      → key ≡ cache_key sha256 cfg init
      → WritesOnly write_file
      → WritesWhole write_file
      → root_stamp cfg ≢ root_image cfg
      → Triple Was (rootfs_for sha256 x write_file cfg key) Prepared Safe
  rootfs_for-Triple key e only whole ne = rw e (
      Triple-bind (rootfs_unless sha256 x write_file cfg (cache_key sha256 cfg init))
        (Triple-bind (is_reusable cfg) stamp_says-Triple is_reusable-Triple)
        (λ c. rootfs_unless-Triple c only whole ne))

  rootfs_cache_key-Triple :
      Triple Was
        (rootfs_cache_key sha256 cfg)
        (λ key fs. Was fs × (key ≡ cache_key sha256 cfg init))
        Safe
  unfolding rootfs_cache_key
  rootfs_cache_key-Triple =
      Triple-bind (λ s. pure (cache_key sha256 cfg s))
        (read_file-Triple (λ fs p. inl p.0) read_error cfg.init)
        (λ s. record {
          run = λ t p.
              (p.0, ap (cache_key sha256 cfg) (same_text s init mode (t.files cfg.init) p.1 p.0.1));
        })

  -- `prepareRootfs` leaves the root disk as it was, or puts there an image that a successful `Build`
  -- wrote from the init that is there, whatever fails and wherever the process is stopped. If it
  -- returns, the disk was there, not empty, and the stamp names this init and the reference of the
  -- image; or the disk is new and the stamp holds these two. `WriteFile` changes only the file that it
  -- is given, and writes the whole text when it returns no error.
  pub prepare_rootfs-Triple :
      WritesOnly write_file
      → WritesWhole write_file
      → root_stamp cfg ≢ root_image cfg
      → Triple
          (DiskWas sha256 x write_file cfg init mode was)
          (prepare_rootfs sha256 x write_file cfg)
          Prepared
          (DiskIsSafe sha256 x write_file cfg init mode was)
  unfolding prepare_rootfs
  prepare_rootfs-Triple only whole ne =
      Triple-bind (rootfs_for sha256 x write_file cfg) rootfs_cache_key-Triple (λ key.
        Triple-given (λ fs p. p.1)
          (λ e. Triple-from (λ fs p. p.0) (rootfs_for-Triple key e only whole ne)))
