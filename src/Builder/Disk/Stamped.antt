-- ===== src/Builder/Disk/Stamped.antt =====
-- A root disk that is built is named by the stamp.
use mathlib.Core.Path.{subst}
use ossein_kernel.Base.{Bytes, Option, inl, inr, refl, some, sym, ℕ, ◌≡◌, ◌≢◌}
use ossein_kernel.System.{M, Node, Result, System, err, ok, regular, stopped}
use ossein_kernel.System.Triples.{After, Files, Holds, Triple, mkdir_all-Triple, ◌and◌}
use ossein_kernel.System.Triples.Calls.{rename-Triple}
use ossein_kernel.System.Triples.Installed.{Installed, moved-Installed}
use ossein_kernel.Rootfs.Image.{Surroundings}
use ossein_kernel.Builder.Disk.{
  DiskConfig, cache_key, partial_image, renew_rootfs, root_image, root_stamp, source_at,
}
use ossein_kernel.Builder.Disk.Prepared.{DiskIsSafe, DiskWas, Done, IsImage, build_disk-Triple}
use ossein_kernel.Builder.Download.Elsewhere.{partial_path-ne}
use ossein_kernel.Builder.Promote.OnlyTested.{WritesOnly}
use ossein_kernel.Builder.Toolchain.Stamped.{WritesWhole}

module _ (sha256 : Bytes → Bytes) (x : Surroundings) (write_file : Bytes → Bytes → M (Unit {0}))
    (cfg : DiskConfig) (init : Bytes) (mode : ℕ) (was : Option Node) where
  abbrev Was : Files → Type 0
  Was = DiskWas sha256 x write_file cfg init mode was

  abbrev Safe : Files → Type 0
  Safe = DiskIsSafe sha256 x write_file cfg init mode was

  abbrev Ready : Files → Type 0
  Ready = Done sha256 x write_file cfg init mode was

  -- The new disk is in place, and the stamp names it.
  abbrev pub Renewed : Files → Type 0
  Renewed fs =
      Done sha256 x write_file cfg init mode was fs
      × Holds (cache_key sha256 cfg init) (fs (root_stamp cfg))

  stamped-After :
      (r : Result (Unit {0})) (t : System)
      → Ready t.files
      → (r ≡ ok tt → Holds (cache_key sha256 cfg init) (t.files (root_stamp cfg)))
      → After (λ _. Renewed) Safe r t
  stamped-After (ok u) t p h = (p, h refl)
  stamped-After (err e) t p h = inr p
  stamped-After stopped t p h = inr p

  stamp-Triple :
      WritesOnly write_file
      → WritesWhole write_file
      → root_stamp cfg ≢ root_image cfg
      → Triple Ready (write_file (root_stamp cfg) (cache_key sha256 cfg init)) (λ _. Renewed) Safe
  stamp-Triple only whole ne = record {
    run = λ s p.
        let key = cache_key sha256 cfg init in
        let m = write_file (root_stamp cfg) key s in
        stamped-After m.0 m.1
          (subst (Installed (IsImage x (source_at x cfg.init (some (regular init mode)))))
            (sym ((only (root_stamp cfg) key (root_image cfg) ne).frame s)) p)
          (λ e. let (m, f) = whole (root_stamp cfg) key s e in record { mode = m; is_file = f });
  }

  pub renew_rootfs-Triple :
      WritesOnly write_file
      → WritesWhole write_file
      → root_stamp cfg ≢ root_image cfg
      → Triple Was
          (renew_rootfs sha256 x write_file cfg (cache_key sha256 cfg init))
          (λ _. Renewed)
          Safe
  unfolding renew_rootfs
  renew_rootfs-Triple only whole ne =
      mkdir_all-Triple (λ fs p. inl p.0) cfg.scratch
      and build_disk-Triple sha256 x write_file cfg init mode was
      and rename-Triple (partial_image cfg) (root_image cfg) (λ fs p. inl p.0)
          (λ fs file p e.
            moved-Installed (partial_image cfg) (root_image cfg) file fs
              (partial_path-ne (root_image cfg)) e p.1)
          (λ fs p. inr p)
      and stamp-Triple only whole ne
