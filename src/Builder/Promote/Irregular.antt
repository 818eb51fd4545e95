-- ===== src/Builder/Promote/Irregular.antt =====
-- What stands at the place of the kernel and is no file is not promoted, `promote` of
-- cmd/ossein-kernel/main.go.
use ossein_kernel.Base.{Bytes, Option, codes, some, sym, ℕ, ◌∙◌, ◌≡◌, ◌≢◌}
use ossein_kernel.Paths.{dir, join_path}
use ossein_kernel.System.{
  M, Node, Result, System, err, mkdir_all, no_vmlinux, ok, read_error, regular, stopped, ◌>>◌,
}
use ossein_kernel.System.Frame.{Frame, Frame-bind, stat-Frame}
use ossein_kernel.System.Triples.{After, Files, Triple, Triple-bind, read_file-Triple}
use ossein_kernel.Vm.{Vz}
use ossein_kernel.Builder.Guest.{GuestVm}
use ossein_kernel.Builder.Promote.{copy_file, expect_found, promote}
use ossein_kernel.Builder.Promote.OnlyTested.{WritesOnly, expect_found-Frame, smoke_test-Frame}
use ossein_kernel.Builder.Promote.Promoted.{IsKept}
use ossein_kernel.Builder.Toolchain.Stamped.{WritesWhole}

abbrev Any : Files → Type 0
Any fs = Unit

never : {A : Type 0} {Q : A → Files → Type 0} (m : M A) → Triple (λ fs. ⊥) m Q Any
never m = record { run = λ s p. absurd p }

module _ (write_file : Bytes → Bytes → M (Unit {0})) (only : WritesOnly write_file)
    (whole : WritesWhole write_file) (vz : Vz) (vm : GuestVm)
    (workdir out root smoke_dir text : Bytes) (mode : ℕ)
    (k : IsKept write_file only whole vz vm workdir out root smoke_dir text mode) where
  abbrev kernel : Bytes
  kernel = join_path workdir (codes "kernel-arm64")

  unchanged-After :
      {A : Type 0} (o : Option Node) (r : Result A) (t : System)
      → t.files kernel ≡ o
      → After (λ _ fs. fs kernel ≡ o) Any r t
  unchanged-After o (ok x) t e = e
  unchanged-After o (err f) t e = tt
  unchanged-After o stopped t e = tt

  framed :
      {A : Type 0} {m : M A} (o : Option Node)
      → Frame kernel m
      → Triple (λ fs. fs kernel ≡ o) m (λ _ fs. fs kernel ≡ o) Any
  framed {m = m} o f = record { run = λ s p. unchanged-After o (m s).0 (m s).1 (f.frame s ∙ p) }

  copy-never :
      (o : Option Node)
      → ((text : Bytes) (mode : ℕ) → o ≢ some (regular text mode))
      → Triple (λ fs. fs kernel ≡ o) (copy_file write_file kernel out) (λ _ fs. ⊥) Any
  unfolding copy_file
  copy-never o irregular =
      Triple-bind (λ s. mkdir_all (dir out) >> write_file out s)
        (read_file-Triple (λ fs p. tt) read_error kernel)
        (λ s. record { run = λ t p. absurd (irregular s p.1.mode (sym p.0 ∙ p.1.is_file)) })

  -- What is no file is not promoted.
  pub promote-never :
      (o : Option Node)
      → ((text : Bytes) (mode : ℕ) → o ≢ some (regular text mode))
      → Triple
          (λ fs. fs kernel ≡ o)
          (promote write_file vz vm workdir out root smoke_dir)
          (λ _ fs. ⊥)
          Any
  unfolding promote
  promote-never o irregular =
      Triple-bind _
        (framed o (
          Frame-bind (expect_found no_vmlinux) (stat-Frame kernel kernel)
            (λ f. expect_found-Frame no_vmlinux f kernel)))
        (λ _.
          Triple-bind _
            (framed o (
              smoke_test-Frame write_file only vz vm kernel root smoke_dir kernel k.guest k.status
                k.script))
            (λ _.
              Triple-bind _ (Triple-bind _ (copy-never o irregular) (λ _. never _)) (λ _. never _)))
