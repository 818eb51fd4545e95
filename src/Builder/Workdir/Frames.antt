-- ===== src/Builder/Workdir/Frames.antt =====
-- What staging leaves alone.
use ossein_kernel.Base.{
  All, Bool, Bytes, List, Option, [], codes, false, none, some, ℕ, ◌∷◌, ◌≡◌, ◌≢◌,
}
use ossein_kernel.Sorting.{sort}
use ossein_kernel.Paths.{dir, join_path}
use ossein_kernel.Sorting.Laws.{sort-All}
use ossein_kernel.System.{M, at_or_under, glob_error, mkdir_all, pure, read_error, ◌>>◌}
use ossein_kernel.System.Frame.{
  Frame, Frame-bind, Frame-catch, Frame-pure, Frame-throw, mkdir_all-Frame, read_file-Frame,
  remove-Frame, remove_all-Frame, ◌then◌,
}
use ossein_kernel.Builder.Promote.{copy_file}
use ossein_kernel.Builder.Promote.OnlyTested.{WritesOnly}
use ossein_kernel.Builder.Workdir.{
  Inputs, copy_patches, best_effort, patch_target, stage_patches, stage_workdir,
}
use ossein_kernel.Builder.Stage.{BuildConfig, build_env}

abbrev Untouched : List Bytes → Bytes → Bytes → Type 0
Untouched patches dest p = All (λ patch. patch_target dest patch ≢ p) patches

-- No patch that there is has its target at `p`.
abbrev pub NoTarget : Option (List Bytes) → Bytes → Bytes → Type 0
NoTarget none dest p = Unit
NoTarget (some patches) dest p = All (λ patch. patch_target dest patch ≢ p) patches

module _ (taken : ℕ → Bytes → Bool) (write_file : Bytes → Bytes → M (Unit {0}))
    (only : WritesOnly write_file) (p : Bytes) where
  pub copy_file-Frame : (src dst : Bytes) → dst ≢ p → Frame p (copy_file write_file src dst)
  unfolding copy_file
  copy_file-Frame src dst h =
      Frame-bind (λ s. mkdir_all (dir dst) >> write_file dst s) (read_file-Frame read_error src p)
        (λ s. mkdir_all-Frame (dir dst) p then only dst s p h)

  pub copy_patches-Frame :
      (dest : Bytes) (patches : List Bytes)
      → Untouched patches dest p
      → Frame p (copy_patches taken write_file dest patches)
  unfolding copy_patches
  copy_patches-Frame dest [] u = Frame-pure p tt
  copy_patches-Frame dest (patch ∷ patches) u =
      copy_file-Frame patch (patch_target dest patch) u.0 then copy_patches-Frame dest patches u.1

  stage_patches-Frame :
      (dest : Bytes) (o : Option (List Bytes))
      → at_or_under dest p ≡ false
      → NoTarget o dest p
      → Frame p (stage_patches taken write_file dest o)
  unfolding stage_patches
  stage_patches-Frame dest none h u = Frame-throw p glob_error
  stage_patches-Frame dest (some patches) h u =
      remove_all-Frame taken dest p h
      then mkdir_all-Frame dest p
      then copy_patches-Frame dest (sort patches)
          (sort-All (λ patch. patch_target dest patch ≢ p) patches u)

  -- `p` is none of the files that are staged.
  pub record IsUnstaged (inputs : Inputs) (workdir : Bytes) : Type 0 where
    pub script : join_path workdir (codes "build.sh") ≢ p
    pub fragment : join_path workdir (codes "kernel-fragment") ≢ p
    pub env : join_path workdir (codes "build.env") ≢ p
    pub status : join_path workdir (codes "status") ≢ p
    pub log : join_path workdir (codes "build.log") ≢ p
    pub not_below : at_or_under (join_path workdir (codes "patches")) p ≡ false
    pub no_target : NoTarget inputs.patches (join_path workdir (codes "patches")) p

  best_effort-Frame : {m : M (Unit {0})} → Frame p m → Frame p (best_effort m)
  best_effort-Frame f = Frame-catch (λ _. pure tt) f (λ _. Frame-pure p tt)

  pub stage_workdir-Frame :
      (build_script : Bytes) (cfg : BuildConfig) (inputs : Inputs) (workdir : Bytes)
      → IsUnstaged inputs workdir
      → Frame p (stage_workdir taken write_file build_script cfg inputs workdir)
  unfolding stage_workdir
  stage_workdir-Frame build_script cfg inputs workdir u =
      mkdir_all-Frame workdir p
      then only (join_path workdir (codes "build.sh")) build_script p u.script
      then copy_file-Frame inputs.kernel_config (join_path workdir (codes "kernel-fragment"))
          u.fragment
      then stage_patches-Frame (join_path workdir (codes "patches")) inputs.patches u.not_below
          u.no_target
      then only (join_path workdir (codes "build.env")) (build_env workdir cfg) p u.env
      then best_effort-Frame (remove-Frame (join_path workdir (codes "status")) p u.status)
      then best_effort-Frame (remove-Frame (join_path workdir (codes "build.log")) p u.log)
