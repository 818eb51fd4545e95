-- ===== src/Builder/Workdir.antt =====
-- `stageWorkdir` and `stagePatches`, cmd/ossein-kernel/main.go. The names that a glob finds, the text
-- of build.sh, and `WriteFile` of primordium are parameters.
pub mod Frames
pub mod Patches
pub mod Copied
use ossein_kernel.Base.{Bool, Bytes, List, Option, [], codes, none, some, ℕ, ◌∷◌}
use ossein_kernel.Paths.{base, join_path}
use ossein_kernel.Sorting.{sort}
use ossein_kernel.System.{M, catch, glob_error, mkdir_all, pure, remove, remove_all, throw, ◌>>◌}
use ossein_kernel.Builder.Stage.{BuildConfig, build_env}
use ossein_kernel.Builder.Promote.{copy_file}

abbrev pub patch_target : Bytes → Bytes → Bytes
patch_target dest patch = join_path dest (base patch)

-- A call whose outcome is ignored.
abbrev pub best_effort : M (Unit {0}) → M (Unit {0})
best_effort m = catch m (λ _. pure tt)

-- The paths that the command line names: the Kconfig fragment, and what the glob of the directory of
-- patches finds, if its pattern is one.
pub record Inputs : Type 0 where
  pub kernel_config : Bytes
  pub patches : Option (List Bytes)

module _ (taken : ℕ → Bytes → Bool) (write_file : Bytes → Bytes → M (Unit {0})) where
  unfoldable pub copy_patches : Bytes → List Bytes → M (Unit {0})
  copy_patches dest [] = pure tt
  copy_patches dest (patch ∷ patches) =
      copy_file write_file patch (patch_target dest patch) >> copy_patches dest patches

  unfoldable pub stage_patches : Bytes → Option (List Bytes) → M (Unit {0})
  stage_patches dest none = throw glob_error
  stage_patches dest (some patches) =
      remove_all taken dest >> mkdir_all dest >> copy_patches dest (sort patches)

  unfoldable pub stage_workdir : Bytes → BuildConfig → Inputs → Bytes → M (Unit {0})
  stage_workdir build_script cfg inputs workdir =
      mkdir_all workdir
      >> write_file (join_path workdir (codes "build.sh")) build_script
      >> copy_file write_file inputs.kernel_config (join_path workdir (codes "kernel-fragment"))
      >> stage_patches (join_path workdir (codes "patches")) inputs.patches
      >> write_file (join_path workdir (codes "build.env")) (build_env workdir cfg)
      >> best_effort (remove (join_path workdir (codes "status")))
      >> best_effort (remove (join_path workdir (codes "build.log")))
