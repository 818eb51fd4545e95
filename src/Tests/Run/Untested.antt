-- ===== src/Tests/Run/Untested.antt =====
-- A run whose boot test fails, and a patch that is gone.
use ossein_kernel.Tests.Patches.{overwrite, overwrite-WritesOnly, unequal}
use ossein_kernel.Base.{[], codes, equal, false, none, refl, some, true, ◌∷◌, ◌≡◌}
use ossein_kernel.Paths.{base, clean, join_path, nonempty}
use ossein_kernel.Strings.{after_prefix}
use ossein_kernel.System.{at_or_under}
use ossein_kernel.System.Frame.{Frame}
use ossein_kernel.Builder.Workdir.{stage_patches}
use ossein_kernel.System.Triples.{Triple}
use ossein_kernel.Builder.Workdir.Patches.{stage_patches-Triple}
use ossein_kernel.Builder.Workdir.Frames.{NoTarget}

-- A patch of an earlier checkout.
old_below : at_or_under (codes "k/patches") (codes "k/patches/0.patch") ≡ true
unfolding equal codes after_prefix
old_below = refl

old-NoTarget :
    NoTarget (some (codes "p/1.patch" ∷ [])) (codes "k/patches") (codes "k/patches/0.patch")
unfolding codes join_path clean base nonempty equal
old-NoTarget = (unequal _ _ refl, tt)

stage_patches-Triple_example :
    Triple
      (λ fs. Unit)
      (stage_patches (λ n p. false) overwrite (codes "k/patches") (some (codes "p/1.patch" ∷ [])))
      (λ _ fs. fs (codes "k/patches/0.patch") ≡ none)
      (λ fs. Unit)
stage_patches-Triple_example =
    stage_patches-Triple (λ n p. false) overwrite overwrite-WritesOnly (codes "k/patches")
      (codes "p/1.patch" ∷ []) (codes "k/patches/0.patch") old_below old-NoTarget
