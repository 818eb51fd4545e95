-- ===== src/Tests/Patches.antt =====
-- Two patches, found in the wrong order.
use ossein_kernel.Base.{
  Bytes, List, [], arith, codes, equal, equal_iff, false, inl, inr, refl, some, ◌∷◌, ◌≡◌, ◌≢◌,
}
use ossein_kernel.Paths.{base, clean, join_path, nonempty}
use ossein_kernel.Strings.{after_prefix}
use ossein_kernel.System.{M, at_or_under, ok, regular, set_file}
use ossein_kernel.System.Frame.{update-other, update-same}
use ossein_kernel.System.Triples.{Holds, Triple}
use ossein_kernel.Builder.Promote.OnlyTested.{WritesOnly}
use ossein_kernel.Builder.Toolchain.Stamped.{WritesWhole}
use ossein_kernel.Builder.Workdir.{patch_target, stage_patches}
use ossein_kernel.Builder.Workdir.Copied.{Among, Apart, stage_patches-Copied}

abbrev pub overwrite : Bytes → Bytes → M (Unit {0})
overwrite path s t = (ok tt, set_file path (some (regular s 0o600)) t)

pub overwrite-WritesOnly : WritesOnly overwrite
overwrite-WritesOnly path s p h = record {
  frame = λ t. update-other t.files path p (some (regular s 0o600)) h;
}

pub overwrite-WritesWhole : WritesWhole overwrite
overwrite-WritesWhole path s t e = (0o600, update-same t.files path (some (regular s 0o600)))

pub unequal : (p q : Bytes) → equal p q ≡ false → p ≢ q
unequal p q n e = let y = (equal_iff p q).1 e in ground arith

abbrev found_patches : List Bytes
found_patches = codes "p/2.patch" ∷ codes "p/1.patch" ∷ []

not_below : at_or_under (codes "k") (codes "p/1.patch") ≡ false
unfolding equal codes after_prefix
not_below = refl

second-Apart : Apart (codes "k") (codes "p/1.patch") (codes "p/2.patch")
unfolding codes join_path clean base nonempty equal
second-Apart = (inr (unequal _ _ refl), unequal _ _ refl)

first-Apart : Apart (codes "k") (codes "p/1.patch") (codes "p/1.patch")
unfolding codes join_path clean base nonempty equal
first-Apart = (inl refl, unequal _ _ refl)

first-Among : Among (codes "p/1.patch") found_patches
first-Among = inr (inl refl)

stage_patches-Copied_example :
    Triple
      (λ fs. fs (codes "p/1.patch") ≡ some (regular (codes "diff") 0o644))
      (stage_patches (λ n p. false) overwrite (codes "k") (some found_patches))
      (λ _ fs.
        (fs (codes "p/1.patch") ≡ some (regular (codes "diff") 0o644))
        × Holds (codes "diff") (fs (patch_target (codes "k") (codes "p/1.patch"))))
      (λ fs. Unit)
stage_patches-Copied_example =
    stage_patches-Copied (λ n p. false) overwrite overwrite-WritesOnly overwrite-WritesWhole
      (codes "k") (codes "p/1.patch") (codes "diff") 0o644 found_patches not_below
      (second-Apart, (first-Apart, tt)) first-Among
