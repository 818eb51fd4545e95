-- ===== src/Builder/Workdir/Copied.antt =====
-- Each patch is copied.
use mathlib.Core.Path.{subst}
use ossein_kernel.Base.{
  All, Bool, Bool-cases, Bytes, List, [], false, inl, inr, some, ℕ, ◌∷◌, ◌≡◌, ◌≢◌, ◌⊎◌,
}
use ossein_kernel.Sorting.{bytes_le, insert_sorted, sort}
use ossein_kernel.System.{M, at_or_under, regular}
use ossein_kernel.System.Frame.{mkdir_all-Frame, remove_all-Frame}
use ossein_kernel.System.Triples.{Files, Holds, Triple, Triple-from, Triple-pure, ◌and◌}
use ossein_kernel.Builder.Promote.Copying.{Copied-Triple, There-Triple, copy_file-Triple}
use ossein_kernel.Builder.Promote.OnlyTested.{WritesOnly}
use ossein_kernel.Builder.Toolchain.Stamped.{WritesWhole}
use ossein_kernel.Builder.Workdir.{copy_patches, patch_target, stage_patches}
use ossein_kernel.Sorting.Laws.{sort-All}
use ossein_kernel.Builder.Workdir.Frames.{copy_file-Frame}

-- `x` is one of the list.
abbrev pub Among : Bytes → List Bytes → Type 0
Among x [] = ⊥
Among x (y ∷ l) = (y ≡ x) ⊎ Among x l

past-Among :
    (x y z : Bytes) (l m : List Bytes)
    → ((y ≡ x) ⊎ Among x l → Among x m)
    → (y ≡ x) ⊎ (z ≡ x) ⊎ Among x l
    → (z ≡ x) ⊎ Among x m
past-Among x y z l m f (inl e) = inr (f (inl e))
past-Among x y z l m f (inr (inl e)) = inl e
past-Among x y z l m f (inr (inr a)) = inr (f (inr a))

insert_sorted-Among :
    (x y : Bytes) (l : List Bytes) → (y ≡ x) ⊎ Among x l → Among x (insert_sorted y l)
unfolding insert_sorted
insert_sorted-Among x y [] (inl e) = inl e
insert_sorted-Among x y [] (inr a) = absurd a
insert_sorted-Among x y (z ∷ l) h = elim (Bool-cases (bytes_le y z)) [
  | inl e ↦ rw e h
  | inr e ↦ rw e (past-Among x y z l (insert_sorted y l) (insert_sorted-Among x y l) h)
]

sort-Among : (x : Bytes) (l : List Bytes) → Among x l → Among x (sort l)
unfolding sort
sort-Among x [] a = a
sort-Among x (y ∷ l) (inl e) = insert_sorted-Among x y (sort l) (inl e)
sort-Among x (y ∷ l) (inr a) = insert_sorted-Among x y (sort l) (inr (sort-Among x l a))

-- The other patches have other targets, and no target is the patch itself.
abbrev pub Apart : Bytes → Bytes → Bytes → Type 0
Apart dest patch other =
    ((other ≡ patch) ⊎ (patch_target dest other ≢ patch_target dest patch))
    × (patch_target dest other ≢ patch)

module _ (taken : ℕ → Bytes → Bool) (write_file : Bytes → Bytes → M (Unit {0}))
    (only : WritesOnly write_file) (whole : WritesWhole write_file) (dest patch text : Bytes)
    (mode : ℕ) where
  abbrev There : Files → Type 0
  There fs = fs patch ≡ some (regular text mode)

  abbrev Copied : Files → Type 0
  Copied fs = There fs × Holds text (fs (patch_target dest patch))

  abbrev Any : Files → Type 0
  Any fs = Unit

  kept-Triple :
      (patches : List Bytes)
      → All (Apart dest patch) patches
      → Triple Copied (copy_patches taken write_file dest patches) (λ _. Copied) Any
  unfolding copy_patches
  kept-Triple [] u = Triple-pure {Q = λ _. Copied} tt
  kept-Triple (q ∷ qs) u = elim u.0.0 [
    | inl e ↦ rw e (
        Triple-from (λ fs p. p.0)
          (copy_file-Triple write_file only whole patch (patch_target dest patch) text mode
            (subst (λ r. patch_target dest r ≢ patch) e u.0.1))
        and kept-Triple qs u.1)
    | inr n ↦
        Copied-Triple write_file only whole patch (patch_target dest patch) text mode
          (copy_file-Frame taken write_file only patch q (patch_target dest q) u.0.1)
          (copy_file-Frame taken write_file only (patch_target dest patch) q (patch_target dest q)
            n)
        and kept-Triple qs u.1
  ]

  sorted-Triple :
      (patches : List Bytes)
      → All (Apart dest patch) patches
      → Among patch patches
      → Triple There (copy_patches taken write_file dest patches) (λ _. Copied) Any
  unfolding copy_patches
  sorted-Triple [] u a = absurd a
  sorted-Triple (q ∷ qs) u (inl e) = rw e (
      copy_file-Triple write_file only whole patch (patch_target dest patch) text mode
        (subst (λ r. patch_target dest r ≢ patch) e u.0.1)
      and kept-Triple qs u.1)
  sorted-Triple (q ∷ qs) u (inr a) =
      There-Triple write_file only whole patch (patch_target dest patch) text mode
        (copy_file-Frame taken write_file only patch q (patch_target dest q) u.0.1)
      and sorted-Triple qs u.1 a

  -- When `stagePatches` returns no error, each patch has been copied to its target whole, however the
  -- patches are ordered. The other patches have other targets, no target is the patch itself, which
  -- does not stand below the directory of targets; `WriteFile` changes only the file that it is
  -- given, and writes the whole text when it returns no error.
  pub stage_patches-Copied :
      (patches : List Bytes)
      → at_or_under dest patch ≡ false
      → All (Apart dest patch) patches
      → Among patch patches
      → Triple
          (λ fs. fs patch ≡ some (regular text mode))
          (stage_patches taken write_file dest (some patches))
          (λ _ fs.
            (fs patch ≡ some (regular text mode)) × Holds text (fs (patch_target dest patch)))
          (λ fs. Unit)
  unfolding stage_patches
  stage_patches-Copied patches h u a =
      There-Triple write_file only whole patch (patch_target dest patch) text mode
        (remove_all-Frame taken dest patch h)
      and There-Triple write_file only whole patch (patch_target dest patch) text mode
          (mkdir_all-Frame dest patch)
      and sorted-Triple (sort patches) (sort-All (Apart dest patch) patches u)
          (sort-Among patch patches a)
