-- ===== src/Builder/Workdir/Patches.antt =====
-- The directory of patches holds the patches that there are, and no file else.
use ossein_kernel.Base.{
  Bool, Bytes, List, Option, [], none, refl, some, true, ℕ, ◌∙◌, ◌∷◌, ◌≡◌, ◌≢◌,
}
use ossein_kernel.Sorting.{sort}
use ossein_kernel.Sorting.Laws.{sort-All}
use ossein_kernel.System.{
  Fault, M, Node, Result, System, at_or_under, call, err, fails, ok, remove_all, remove_error,
  removed_tree, stopped, stops, without_tree, works,
}
use ossein_kernel.System.Frame.{Frame, mkdir_all-Frame}
use ossein_kernel.System.Triples.{After, Files, Triple, ◌and◌}
use ossein_kernel.Builder.Promote.OnlyTested.{WritesOnly}
use ossein_kernel.Builder.Workdir.{patch_target, stage_patches}
use ossein_kernel.Builder.Workdir.Frames.{NoTarget, copy_patches-Frame}

abbrev Anything : Files → Type 0
Anything fs = Unit

remove_all-After :
    (taken : ℕ → Bytes → Bool) (directory p : Bytes)
    → at_or_under directory p ≡ true
    → (faults : List Fault) (s : System)
    → After
        (λ _ fs. fs p ≡ none)
        Anything
        (call
          (removed_tree directory)
          (λ n. without_tree (taken n) directory)
          remove_error
          faults
          s).0
        (call
          (removed_tree directory)
          (λ n. without_tree (taken n) directory)
          remove_error
          faults
          s).1
remove_all-After taken directory p h [] s = rw h refl
remove_all-After taken directory p h (works ∷ fs) s = rw h refl
remove_all-After taken directory p h (fails n ∷ fs) s = tt
remove_all-After taken directory p h (stops n ∷ fs) s = tt

remove_all-Triple :
    (taken : ℕ → Bytes → Bool) (directory p : Bytes)
    → at_or_under directory p ≡ true
    → Triple Anything (remove_all taken directory) (λ _ fs. fs p ≡ none) Anything
unfolding remove_all
remove_all-Triple taken directory p h = record {
  run = λ s u. remove_all-After taken directory p h s.faults s;
}

-- A program with a frame keeps what is known of the file.
framed-After :
    (p : Bytes) (o : Option Node) (r : Result (Unit {0})) (t : System)
    → t.files p ≡ o
    → After (λ _ fs. fs p ≡ o) Anything r t
framed-After p o (ok u) t e = e
framed-After p o (err x) t e = tt
framed-After p o stopped t e = tt

framed-Triple :
    (p : Bytes) (o : Option Node) {m : M (Unit {0})}
    → Frame p m
    → Triple (λ fs. fs p ≡ o) m (λ _ fs. fs p ≡ o) Anything
framed-Triple p o {m} f = record { run = λ s e. framed-After p o (m s).0 (m s).1 (f.frame s ∙ e) }

module _ (taken : ℕ → Bytes → Bool) (write_file : Bytes → Bytes → M (Unit {0}))
    (only : WritesOnly write_file) (dest : Bytes) (patches : List Bytes) where
  -- When `stagePatches` returns no error, a file below its directory that is the target of no patch
  -- is gone, whatever stood there: a patch that was deleted is not applied again. `WriteFile` changes
  -- only the file that it is given.
  pub stage_patches-Triple :
      (p : Bytes)
      → at_or_under dest p ≡ true
      → NoTarget (some patches) dest p
      → Triple
          (λ fs. Unit)
          (stage_patches taken write_file dest (some patches))
          (λ _ fs. fs p ≡ none)
          (λ fs. Unit)
  unfolding stage_patches
  stage_patches-Triple p h u =
      remove_all-Triple taken dest p h
      and framed-Triple p none (mkdir_all-Frame dest p)
      and framed-Triple p none (
          copy_patches-Frame taken write_file only p dest (sort patches)
            (sort-All (λ patch. patch_target dest patch ≢ p) patches u))
