-- ===== src/Builder/Toolchain/Targets.antt =====
-- No entry of the tarball is extracted outside of the destination, and no link leads out of it.
use mathlib.Core.List.{reverse}
use ossein_kernel.Base.{
  Bytes, List, Option-cases, [], ap, append-nil, append_assoc, arith, codes, equal_iff, inl, inr,
  refl, sym, true, ℕ, ◌++◌, ◌∙◌, ◌∷◌, ◌≡◌, ◌≢◌, ◌⊎◌,
}
use ossein_kernel.Strings.Cut.{after_prefix_sound}
use ossein_kernel.Strings.{after_prefix, find_cut, has_prefix, trim_prefix}
use ossein_kernel.Paths.{clean, dotdot, join_path, slash, stack_of}
use ossein_kernel.Paths.Clean.{stack_of-clean}
use ossein_kernel.Paths.Inside.{IsInside, elements_of, IsInside-of_prefix}
use ossein_kernel.Builder.Toolchain.{
  entry_target, link_stays, link_target, llvm_entry_target, root_of, wanted,
}

has_prefix_sound : (s p : Bytes) → has_prefix s p ≡ true → (r : Bytes) × (s ≡ p ++ r)
has_prefix_sound s p h = elim (Option-cases (after_prefix s p)) [
  | inl e ↦ absurd (ground arith)
  | inr (r, e) ↦ (r, after_prefix_sound s p r e)
]

-- A joined path that is not empty is clean.
join_path-clean :
    (c : ℕ) (a : Bytes) (d : ℕ) (b : Bytes)
    → join_path (c ∷ a) (d ∷ b) ≡ clean ((c ∷ a) ++ (slash ∷ (d ∷ b)))
unfolding join_path
join_path-clean c a d b = refl

IsInside-clean :
    {directory path : Bytes} → IsInside directory path → IsInside directory (clean path)
IsInside-clean {path = path} i = record {
  tail = i.tail;
  extends = ap reverse (stack_of-clean path).0 ∙ i.extends;
  down = i.down;
}

IsInside-same : (dest path : Bytes) → clean path ≡ clean dest → IsInside dest path
IsInside-same dest path e = record {
  tail = [];
  extends =
      ap reverse (sym (stack_of-clean path).0)
      ∙ ap (λ z. reverse (stack_of z)) e
      ∙ ap reverse (stack_of-clean dest).0
      ∙ sym (append-nil (elements_of dest));
  down = tt;
}

nil-ne-append : (b r : Bytes) (s : ℕ) → [] ≢ b ++ (s ∷ r)
nil-ne-append [] r s z = cc
nil-ne-append (x ∷ b) r s z = cc

-- What ends in a byte and begins with a text and that byte.
snoc-prefix :
    (a b r : Bytes) (s : ℕ)
    → a ++ (s ∷ []) ≡ b ++ (s ∷ r)
    → (a ≡ b) ⊎ ((r' : Bytes) × (a ≡ b ++ (s ∷ r')))
snoc-prefix [] [] r s e = inl refl
snoc-prefix [] (y ∷ b) r s e = absurd (nil-ne-append b r s (cc))
snoc-prefix (x ∷ a) [] r s e = inr (a, cc)
snoc-prefix (x ∷ a) (y ∷ b) r s e = elim (snoc-prefix a b r s (cc)) [
  | inl same ↦ inl (cc)
  | inr (r', f) ↦ inr (r', cc)
]

entry_target-inv :
    (rel dest root target : Bytes)
    → entry_target rel dest root ≡ wanted target
    → (rel ≢ []) × (target ≡ join_path dest rel) × (has_prefix (join_path dest rel) root ≡ true)
unfolding entry_target
entry_target-inv rel dest root target h =
    (ground (arith, equal_iff rel []), ground arith, ground arith)

module _ (dest name : Bytes) (above : List Bytes) (named : stack_of dest ≡ name ∷ above)
    (no_way_up : name ≢ dotdot) where
  IsInside-root :
      (path : Bytes) → has_prefix (clean path) (root_of dest) ≡ true → IsInside dest path
  unfolding root_of
  IsInside-root path h =
      let (r, e) = has_prefix_sound (clean path) (clean dest ++ (slash ∷ [])) h in
      IsInside-of_prefix dest path r name above named no_way_up
        (e ∙ append_assoc (clean dest) (slash ∷ []) r)

  joined-IsInside :
      (rel : Bytes)
      → rel ≢ []
      → dest ≢ []
      → has_prefix (join_path dest rel) (root_of dest) ≡ true
      → IsInside dest (join_path dest rel)
  joined-IsInside rel n d h = joined rel dest n d h
    where
      joined :
          (b a : Bytes)
          → b ≢ []
          → a ≢ []
          → has_prefix (join_path a b) (root_of dest) ≡ true
          → IsInside dest (join_path a b)
      joined [] a n d h = absurd (n refl)
      joined (x ∷ b) [] n d h = absurd (d refl)
      joined (x ∷ b) (y ∷ a) n d h =
          let path : Bytes = (y ∷ a) ++ (slash ∷ (x ∷ b)) in
          rw join_path-clean (IsInside-clean (IsInside-root path (rw join_path-clean at h)))

  entry_target-IsInside :
      (rel target : Bytes)
      → dest ≢ []
      → entry_target rel dest (root_of dest) ≡ wanted target
      → IsInside dest target
  entry_target-IsInside rel target ne h =
      let (n, e, k) = entry_target-inv rel dest (root_of dest) target h in
      rw e (joined-IsInside rel n ne k)

  -- An entry that is extracted is written below the destination, whatever its name is.
  pub llvm_entry_target-IsInside :
      (entry target : Bytes)
      → dest ≢ []
      → llvm_entry_target entry dest (root_of dest) ≡ wanted target
      → IsInside dest target
  unfolding llvm_entry_target
  llvm_entry_target-IsInside entry target ne h =
      elim (Option-cases (find_cut (trim_prefix entry (codes "./")) (slash ∷ []))) [
        | inl e ↦ absurd (ground arith)
        | inr ((top, rel), e) ↦ entry_target-IsInside rel target ne (ground arith)
      ]

  -- The target of a symbolic link that passes the test of writeLLVMSymlink is, as text, with `..` taken
  -- back from the path without following links, the destination itself or a path below it, for a
  -- destination whose last element is not `..`.
  pub link_stays-IsInside :
      (target link : Bytes)
      → link_stays (root_of dest) target link ≡ true
      → IsInside dest (link_target target link)
  unfolding link_stays root_of
  link_stays-IsInside target link h =
      let (r, e) =
        has_prefix_sound (clean (link_target target link) ++ (slash ∷ []))
          (clean dest ++ (slash ∷ [])) h in
      elim (snoc-prefix (clean (link_target target link)) (clean dest) r slash
        (e ∙ append_assoc (clean dest) (slash ∷ []) r)) [
          | inl same ↦ IsInside-same dest (link_target target link) same
          | inr (r', f) ↦
              IsInside-of_prefix dest (link_target target link) r' name above named no_way_up f
        ]
