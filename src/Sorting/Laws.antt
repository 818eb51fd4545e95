-- ===== src/Sorting/Laws.antt =====
-- The result is in order, and holds what was given, as often.
use mathlib.Core.List.{Perm}
use mathlib.Core.List.Perm
use ossein_kernel.Base.{
  All, Bool-cases, Bytes, List, [], arith, false, inl, inr, refl, true, ◌∷◌, ◌≡◌,
}
use ossein_kernel.Sorting.{bytes_le, insert_sorted, sort}

pub bytes_le-total : (a b : Bytes) → bytes_le a b ≡ false → bytes_le b a ≡ true
unfolding bytes_le
bytes_le-total [] b h = ground arith
bytes_le-total (x ∷ a) [] h = refl
bytes_le-total (x ∷ a) (y ∷ b) h = ground (arith, bytes_le-total a b)

-- Each line is at most the next one.
abbrev pub IsSorted : List Bytes → Type 0
IsSorted [] = Unit
IsSorted (x ∷ []) = Unit
IsSorted (x ∷ y ∷ l) = (bytes_le x y ≡ true) × IsSorted (y ∷ l)

insert_sorted-IsSorted_cons :
    (y x : Bytes) (l : List Bytes)
    → bytes_le y x ≡ true
    → IsSorted (y ∷ l)
    → IsSorted (insert_sorted x l)
    → IsSorted (y ∷ insert_sorted x l)
unfolding insert_sorted
insert_sorted-IsSorted_cons y x [] h s t = (h, tt)
insert_sorted-IsSorted_cons y x (z ∷ l) h s t = ground arith

pub insert_sorted-IsSorted :
    (x : Bytes) (l : List Bytes) → IsSorted l → IsSorted (insert_sorted x l)
unfolding insert_sorted
insert_sorted-IsSorted x [] s = tt
insert_sorted-IsSorted x (y ∷ []) s = ground (arith, bytes_le-total x y)
insert_sorted-IsSorted x (y ∷ z ∷ l) s = elim (Bool-cases (bytes_le x y)) [
  | inl e ↦ rw (e, insert_sorted) (e, s)
  | inr e ↦
      rw (e, insert_sorted)
        (insert_sorted-IsSorted_cons y x (z ∷ l) (bytes_le-total x y e) s
          (insert_sorted-IsSorted x (z ∷ l) s.1))
]

pub sort-IsSorted : (l : List Bytes) → IsSorted (sort l)
unfolding sort
sort-IsSorted [] = tt
sort-IsSorted (x ∷ l) = insert_sorted-IsSorted x (sort l) (sort-IsSorted l)

insert_sorted-perm : (x : Bytes) (l : List Bytes) → Perm (insert_sorted x l) (x ∷ l)
unfolding insert_sorted
insert_sorted-perm x [] = Perm.refl (x ∷ [])
insert_sorted-perm x (y ∷ l) = elim (Bool-cases (bytes_le x y)) [
  | inl e ↦ rw e (Perm.refl (x ∷ y ∷ l))
  | inr e ↦ rw e (Perm.trans (Perm.cons y (insert_sorted-perm x l)) (Perm.swap x y l))
]

pub sort-perm : (l : List Bytes) → Perm (sort l) l
unfolding sort
sort-perm [] = Perm.refl []
sort-perm (x ∷ l) = Perm.trans (insert_sorted-perm x (sort l)) (Perm.cons x (sort-perm l))

module _ (P : Bytes → Type 0) where
  insert_sorted-All : (x : Bytes) (l : List Bytes) → P x → All P l → All P (insert_sorted x l)
  unfolding insert_sorted
  insert_sorted-All x [] p h = (p, tt)
  insert_sorted-All x (y ∷ l) p h = ground (arith, insert_sorted-All x l)

  pub sort-All : (l : List Bytes) → All P l → All P (sort l)
  unfolding sort
  sort-All [] h = tt
  sort-All (x ∷ l) h = insert_sorted-All x (sort l) h.0 (sort-All l h.1)
