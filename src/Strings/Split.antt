-- ===== src/Strings/Split.antt =====
-- `strings.Split` and `strings.Join` undo one another.
use ossein_kernel.Base.{
  ==_iff, All, Bool-cases, Bytes, List, [], ap, arith, false, inl, inr, refl, ℕ, ◌++◌, ◌==◌, ◌∙◌,
  ◌∷◌, ◌≡◌, ◌≢◌,
}
use ossein_kernel.Strings.{cons_head, join, split}

pub split-ne-nil : (s : Bytes) (sep : ℕ) → split s sep ≢ []
unfolding split
split-ne-nil [] sep = ground arith
split-ne-nil (c ∷ s) sep = ground (arith, split-ne-nil s sep)

join-cons_head :
    (c : ℕ) (ps : List Bytes) (sep : ℕ) → ps ≢ [] → join (cons_head c ps) sep ≡ c ∷ join ps sep
unfolding join
join-cons_head c [] sep h = absurd (h refl)
join-cons_head c (p ∷ []) sep h = refl
join-cons_head c (p ∷ q ∷ ps) sep h = refl

join-nil_cons : (ps : List Bytes) (sep : ℕ) → ps ≢ [] → join ([] ∷ ps) sep ≡ sep ∷ join ps sep
unfolding join
join-nil_cons [] sep h = absurd (h refl)
join-nil_cons (p ∷ ps) sep h = refl

pub join-split : (s : Bytes) (sep : ℕ) → join (split s sep) sep ≡ s
unfolding split
join-split [] sep = unfold join in refl
join-split (c ∷ s) sep = elim (Bool-cases (c == sep)) [
  | inl e ↦ rw e (
      join-nil_cons (split s sep) sep (split-ne-nil s sep)
      ∙ cc ((==_iff c sep).0 e, join-split s sep))
  | inr e ↦ rw e (join-cons_head c (split s sep) sep (split-ne-nil s sep) ∙ cc (join-split s sep))
]

-- The byte `c` does not occur.
abbrev pub Lacks : ℕ → Bytes → Type 0
Lacks c = All (λ x. (x == c) ≡ false)

pub split-Lacks : (s : Bytes) (sep : ℕ) → All (Lacks sep) (split s sep)
unfolding split
split-Lacks [] sep = (tt, tt)
split-Lacks (c ∷ s) sep = ground (arith, split-Lacks s sep)

split-append : (p s : Bytes) (sep : ℕ) → Lacks sep p → split (p ++ (sep ∷ s)) sep ≡ p ∷ split s sep
unfolding split
split-append [] s sep h = ground arith
split-append (x ∷ p) s sep h = ground (arith, split-append p s sep h.1)

split-of_Lacks : (p : Bytes) (sep : ℕ) → Lacks sep p → split p sep ≡ p ∷ []
unfolding split
split-of_Lacks [] sep h = refl
split-of_Lacks (x ∷ p) sep h = ground (arith, split-of_Lacks p sep h.1)

pub split-join :
    (ps : List Bytes) (sep : ℕ) → ps ≢ [] → All (Lacks sep) ps → split (join ps sep) sep ≡ ps
unfolding join
split-join [] sep ne h = absurd (ne refl)
split-join (p ∷ []) sep ne h = split-of_Lacks p sep h.0
split-join (p ∷ q ∷ ps) sep ne h =
    split-append p (join (q ∷ ps) sep) sep h.0
    ∙ ap (◌∷◌ p) (split-join (q ∷ ps) sep (ground arith) h.1)
