-- ===== src/Strings/Cut.antt =====
-- Prefixes, suffixes and `strings.Cut`: the parts make up the text, and a cut is at the first
-- occurrence.
use ossein_kernel.Base.{
  All, Bytes, Option, [], arith, equal, equal_refl, equal_iff, false, length, length-append, none,
  refl, some, ℕ, ◌++◌, ◌<◌, ◌==◌, ◌∷◌, ◌≡◌, ◌≢◌,
}
use ossein_kernel.Strings.{after_prefix, before_suffix, find_cut}

pub after_prefix-append : (p s : Bytes) → after_prefix (p ++ s) p ≡ some s
unfolding after_prefix
after_prefix-append [] s = refl
after_prefix-append (x ∷ p) s = ground (arith, after_prefix-append p s)

-- `some r` is the text behind the prefix.
abbrev pub After : Bytes → Bytes → Option Bytes → Type 0
After s p none = Unit
After s p (some r) = s ≡ p ++ r

pub after_prefix-After : (s p : Bytes) → After s p (after_prefix s p)
unfolding after_prefix
after_prefix-After s [] = refl
after_prefix-After [] (y ∷ p) = tt
after_prefix-After (x ∷ s) (y ∷ p) = ground (arith, after_prefix-After s p)

pub after_prefix_sound : (s p r : Bytes) → after_prefix s p ≡ some r → s ≡ p ++ r
after_prefix_sound s p r h = rw h at (after_prefix-After s p)

-- `some r` is the text in front of the suffix.
abbrev pub Before : Bytes → Bytes → Option Bytes → Type 0
Before s p none = Unit
Before s p (some r) = s ≡ r ++ p

pub before_suffix-Before : (s p : Bytes) → Before s p (before_suffix s p)
unfolding before_suffix
before_suffix-Before [] p = ground (arith, equal_iff [] p)
before_suffix-Before (x ∷ s) p = ground (arith, equal_iff (x ∷ s) p, before_suffix-Before s p)

-- `some (b, a)` splits the text round the separator.
abbrev pub Around : Bytes → Bytes → Option (Bytes × Bytes) → Type 0
Around s sep none = Unit
Around s sep (some (b, a)) = s ≡ b ++ (sep ++ a)

pub find_cut-Around : (s sep : Bytes) → Around s sep (find_cut s sep)
unfolding find_cut
find_cut-Around [] sep = ground (arith, after_prefix-After [] sep)
find_cut-Around (x ∷ s) sep = ground (arith, after_prefix-After (x ∷ s) sep, find_cut-Around s sep)

pub find_cut_sound : (s sep b a : Bytes) → find_cut s sep ≡ some (b, a) → s ≡ b ++ (sep ++ a)
find_cut_sound s sep b a h = rw h at (find_cut-Around s sep)

-- The separator `sep` begins at no position of `s` when `t` follows.
abbrev pub NoStart : Bytes → Bytes → Bytes → Type 0
NoStart [] t sep = Unit
NoStart (x ∷ s) t sep = (after_prefix (x ∷ (s ++ t)) sep ≡ none) × NoStart s t sep

find_cut-of_prefix : (s sep r : Bytes) → after_prefix s sep ≡ some r → find_cut s sep ≡ some ([], r)
unfolding find_cut
find_cut-of_prefix [] sep r h = rw (h, find_cut)
find_cut-of_prefix (x ∷ s) sep r h = rw (h, find_cut)

pub find_cut-append :
    (s sep t : Bytes) → NoStart s (sep ++ t) sep → find_cut (s ++ (sep ++ t)) sep ≡ some (s, t)
unfolding find_cut
find_cut-append [] sep t h = find_cut-of_prefix (sep ++ t) sep t (after_prefix-append sep t)
find_cut-append (x ∷ s) sep t h = ground (arith, find_cut-append s sep t h.1)

-- The text before the cut is the shortest: the separator begins nowhere in it.
abbrev pub FirstAround : Bytes → Option (Bytes × Bytes) → Type 0
FirstAround sep none = Unit
FirstAround sep (some (b, a)) = NoStart b (sep ++ a) sep

pub find_cut-FirstAround : (s sep : Bytes) → FirstAround sep (find_cut s sep)
unfolding find_cut
find_cut-FirstAround [] sep = ground arith
find_cut-FirstAround (x ∷ s) sep = ground (arith, find_cut-FirstAround s sep, find_cut-Around s sep)

-- No cut means no occurrence at all.
pub find_cut-none : (b sep a : Bytes) → find_cut (b ++ (sep ++ a)) sep ≢ none
unfolding find_cut
find_cut-none [] sep a h =
    ground (arith, find_cut-of_prefix (sep ++ a) sep a (after_prefix-append sep a))
find_cut-none (x ∷ b) sep a h = ground (arith, find_cut-none b sep a)

equal-false_of_length : (a b : Bytes) → length b < length a → equal a b ≡ false
unfolding equal
equal-false_of_length [] b h = absurd (omega arith)
equal-false_of_length (x ∷ a) [] h = refl
equal-false_of_length (x ∷ a) (y ∷ b) h = ground (arith, equal-false_of_length a b (omega arith))

pub before_suffix-append : (r p : Bytes) → before_suffix (r ++ p) p ≡ some r
unfolding before_suffix
before_suffix-append [] [] = refl
before_suffix-append [] (y ∷ p) = rw (equal_refl (y ∷ p)) refl
before_suffix-append (x ∷ r) p = ground (
  arith,
  equal-false_of_length (x ∷ (r ++ p)) p (omega (arith, length-append r p)),
  before_suffix-append r p,
)

-- A separator of one byte begins at no position of a text without that byte.
pub NoStart-of_Lacks : (s t : Bytes) (c : ℕ) → All (λ x. (x == c) ≡ false) s → NoStart s t (c ∷ [])
unfolding after_prefix
NoStart-of_Lacks [] t c h = tt
NoStart-of_Lacks (x ∷ s) t c h = (ground arith, NoStart-of_Lacks s t c h.1)
