-- ===== src/Strings/Fields.antt =====
-- `strings.Fields` on words that were joined by spaces, and `strings.TrimSpace` on a word.
use ossein_kernel.Base.{
  All, Bool, Bytes, List, [], ap, append_assoc, arith, equal, false, ltb, not, refl, true, ℕ, ◌&&◌,
  ◌++◌, ◌<◌, ◌∙◌, ◌∷◌, ◌≡◌, ◌≢◌,
}
use ossein_kernel.Strings.{
  drop_empty, fields, is_space, join, space_width, split_from, split_spaces, trim_from, trim_space,
  trim_space_left, trim_space_right,
}

-- No white space begins anywhere in the text.
abbrev pub NoSpace : Bytes → Type 0
NoSpace [] = Unit
NoSpace (c ∷ s) = (space_width (c ∷ s) ≡ 0) × NoSpace s

-- Not empty, and no white space in it.
abbrev pub Word : Bytes → Type 0
Word s = (s ≢ []) × NoSpace s

space_width-ascii : (c : ℕ) (s : Bytes) → is_space c ≡ true → space_width (c ∷ s) ≡ 1
unfolding space_width
space_width-ascii c s h = rw h refl

-- An ASCII byte that is no white space begins none.
pub space_width-zero : (c : ℕ) (s : Bytes) → is_space c ≡ false → c < 128 → space_width (c ∷ s) ≡ 0
unfolding space_width
space_width-zero c [] h l = ground arith
space_width-zero c (d ∷ []) h l = ground arith
space_width-zero c (d ∷ e ∷ s) h l = ground arith

space_below : (c : ℕ) → is_space c ≡ true → c < 128
space_below c h = ground arith

-- What follows an ASCII byte does not make a white space begin before it.
space_width-append :
    (c : ℕ) (p s : Bytes) (e : ℕ)
    → e < 128
    → space_width (c ∷ p) ≡ 0
    → space_width (c ∷ (p ++ (e ∷ s))) ≡ 0
unfolding space_width
space_width-append c [] [] e l h = ground arith
space_width-append c [] (d ∷ s) e l h = ground arith
space_width-append c (d ∷ []) s e l h = ground arith
space_width-append c (d ∷ f ∷ p) s e l h = h

split_from-word :
    (c : ℕ) (p : Bytes) (b : Bytes) (rest : List Bytes)
    → space_width (c ∷ p) ≡ 0
    → split_from 0 p ≡ b ∷ rest
    → split_from 0 (c ∷ p) ≡ (c ∷ b) ∷ rest
unfolding split_from
split_from-word c p b rest h e = rw (h, split_from) (rw e refl)

split_spaces-append :
    (p s : Bytes) (c : ℕ)
    → NoSpace p
    → is_space c ≡ true
    → split_spaces (p ++ (c ∷ s)) ≡ p ∷ split_spaces s
unfolding split_from
split_spaces-append [] s c h e = rw (space_width-ascii c s e, split_from) refl
split_spaces-append (x ∷ p) s c h e =
    split_from-word x (p ++ (c ∷ s)) p (split_from 0 s)
      (space_width-append x p s c (space_below c e) h.0) (split_spaces-append p s c h.1 e)

drop_empty-Word : (p : Bytes) (ps : List Bytes) → Word p → drop_empty (p ∷ ps) ≡ p ∷ drop_empty ps
unfolding drop_empty
drop_empty-Word [] ps h = absurd (h.0 refl)
drop_empty-Word (c ∷ p) ps h = refl

pub fields-join :
    (ps : List Bytes) (c : ℕ)
    → All Word ps
    → is_space c ≡ true
    → fields (join ps b' ' ++ (c ∷ [])) ≡ ps
unfolding join
fields-join [] c h e =
    ap drop_empty (split_spaces-append [] [] c tt e) ∙ unfold split_from drop_empty in refl
fields-join (p ∷ []) c h e =
    rw (split_spaces-append p [] c h.0.1 e)
      (unfold split_from in (drop_empty-Word p ([] ∷ []) h.0 ∙ unfold drop_empty in refl))
fields-join (p ∷ q ∷ ps) c h e = rw (append_assoc p (b' ' ∷ join (q ∷ ps) b' ') (c ∷ [])) (
    rw (split_spaces-append p (join (q ∷ ps) b' ' ++ (c ∷ [])) b' ' h.0.1 refl) (
      drop_empty-Word p (split_spaces (join (q ∷ ps) b' ' ++ (c ∷ []))) h.0
      ∙ ap (◌∷◌ p) (fields-join (q ∷ ps) c h.1 e)))

-- Nothing is trimmed at the front of a text that begins with no white space.
trim_space_left-kept :
    (c : ℕ) (s : Bytes) → space_width (c ∷ s) ≡ 0 → trim_space_left (c ∷ s) ≡ c ∷ s
unfolding trim_from
trim_space_left-kept c s h = rw (h, trim_from) refl

trim_space_right-cons :
    (x : ℕ) (t s : Bytes)
    → trim_space_right t ≡ s
    → space_width (x ∷ t) ≡ 0
    → trim_space_right (x ∷ t) ≡ x ∷ s
unfolding trim_space_right
trim_space_right-cons x t s e h = rw (trim_space_left-kept x t h) (unfold equal in ap (◌∷◌ x) e)

trim_space_right-append :
    (s : Bytes) (c : ℕ) → NoSpace s → is_space c ≡ true → trim_space_right (s ++ (c ∷ [])) ≡ s
unfolding trim_space_right
trim_space_right-append [] c h e =
    unfold trim_from equal in (rw (space_width-ascii c [] e, trim_from) refl)
trim_space_right-append (x ∷ s) c h e =
    trim_space_right-cons x (s ++ (c ∷ [])) s (trim_space_right-append s c h.1 e)
      (space_width-append x s [] c (space_below c e) h.0)

-- White space at the end of a word is trimmed.
pub trim_space-append :
    (s : Bytes) (c : ℕ) → Word s → is_space c ≡ true → trim_space (s ++ (c ∷ [])) ≡ s
trim_space-append [] c h e = absurd (h.0 refl)
trim_space-append (x ∷ s) c h e =
    ap trim_space_right
      (trim_space_left-kept x (s ++ (c ∷ [])) (space_width-append x s [] c (space_below c e) h.1.0))
    ∙ trim_space_right-append (x ∷ s) c h.1 e

trim_space_right-NoSpace : (s : Bytes) → NoSpace s → trim_space_right s ≡ s
unfolding trim_space_right
trim_space_right-NoSpace [] h = refl
trim_space_right-NoSpace (x ∷ s) h =
    trim_space_right-cons x s s (trim_space_right-NoSpace s h.1) h.0

pub trim_space-Word : (s : Bytes) → Word s → trim_space s ≡ s
trim_space-Word [] h = absurd (h.0 refl)
trim_space-Word (x ∷ s) h =
    ap trim_space_right (trim_space_left-kept x s h.1.0) ∙ trim_space_right-NoSpace (x ∷ s) h.1

-- No byte of a text without white space is ASCII white space.
no_ascii_space : (c : ℕ) (s : Bytes) → space_width (c ∷ s) ≡ 0 → is_space c ≡ false
unfolding space_width
no_ascii_space c s h = ground arith

pub All-of_NoSpace : (s : Bytes) → NoSpace s → All (λ c. is_space c ≡ false) s
All-of_NoSpace [] h = tt
All-of_NoSpace (c ∷ s) h = (no_ascii_space c s h.0, All-of_NoSpace s h.1)

-- ASCII bytes that are no white space.
abbrev pub Visible : ℕ → Type 0
Visible c = (is_space c ≡ false) × (c < 128)

-- Visible bytes in front of a text bring no white space.
pub NoSpace-append : (s t : Bytes) → All Visible s → NoSpace t → NoSpace (s ++ t)
NoSpace-append [] t h k = k
NoSpace-append (c ∷ s) t h k = (space_width-zero c (s ++ t) h.0.0 h.0.1, NoSpace-append s t h.1 k)

pub NoSpace-of_Visible : (s : Bytes) → All Visible s → NoSpace s
NoSpace-of_Visible [] h = tt
NoSpace-of_Visible (c ∷ s) h = (space_width-zero c s h.0.0 h.0.1, NoSpace-of_Visible s h.1)

-- A test for words of ASCII.
unfoldable pub no_space : Bytes → Bool
no_space [] = true
no_space (c ∷ s) = (not (is_space c) && ltb c 128) && no_space s

pub no_space_sound : (s : Bytes) → no_space s ≡ true → All Visible s
unfolding no_space
no_space_sound [] h = tt
no_space_sound (c ∷ s) h = ((ground arith, ground arith), no_space_sound s (ground arith))

pub Word-of_no_space : (s : Bytes) → s ≢ [] → no_space s ≡ true → Word s
Word-of_no_space s ne h = (ne, NoSpace-of_Visible s (no_space_sound s h))
