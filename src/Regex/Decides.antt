-- ===== src/Regex/Decides.antt =====
-- The matcher decides the language of an expression.
use ossein_kernel.Base.{
  Bool, Bool-cases, Bytes, [], ap, arith, inl, inr, refl, true, ℕ, ◌++◌, ◌∙◌, ◌∷◌, ◌≡◌,
}
use ossein_kernel.Regex.{
  Regex, alt, chars, deriv, empty, literal, match_string, never, nullable, seq, star,
}

-- The strings of an expression. A round of `star` takes at least one byte.
pub data Matches : Regex → Bytes → Type 0 where
  empty_lem : Matches empty []
  chars_lem : {p : ℕ → Bool} {c : ℕ} → p c ≡ true → Matches (chars p) (c ∷ [])
  seq_lem :
      {r s : Regex} {a b w : Bytes} → w ≡ a ++ b → Matches r a → Matches s b → Matches (seq r s) w
  left : {r s : Regex} {w : Bytes} → Matches r w → Matches (alt r s) w
  right : {r s : Regex} {w : Bytes} → Matches s w → Matches (alt r s) w
  stop : {r : Regex} → Matches (star r) []
  more :
      {r : Regex} {c : ℕ} {a b w : Bytes}
      → w ≡ c ∷ (a ++ b)
      → Matches r (c ∷ a)
      → Matches (star r) b
      → Matches (star r) w

nullable_sound : (r : Regex) → nullable r ≡ true → Matches r []
unfolding nullable
nullable_sound never h = ground arith
nullable_sound empty h = empty_lem
nullable_sound (chars p) h = ground arith
nullable_sound (seq r s) h =
    seq_lem refl (nullable_sound r (ground arith)) (nullable_sound s (ground arith))
nullable_sound (alt r s) h = elim (Bool-cases (nullable r)) [
  | inl e ↦ left (nullable_sound r e)
  | inr e ↦ right (nullable_sound s (ground arith))
]
nullable_sound (star r) h = stop

nullable_complete : {r : Regex} {w : Bytes} → Matches r w → w ≡ [] → nullable r ≡ true
unfolding nullable
nullable_complete empty_lem e = refl
nullable_complete (chars_lem h) e = cc
nullable_complete (seq_lem {a = []} {b = []} split x y) e =
    ground (arith, nullable_complete x refl, nullable_complete y refl)
nullable_complete (seq_lem {a = []} {b = c ∷ b} split x y) e = cc
nullable_complete (seq_lem {a = c ∷ a} split x y) e = cc
nullable_complete (left x) e = ground (arith, nullable_complete x e)
nullable_complete (right x) e = ground (arith, nullable_complete x e)
nullable_complete stop e = refl
nullable_complete (more split x y) e = refl

-- `d` takes only what `r` takes behind the byte `c`.
record Sound (c : ℕ) (d r : Regex) : Type 0 where
  behind : (w : Bytes) → Matches d w → Matches r (c ∷ w)

seq_behind :
    {c : ℕ} {d r : Regex} (s : Regex) (f : Sound c d r) {w : Bytes}
    → Matches (seq d s) w
    → Matches (seq r s) (c ∷ w)
seq_behind {c} s f (seq_lem e x y) = seq_lem (ap (◌∷◌ c) e) (f.behind _ x) y

star_behind :
    {c : ℕ} {d r : Regex} (f : Sound c d r) {w : Bytes}
    → Matches (seq d (star r)) w
    → Matches (star r) (c ∷ w)
star_behind {c} f (seq_lem e x y) = more (ap (◌∷◌ c) e) (f.behind _ x) y

alt_behind :
    {c : ℕ} {d e r s : Regex} (f : Sound c d r) (g : Sound c e s) {w : Bytes}
    → Matches (alt d e) w
    → Matches (alt r s) (c ∷ w)
alt_behind f g (left x) = left (f.behind _ x)
alt_behind f g (right x) = right (g.behind _ x)

either_behind :
    {c : ℕ} {d e r : Regex} (f : Sound c d r) (g : Sound c e r) {w : Bytes}
    → Matches (alt d e) w
    → Matches r (c ∷ w)
either_behind f g (left x) = f.behind _ x
either_behind f g (right x) = g.behind _ x

chars_behind :
    {c : ℕ} (p : ℕ → Bool) → p c ≡ true → {w : Bytes} → Matches empty w → Matches (chars p) (c ∷ w)
chars_behind p h empty_lem = chars_lem h

never-Sound : (c : ℕ) (r : Regex) → Sound c never r
never-Sound c r = record { behind = λ w x. elim x [ ] }

deriv-Sound : (c : ℕ) (r : Regex) → Sound c (deriv c r) r
unfolding deriv
deriv-Sound c never = never-Sound c never
deriv-Sound c empty = never-Sound c empty
deriv-Sound c (chars p) = elim (Bool-cases (p c)) [
  | inl e ↦ rw e (record { behind = λ w x. chars_behind p e x })
  | inr e ↦ rw e (never-Sound c (chars p))
]
deriv-Sound c (seq r s) = elim (Bool-cases (nullable r)) [
  | inl e ↦ rw e (record {
    behind = λ w x.
        either_behind (record { behind = λ v y. seq_behind s (deriv-Sound c r) y })
          (record {
            behind = λ v y. seq_lem refl (nullable_sound r e) ((deriv-Sound c s).behind v y);
          })
          x;
  })
  | inr e ↦ rw e (record { behind = λ w x. seq_behind s (deriv-Sound c r) x })
]
deriv-Sound c (alt r s) = record {
  behind = λ w x. alt_behind (deriv-Sound c r) (deriv-Sound c s) x;
}
deriv-Sound c (star r) = record { behind = λ w x. star_behind (deriv-Sound c r) x }

-- A derivation of `seq r s` at `c ∷ w` begins in `r`, or `r` takes the empty string.
deriv_seq-left :
    (c : ℕ) (r s : Regex) {w : Bytes}
    → Matches (seq (deriv c r) s) w
    → Matches (deriv c (seq r s)) w
unfolding deriv
deriv_seq-left c r s x = elim (Bool-cases (nullable r)) [ inl e ↦ rw e (left x) | inr e ↦ rw e x ]

deriv_seq-right :
    (c : ℕ) (r s : Regex) {w : Bytes}
    → nullable r ≡ true
    → Matches (deriv c s) w
    → Matches (deriv c (seq r s)) w
unfolding deriv
deriv_seq-right c r s n x = rw n (right x)

deriv_left :
    (c : ℕ) (r s : Regex) {w : Bytes} → Matches (deriv c r) w → Matches (deriv c (alt r s)) w
unfolding deriv
deriv_left c r s x = left x

deriv_right :
    (c : ℕ) (r s : Regex) {w : Bytes} → Matches (deriv c s) w → Matches (deriv c (alt r s)) w
unfolding deriv
deriv_right c r s x = right x

deriv_star :
    (c : ℕ) (r : Regex) {w : Bytes}
    → Matches (seq (deriv c r) (star r)) w
    → Matches (deriv c (star r)) w
unfolding deriv
deriv_star c r x = x

deriv_chars : (c : ℕ) (p : ℕ → Bool) → p c ≡ true → Matches (deriv c (chars p)) []
unfolding deriv
deriv_chars c p h = rw h empty_lem

deriv_complete :
    {r : Regex} {v : Bytes} → Matches r v → (c : ℕ) (w : Bytes) → v ≡ c ∷ w → Matches (deriv c r) w
deriv_complete empty_lem c w e = cc
deriv_complete (chars_lem {p} {c = d} h) c w e =
    let d-eq : d ≡ c = cc in let w-eq : w ≡ [] = cc in rw w-eq (deriv_chars c p (rw d-eq at h))
deriv_complete (seq_lem {r} {s} {a = []} {b} split x y) c w e =
    deriv_seq-right c r s (nullable_complete x refl) (deriv_complete y c w (cc))
deriv_complete (seq_lem {r} {s} {a = d ∷ a} {b} split x y) c w e =
    deriv_seq-left c r s (seq_lem (cc) (deriv_complete x c a (cc)) y)
deriv_complete (left x) c w e = deriv_left c _ _ (deriv_complete x c w e)
deriv_complete (right x) c w e = deriv_right c _ _ (deriv_complete x c w e)
deriv_complete stop c w e = cc
deriv_complete (more {c = d} {a} {b} split x y) c w e =
    deriv_star c _ (seq_lem (cc) (deriv_complete x c a (cc)) y)

-- The matcher accepts exactly the strings of the expression.
pub match_string_sound : (r : Regex) (w : Bytes) → match_string r w ≡ true → Matches r w
unfolding match_string
match_string_sound r [] h = nullable_sound r h
match_string_sound r (c ∷ w) h = (deriv-Sound c r).behind w (match_string_sound (deriv c r) w h)

pub match_string_complete : (w : Bytes) (r : Regex) → Matches r w → match_string r w ≡ true
unfolding match_string
match_string_complete [] r m = nullable_complete m refl
match_string_complete (c ∷ w) r m = match_string_complete w (deriv c r) (deriv_complete m c w refl)

-- A literal matches itself alone.
pub literal-Matches : (s : Bytes) → Matches (literal s) s
unfolding literal
literal-Matches [] = empty_lem
literal-Matches (c ∷ s) = seq_lem {a = c ∷ []} refl (chars_lem (ground arith)) (literal-Matches s)

chars-inv : {p : ℕ → Bool} {a : Bytes} → Matches (chars p) a → (c : ℕ) × (p c ≡ true) × (a ≡ c ∷ [])
chars-inv (chars_lem {c} h) = (c, h, refl)

pub seq-inv :
    {r s : Regex} {w : Bytes}
    → Matches (seq r s) w
    → (a b : Bytes) × (w ≡ a ++ b) × Matches r a × Matches s b
seq-inv (seq_lem {a} {b} e x y) = (a, b, e, x, y)

empty-inv : {w : Bytes} → Matches empty w → w ≡ []
empty-inv empty_lem = refl

pub literal-inv : (s : Bytes) {w : Bytes} → Matches (literal s) w → w ≡ s
unfolding literal
literal-inv [] m = empty-inv m
literal-inv (c ∷ s) m =
    let (a, b, e, x, y) = seq-inv m in
    let (d, h, f) = chars-inv x in e ∙ ap (λ z. z ++ b) f ∙ ground (arith, literal-inv s y)
