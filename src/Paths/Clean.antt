-- ===== src/Paths/Clean.antt =====
-- `Clean` gives a path in normal form, and leaves a path in that form alone.
use mathlib.Core.List.{reverse, reverse-cons}
use ossein_kernel.Base.{
  All, All-append, Bool, Bytes, List, [], ap, ap₂, arith, false, length, refl, true, ◌∙◌, ◌∷◌, ◌≡◌,
  ◌≢◌,
}
use ossein_kernel.Strings.Split.{Lacks, split-Lacks, split-join}
use ossein_kernel.Strings.{join, split}
use ossein_kernel.Paths.{clean, dotdot, is_rooted, push, push_all, render, slash, stack_of}
use ossein_kernel.Paths.Stack.{IsBuilt, push_all-IsBuilt, push_all-reverse}

module _ (P : Bytes → Type 0) where
  push-All :
      (rooted : Bool) (stack : List Bytes) (element : Bytes)
      → P dotdot
      → All P stack
      → P element
      → All P (push rooted stack element)
  unfolding push
  push-All rooted [] element d h p = ground arith
  push-All rooted (top ∷ stack) element d h p = ground arith

  pub push_all-All :
      (rooted : Bool) (elements stack : List Bytes)
      → P dotdot
      → All P stack
      → All P elements
      → All P (push_all rooted stack elements)
  unfolding push_all
  push_all-All rooted [] stack d h p = h
  push_all-All rooted (e ∷ elements) stack d h p =
      push_all-All rooted elements (push rooted stack e) d (push-All rooted stack e d h p.0) p.1

  pub reverse-All : (xs : List Bytes) → All P xs → All P (reverse xs)
  reverse-All [] h = tt
  reverse-All (x ∷ xs) h =
      rw reverse-cons (All-append P (reverse xs) (x ∷ []) (reverse-All xs h.1) (h.0, tt))

pub stack_of-IsBuilt : (s : Bytes) → IsBuilt (is_rooted s) (stack_of s)
unfolding stack_of
stack_of-IsBuilt s = push_all-IsBuilt (is_rooted s) (split s slash) [] tt

pub stack_of-Lacks : (s : Bytes) → All (Lacks slash) (stack_of s)
unfolding stack_of
stack_of-Lacks s =
    push_all-All (Lacks slash) (is_rooted s) (split s slash) [] (refl, (refl, tt)) tt
      (split-Lacks s slash)

not-eq-cons : (e : Bytes) (stack : List Bytes) → stack ≢ e ∷ stack
not-eq-cons e stack p = omega (arith, ap length p)

built-ne-nil :
    (rooted : Bool) (stack : List Bytes) (e : Bytes) → push rooted stack e ≡ e ∷ stack → e ≢ []
unfolding push
built-ne-nil rooted stack [] p z = not-eq-cons [] stack p
built-ne-nil rooted stack (c ∷ e) p z = ground arith

-- An element that was put on a stack is not empty.
pub IsBuilt-ne-nil :
    (rooted : Bool) (stack : List Bytes) → IsBuilt rooted stack → All (λ e. e ≢ []) stack
IsBuilt-ne-nil rooted [] h = tt
IsBuilt-ne-nil rooted (e ∷ stack) h =
    (built-ne-nil rooted stack e h.0, IsBuilt-ne-nil rooted stack h.1)

is_rooted-join :
    (e : Bytes) (es : List Bytes) → e ≢ [] → Lacks slash e → is_rooted (join (e ∷ es) slash) ≡ false
unfolding join
is_rooted-join [] es n l = absurd (n refl)
is_rooted-join (c ∷ e) [] n l = l.0
is_rooted-join (c ∷ e) (d ∷ es) n l = l.0

is_rooted-render :
    (rooted : Bool) (elements : List Bytes)
    → All (λ e. e ≢ []) elements
    → All (Lacks slash) elements
    → is_rooted (render rooted elements) ≡ rooted
is_rooted-render true elements n l = refl
is_rooted-render false [] n l = refl
is_rooted-render false (e ∷ es) n l = is_rooted-join e es n.0 l.0

-- A text that begins with the separator has an empty first piece.
pub split-slash : (s : Bytes) → split (slash ∷ s) slash ≡ [] ∷ split s slash
unfolding split
split-slash s = refl

push_all-render :
    (rooted : Bool) (elements : List Bytes)
    → All (Lacks slash) elements
    → push_all rooted [] (split (render rooted elements) slash) ≡ push_all rooted [] elements
unfolding push_all
push_all-render true [] l = unfold split join in refl
push_all-render true (e ∷ es) l =
    ap (push_all true []) (split-slash (join (e ∷ es) slash))
    ∙ ap (push_all true []) (split-join (e ∷ es) slash (ground arith) l)
push_all-render false [] l = unfold split in refl
push_all-render false (e ∷ es) l =
    ap (push_all false []) (split-join (e ∷ es) slash (ground arith) l)

-- The text of the elements of a stack, pushed again, gives the stack.
pub stack_of-render :
    (rooted : Bool) (stack : List Bytes)
    → IsBuilt rooted stack
    → All (Lacks slash) stack
    → (stack_of (render rooted (reverse stack)) ≡ stack)
      × (is_rooted (render rooted (reverse stack)) ≡ rooted)
unfolding stack_of
stack_of-render rooted stack h l =
    let ls = reverse-All (Lacks slash) stack l in
    let r =
      is_rooted-render rooted (reverse stack)
        (reverse-All (λ e. e ≢ []) stack (IsBuilt-ne-nil rooted stack h)) ls in
    (rw r (push_all-render rooted (reverse stack) ls ∙ push_all-reverse rooted stack h), r)

-- Cleaning keeps the elements and the leading slash.
pub stack_of-clean :
    (s : Bytes) → (stack_of (clean s) ≡ stack_of s) × (is_rooted (clean s) ≡ is_rooted s)
unfolding clean
stack_of-clean s =
    stack_of-render (is_rooted s) (stack_of s) (stack_of-IsBuilt s) (stack_of-Lacks s)

-- `Clean` is idempotent.
pub clean-clean : (s : Bytes) → clean (clean s) ≡ clean s
unfolding clean
clean-clean s = ap₂ (λ r st. render r (reverse st)) (stack_of-clean s).1 (stack_of-clean s).0
