-- ===== src/Paths/Inside.antt =====
-- A cleaned path that has a cleaned directory and a slash for a prefix lies inside that directory.
use mathlib.Core.List.{reverse, reverse-cons, reverse-reverse, reverse-append}
use ossein_kernel.Base.{
  All, All-append_right, Bool, Bytes, List, [], ap, arith, equal_iff, false, length, refl, sym,
  true, ℕ, ◌++◌, ◌==◌, ◌∙◌, ◌∷◌, ◌≡◌, ◌≢◌,
}
use ossein_kernel.Strings.Split.{Lacks, split-join, split-ne-nil}
use ossein_kernel.Strings.{join, split}
use ossein_kernel.Paths.{clean, dot, dotdot, is_rooted, push, push_all, render, slash, stack_of}
use ossein_kernel.Paths.Stack.{IsBuilt, push_all-append}
use ossein_kernel.Paths.Clean.{
  IsBuilt-ne-nil, reverse-All, split-slash, stack_of-IsBuilt, stack_of-Lacks, stack_of-clean,
}

-- The elements of a path, the first one first.
abbrev pub elements_of : Bytes → List Bytes
elements_of s = reverse (stack_of s)

pub split-append_slash :
    (a b : Bytes) → split (a ++ (slash ∷ b)) slash ≡ split a slash ++ split b slash
unfolding split
split-append_slash [] b = refl
split-append_slash (c ∷ a) b = ground (arith, split-append_slash a b, split-ne-nil a slash)

-- What a path that is not empty becomes with more elements behind a slash.
pub stack_of-append :
    (c : ℕ) (a b : Bytes)
    → stack_of ((c ∷ a) ++ (slash ∷ b)) ≡ push_all (c == slash) (stack_of (c ∷ a)) (split b slash)
unfolding stack_of
stack_of-append c a b =
    ap (push_all (c == slash) []) (split-append_slash (c ∷ a) b)
    ∙ push_all-append (c == slash) (split (c ∷ a) slash) (split b slash) []

-- Not a way up, and no text that would split further.
pub record IsOrdinary (element : Bytes) : Type 0 where
  pub ne_nil : element ≢ []
  pub ne_dotdot : element ≢ dotdot
  pub no_slash : Lacks slash element

-- `path` has the elements of `directory`, and more that all lead down.
pub record IsInside (directory path : Bytes) : Type 0 where
  pub tail : List Bytes
  pub extends : elements_of path ≡ elements_of directory ++ tail
  pub down : All IsOrdinary tail

-- The pieces of the text of a path.
pieces : Bool → List Bytes → List Bytes
pieces true [] = [] ∷ [] ∷ []
pieces true (e ∷ es) = [] ∷ e ∷ es
pieces false [] = dot ∷ []
pieces false (e ∷ es) = e ∷ es

split-render :
    (rooted : Bool) (es : List Bytes)
    → All (Lacks slash) es
    → split (render rooted es) slash ≡ pieces rooted es
unfolding pieces
split-render true [] l = unfold split join in refl
split-render true (e ∷ es) l =
    split-slash (join (e ∷ es) slash) ∙ ap (◌∷◌ []) (split-join (e ∷ es) slash (ground arith) l)
split-render false [] l = unfold split in refl
split-render false (e ∷ es) l = split-join (e ∷ es) slash (ground arith) l

tail-injective : {x y : Bytes} {xs ys : List Bytes} → x ∷ xs ≡ y ∷ ys → xs ≡ ys
tail-injective p = cc

-- More pieces behind those of a directory are more elements.
pieces-extends :
    (rooted : Bool) (d : Bytes) (ds ps more : List Bytes)
    → more ≢ []
    → All (λ e. e ≢ []) (d ∷ ds)
    → pieces rooted ps ≡ pieces rooted (d ∷ ds) ++ more
    → ps ≡ (d ∷ ds) ++ more
unfolding pieces
pieces-extends true d ds [] more m n e = absurd (n.0 (cc))
pieces-extends true d ds (p ∷ ps) more m n e = tail-injective e
pieces-extends false d [] [] [] m n e = absurd (m refl)
pieces-extends false d [] [] (x ∷ more) m n e = cc
pieces-extends false d (x ∷ ds) [] more m n e = cc
pieces-extends false d ds (p ∷ ps) more m n e = e

push-dotdot :
    (rooted : Bool) (stack : List Bytes) (top : Bytes)
    → top ≢ dotdot
    → push rooted (top ∷ stack) dotdot ≡ stack
unfolding push
push-dotdot rooted stack top n = ground (arith, equal_iff top dotdot)

-- On an element that is no way up no way up is put.
built-down :
    (rooted : Bool) (stack : List Bytes) (e top : Bytes)
    → top ≢ dotdot
    → push rooted (top ∷ stack) e ≡ e ∷ top ∷ stack
    → e ≢ dotdot
built-down rooted stack e top n h z =
    let p : stack ≡ e ∷ top ∷ stack =
      sym (push-dotdot rooted stack top n) ∙ (rw z at h) ∙ ap (λ x. x ∷ top ∷ stack) (sym z) in
    omega (arith, ap length p)

-- All that lies on such an element leads down.
IsBuilt-down :
    (rooted : Bool) (on below : List Bytes) (top : Bytes)
    → top ≢ dotdot
    → IsBuilt rooted (on ++ (top ∷ below))
    → All (λ e. e ≢ dotdot) on
IsBuilt-down rooted [] below top n h = tt
IsBuilt-down rooted (e ∷ []) below top n h = (built-down rooted below e top n h.0, tt)
IsBuilt-down rooted (e ∷ f ∷ on) below top n h =
    let rest = IsBuilt-down rooted (f ∷ on) below top n h.1 in
    (built-down rooted (on ++ (top ∷ below)) e f rest.0 h.0, rest)

All-IsOrdinary :
    (es : List Bytes)
    → All (λ e. e ≢ []) es
    → All (λ e. e ≢ dotdot) es
    → All (Lacks slash) es
    → All IsOrdinary es
All-IsOrdinary [] n d l = tt
All-IsOrdinary (e ∷ es) n d l =
    (record { ne_nil = n.0; ne_dotdot = d.0; no_slash = l.0 }, All-IsOrdinary es n.1 d.1 l.1)

module _ (P : Bytes → Type 0) where
  pub reverse-All_inv : (xs : List Bytes) → All P (reverse xs) → All P xs
  reverse-All_inv xs h = rw reverse-reverse at (reverse-All P (reverse xs) h)

elements-ne-nil : (s : Bytes) → All (λ e. e ≢ []) (elements_of s)
elements-ne-nil s =
    reverse-All (λ e. e ≢ []) (stack_of s)
      (IsBuilt-ne-nil (is_rooted s) (stack_of s) (stack_of-IsBuilt s))

elements-Lacks : (s : Bytes) → All (Lacks slash) (elements_of s)
elements-Lacks s = reverse-All (Lacks slash) (stack_of s) (stack_of-Lacks s)

pub clean-eq : (s : Bytes) → clean s ≡ render (is_rooted s) (elements_of s)
unfolding clean
clean-eq s = refl

-- The elements of a cleaned path are its pieces, but for an empty one in front of a leading slash.
split-clean : (s : Bytes) → split (clean s) slash ≡ pieces (is_rooted s) (elements_of s)
split-clean s =
    ap (λ z. split z slash) (clean-eq s)
    ∙ split-render (is_rooted s) (elements_of s) (elements-Lacks s)

is_rooted-append : (a b : Bytes) → a ≢ [] → is_rooted (a ++ b) ≡ is_rooted a
is_rooted-append [] b n = absurd (n refl)
is_rooted-append (c ∷ a) b n = refl

render-ne-nil : (rooted : Bool) (es : List Bytes) → All (λ e. e ≢ []) es → render rooted es ≢ []
render-ne-nil true es n z = cc
render-ne-nil false [] n z = cc
render-ne-nil false ([] ∷ es) n z = n.0 refl
render-ne-nil false ((c ∷ e) ∷ []) n z = unfold join in cc
render-ne-nil false ((c ∷ e) ∷ f ∷ es) n z = unfold join in cc

pub clean-ne-nil : (s : Bytes) → clean s ≢ []
clean-ne-nil s z =
    render-ne-nil (is_rooted s) (elements_of s) (elements-ne-nil s) (sym (clean-eq s) ∙ z)

pieces-extends_ne :
    (rooted : Bool) (ds ps more : List Bytes)
    → ds ≢ []
    → more ≢ []
    → All (λ e. e ≢ []) ds
    → pieces rooted ps ≡ pieces rooted ds ++ more
    → ps ≡ ds ++ more
pieces-extends_ne rooted [] ps more n m h e = absurd (n refl)
pieces-extends_ne rooted (d ∷ ds) ps more n m h e = pieces-extends rooted d ds ps more m h e

reverse-ne-nil : (x : Bytes) (xs : List Bytes) → reverse (x ∷ xs) ≢ []
reverse-ne-nil x xs z = snoc-ne-nil x (reverse xs) (sym (reverse-cons x xs) ∙ z)
  where
    snoc-ne-nil : (x : Bytes) (xs : List Bytes) → xs ++ (x ∷ []) ≢ []
    snoc-ne-nil x [] z = cc
    snoc-ne-nil x (y ∷ xs) z = cc

module _ (directory path rest name : Bytes) (above : List Bytes)
    (named : stack_of directory ≡ name ∷ above) (no_way_up : name ≢ dotdot)
    (prefixed : clean path ≡ clean directory ++ (slash ∷ rest)) where
  same_root : is_rooted path ≡ is_rooted directory
  same_root =
      sym (stack_of-clean path).1
      ∙ ap is_rooted prefixed
      ∙ is_rooted-append (clean directory) (slash ∷ rest) (clean-ne-nil directory)
      ∙ (stack_of-clean directory).1

  elements-extends : elements_of path ≡ elements_of directory ++ split rest slash
  elements-extends =
      pieces-extends_ne (is_rooted directory) (elements_of directory) (elements_of path)
        (split rest slash) (rw named (reverse-ne-nil name above)) (split-ne-nil rest slash)
        (elements-ne-nil directory)
        (ap (λ r. pieces r (elements_of path)) (sym same_root)
          ∙ sym (split-clean path)
          ∙ ap (λ z. split z slash) prefixed
          ∙ split-append_slash (clean directory) rest
          ∙ ap (λ z. z ++ split rest slash) (split-clean directory))

  stack-extends : stack_of path ≡ reverse (split rest slash) ++ (name ∷ above)
  stack-extends =
      sym (reverse-reverse (stack_of path))
      ∙ ap reverse elements-extends
      ∙ reverse-append (elements_of directory) (split rest slash)
      ∙ ap (λ z. reverse (split rest slash) ++ z) (reverse-reverse (stack_of directory) ∙ named)

  -- The path lies inside the directory, if the name of the directory is not a way up.
  pub IsInside-of_prefix : IsInside directory path
  IsInside-of_prefix =
      let built : IsBuilt (is_rooted path) (reverse (split rest slash) ++ (name ∷ above)) =
        rw stack-extends at (stack_of-IsBuilt path) in
      let parts = λ (P : Bytes → Type 0) (h : All P (elements_of path)).
        All-append_right P (elements_of directory) (split rest slash) (rw elements-extends at h) in
      record {
        tail = split rest slash;
        extends = elements-extends;
        down =
            All-IsOrdinary (split rest slash) (parts (λ e. e ≢ []) (elements-ne-nil path))
              (reverse-All_inv (λ e. e ≢ dotdot) (split rest slash)
                (IsBuilt-down (is_rooted path) (reverse (split rest slash)) above name no_way_up
                  built))
              (parts (Lacks slash) (elements-Lacks path));
      }
