-- ===== src/Paths/Stack.antt =====
-- The stack of `Clean`: pushed again, the elements of a cleaned path give the same stack.
use mathlib.Core.List.{reverse, reverse-cons}
use ossein_kernel.Base.{Bool, Bytes, List, [], ap, arith, refl, ◌++◌, ◌∙◌, ◌∷◌, ◌≡◌}
use ossein_kernel.Paths.{push, push_all}

-- Each element was put on what lies below it.
abbrev pub IsBuilt : Bool → List Bytes → Type 0
IsBuilt rooted [] = Unit
IsBuilt rooted (element ∷ stack) =
    (push rooted stack element ≡ element ∷ stack) × IsBuilt rooted stack

pub push-IsBuilt :
    (rooted : Bool) (stack : List Bytes) (element : Bytes)
    → IsBuilt rooted stack
    → IsBuilt rooted (push rooted stack element)
unfolding push
push-IsBuilt rooted [] element h = ground arith
push-IsBuilt rooted (top ∷ stack) element h = ground arith

pub push_all-IsBuilt :
    (rooted : Bool) (elements stack : List Bytes)
    → IsBuilt rooted stack
    → IsBuilt rooted (push_all rooted stack elements)
unfolding push_all
push_all-IsBuilt rooted [] stack h = h
push_all-IsBuilt rooted (e ∷ elements) stack h =
    push_all-IsBuilt rooted elements (push rooted stack e) (push-IsBuilt rooted stack e h)

pub push_all-append :
    (rooted : Bool) (xs ys stack : List Bytes)
    → push_all rooted stack (xs ++ ys) ≡ push_all rooted (push_all rooted stack xs) ys
unfolding push_all
push_all-append rooted [] ys stack = refl
push_all-append rooted (x ∷ xs) ys stack = push_all-append rooted xs ys (push rooted stack x)

pub push_all-reverse :
    (rooted : Bool) (stack : List Bytes)
    → IsBuilt rooted stack
    → push_all rooted [] (reverse stack) ≡ stack
unfolding push_all
push_all-reverse rooted [] h = refl
push_all-reverse rooted (e ∷ stack) h =
    ap (push_all rooted []) (reverse-cons e stack)
    ∙ push_all-append rooted (reverse stack) (e ∷ []) []
    ∙ rw (push_all-reverse rooted stack h.1) h.0
