-- ===== src/Paths.antt =====
-- The functions of Go's `path` and `path/filepath` that the program calls; on its platforms the two
-- packages agree. `Clean` is given by the elements of the path, in place of the byte buffer.
pub mod Stack
pub mod Clean
pub mod Inside
use ossein_kernel.Base.{
  Bool, Bytes, List, [], equal, false, if◌then◌else◌, true, ℕ, ◌++◌, ◌==◌, ◌||◌, ◌∷◌,
}
use ossein_kernel.Strings.{join, split}
use mathlib.Core.List.{reverse}

abbrev pub slash : ℕ
slash = b'/'

abbrev pub dot : Bytes
dot = b'.' ∷ []

abbrev pub dotdot : Bytes
dotdot = b'.' ∷ b'.' ∷ []

-- The element `..` met after `stack`, the last element first.
unfoldable pub parent : Bool → List Bytes → List Bytes
unfolding equal
parent rooted [] = if rooted then [] else dotdot ∷ []
parent rooted (top ∷ stack) = if equal top dotdot then dotdot ∷ top ∷ stack else stack

-- One element more.
unfoldable pub push : Bool → List Bytes → Bytes → List Bytes
unfolding parent
push rooted stack element =
    if equal element [] || equal element dot
    then stack
    else if equal element dotdot
    then parent rooted stack
    else element ∷ stack

unfoldable pub push_all : Bool → List Bytes → List Bytes → List Bytes
unfolding push
push_all rooted stack [] = stack
push_all rooted stack (element ∷ elements) = push_all rooted (push rooted stack element) elements

abbrev pub is_rooted : Bytes → Bool
is_rooted [] = false
is_rooted (c ∷ s) = c == slash

-- The elements of the cleaned path, the last one first.
unfoldable pub stack_of : Bytes → List Bytes
unfolding push_all split
stack_of s = push_all (is_rooted s) [] (split s slash)

-- A path from its elements.
abbrev pub render : Bool → List Bytes → Bytes
render true elements = slash ∷ join elements slash
render false [] = dot
render false (element ∷ elements) = join (element ∷ elements) slash

-- `path.Clean`
unfoldable pub clean : Bytes → Bytes
unfolding stack_of join
clean s = render (is_rooted s) (reverse (stack_of s))

-- `filepath.Join` of two elements: empty ones are left out.
unfoldable pub join_path : Bytes → Bytes → Bytes
unfolding clean
join_path [] [] = []
join_path [] (c ∷ b) = clean (c ∷ b)
join_path (c ∷ a) [] = clean (c ∷ a)
join_path (c ∷ a) (d ∷ b) = clean ((c ∷ a) ++ (slash ∷ (d ∷ b)))

-- One byte in front of a path that is split already.
abbrev pub split_cons : ℕ → Bytes → Bytes → Bytes × Bytes
split_cons c [] file = if c == slash then (c ∷ [], file) else ([], c ∷ file)
split_cons c (d ∷ dir) file = (c ∷ d ∷ dir, file)

-- `path.Split`: up to and with the last slash, and what is behind it.
unfoldable pub split_path : Bytes → Bytes × Bytes
split_path [] = ([], [])
split_path (c ∷ s) = split_cons c (split_path s).0 (split_path s).1

-- `path.Dir`
unfoldable pub dir : Bytes → Bytes
unfolding split_path clean
dir s = clean (split_path s).0

abbrev pub last_of : List Bytes → Bytes
last_of [] = dot
last_of (element ∷ []) = element
last_of (a ∷ b ∷ elements) = last_of (b ∷ elements)

-- The elements that are not empty.
unfoldable pub nonempty : List Bytes → List Bytes
nonempty [] = []
nonempty ([] ∷ elements) = nonempty elements
nonempty ((c ∷ s) ∷ elements) = (c ∷ s) ∷ nonempty elements

-- `path.Base`: the last element that is not empty; "/" for slashes alone and "." for nothing.
unfoldable pub base : Bytes → Bytes
unfolding nonempty split
base [] = dot
base (c ∷ s) = elim (nonempty (split (c ∷ s) slash)) [
  | [] ↦ slash ∷ []
  | element ∷ elements ↦ last_of (element ∷ elements)
]
