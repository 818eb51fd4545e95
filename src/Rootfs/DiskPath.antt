-- ===== src/Rootfs/DiskPath.antt =====
-- The paths that the ext4 writer is given: relative, clean, and the same when mapped again.
use mathlib.Core.List.{reverse}
use ossein_kernel.Base.{
  All, Bool, Bytes, List, [], ap, arith, false, refl, sym, true, ◌∙◌, ◌∷◌, ◌≡◌, ◌≢◌,
}
use ossein_kernel.Strings.Split.{Lacks}
use ossein_kernel.Strings.{join, trim_left}
use ossein_kernel.Paths.{clean, is_rooted, push, render, slash, stack_of}
use ossein_kernel.Paths.Stack.{IsBuilt}
use ossein_kernel.Paths.Clean.{
  IsBuilt-ne-nil, reverse-All, stack_of-IsBuilt, stack_of-Lacks, stack_of-render,
}
use ossein_kernel.Rootfs.{disk_path, or_dot}

push_unrooted :
    (rooted : Bool) (stack : List Bytes) (e : Bytes)
    → push rooted stack e ≡ e ∷ stack
    → push false stack e ≡ e ∷ stack
unfolding push
push_unrooted rooted [] e h = ground arith
push_unrooted rooted (top ∷ stack) e h = ground arith

-- A stack of a rooted path is one of a relative path too.
IsBuilt-unrooted : (rooted : Bool) (stack : List Bytes) → IsBuilt rooted stack → IsBuilt false stack
IsBuilt-unrooted rooted [] h = tt
IsBuilt-unrooted rooted (e ∷ stack) h =
    (push_unrooted rooted stack e h.0, IsBuilt-unrooted rooted stack h.1)

trim_left-join :
    (e : Bytes) (es : List Bytes)
    → e ≢ []
    → Lacks slash e
    → (trim_left (join (e ∷ es) slash) slash ≡ join (e ∷ es) slash)
      × (or_dot (join (e ∷ es) slash) ≡ join (e ∷ es) slash)
unfolding join trim_left
trim_left-join [] es n l = absurd (n refl)
trim_left-join (c ∷ e) [] n l = ground arith
trim_left-join (c ∷ e) (d ∷ es) n l = ground arith

trim_left-slash : (s : Bytes) → trim_left (slash ∷ s) slash ≡ trim_left s slash
unfolding trim_left
trim_left-slash s = refl

or_dot-ne-nil : (s : Bytes) → or_dot s ≢ []
or_dot-ne-nil [] = ground arith
or_dot-ne-nil (c ∷ s) = ground arith

disk_path-ne-nil : (raw : Bytes) → disk_path raw ≢ []
unfolding disk_path
disk_path-ne-nil raw = or_dot-ne-nil (trim_left (clean raw) slash)

disk_path-elements :
    (rooted : Bool) (elements : List Bytes)
    → All (λ e. e ≢ []) elements
    → All (Lacks slash) elements
    → or_dot (trim_left (render rooted elements) slash) ≡ render false elements
disk_path-elements true [] n l = unfold trim_left join in refl
disk_path-elements true (e ∷ es) n l =
    let (f, g) = trim_left-join e es n.0 l.0 in
    ap or_dot (trim_left-slash (join (e ∷ es) slash) ∙ f) ∙ g
disk_path-elements false [] n l = unfold trim_left in refl
disk_path-elements false (e ∷ es) n l = let (f, g) = trim_left-join e es n.0 l.0 in ap or_dot f ∙ g

-- `diskPath` keeps the elements of the path and drops the leading slash.
pub disk_path-render : (raw : Bytes) → disk_path raw ≡ render false (reverse (stack_of raw))
unfolding disk_path clean
disk_path-render raw =
    disk_path-elements (is_rooted raw) (reverse (stack_of raw))
      (reverse-All (λ e. e ≢ []) (stack_of raw)
        (IsBuilt-ne-nil (is_rooted raw) (stack_of raw) (stack_of-IsBuilt raw)))
      (reverse-All (Lacks slash) (stack_of raw) (stack_of-Lacks raw))

clean_lem : (s : Bytes) → clean s ≡ render (is_rooted s) (reverse (stack_of s))
unfolding clean
clean_lem s = refl

stack_of-disk_path :
    (raw : Bytes) → (stack_of (disk_path raw) ≡ stack_of raw) × (is_rooted (disk_path raw) ≡ false)
stack_of-disk_path raw = rw disk_path-render (
    stack_of-render false (stack_of raw)
      (IsBuilt-unrooted (is_rooted raw) (stack_of raw) (stack_of-IsBuilt raw)) (stack_of-Lacks raw))

-- What `diskPath` gives is never empty, has no leading slash, is clean, and is mapped to itself.
pub disk_path_normal :
    (raw : Bytes)
    → (is_rooted (disk_path raw) ≡ false)
      × (disk_path raw ≢ [])
      × (clean (disk_path raw) ≡ disk_path raw)
      × (disk_path (disk_path raw) ≡ disk_path raw)
disk_path_normal raw =
    let (same, relative) = stack_of-disk_path raw in
    let elements = ap (λ (st : List Bytes). render false (reverse st)) same in
    (
      relative,
      disk_path-ne-nil raw,
      clean_lem (disk_path raw)
          ∙ ap (λ r. render r (reverse (stack_of (disk_path raw)))) relative
          ∙ elements
          ∙ sym (disk_path-render raw),
      disk_path-render (disk_path raw) ∙ elements ∙ sym (disk_path-render raw),
    )
