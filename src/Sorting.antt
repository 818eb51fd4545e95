-- ===== src/Sorting.antt =====
-- `slices.Sort` on strings: byte order, as `LC_ALL=C sort` has it.
pub mod Laws
use ossein_kernel.Base.{
  Bool, Bytes, List, [], false, if◌then◌else◌, ltb, true, ◌&&◌, ◌==◌, ◌||◌, ◌∷◌,
}

-- `a <= b` in byte order.
unfoldable pub bytes_le : Bytes → Bytes → Bool
bytes_le [] b = true
bytes_le (x ∷ a) [] = false
bytes_le (x ∷ a) (y ∷ b) = ltb x y || (x == y && bytes_le a b)

unfoldable pub insert_sorted : Bytes → List Bytes → List Bytes
unfolding bytes_le
insert_sorted x [] = x ∷ []
insert_sorted x (y ∷ ys) = if bytes_le x y then x ∷ y ∷ ys else y ∷ insert_sorted x ys

unfoldable pub sort : List Bytes → List Bytes
unfolding insert_sorted
sort [] = []
sort (x ∷ xs) = insert_sorted x (sort xs)
