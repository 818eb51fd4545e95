-- ===== src/Regex.antt =====
-- The part of Go's `regexp` that the program uses: an anchored expression, matched against a whole
-- string. A string matches if the derivative by all its bytes accepts the empty string.
pub mod Decides
use ossein_kernel.Base.{Bool, Bytes, [], false, if◌then◌else◌, true, ℕ, ◌&&◌, ◌==◌, ◌||◌, ◌∷◌}

pub data Regex : Type 0 where
  never : Regex
  empty : Regex
  chars : (ℕ → Bool) → Regex
  seq : Regex → Regex → Regex
  alt : Regex → Regex → Regex
  star : Regex → Regex

abbrev pub plus : Regex → Regex
plus r = seq r (star r)

unfoldable pub literal : Bytes → Regex
literal [] = empty
literal (c ∷ s) = seq (chars (λ x. x == c)) (literal s)

unfoldable pub nullable : Regex → Bool
nullable never = false
nullable empty = true
nullable (chars p) = false
nullable (seq r s) = nullable r && nullable s
nullable (alt r s) = nullable r || nullable s
nullable (star r) = true

unfoldable pub deriv : ℕ → Regex → Regex
unfolding nullable
deriv c never = never
deriv c empty = never
deriv c (chars p) = if p c then empty else never
deriv c (seq r s) = if nullable r then alt (seq (deriv c r) s) (deriv c s) else seq (deriv c r) s
deriv c (alt r s) = alt (deriv c r) (deriv c s)
deriv c (star r) = seq (deriv c r) (star r)

-- `MatchString` of `^r$`.
unfoldable pub match_string : Regex → Bytes → Bool
unfolding deriv
match_string r [] = nullable r
match_string r (c ∷ s) = match_string (deriv c r) s
