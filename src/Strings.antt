-- ===== src/Strings.antt =====
-- The functions of Go's `strings` and `bytes` packages that the program calls.
pub mod Cut
pub mod Split
pub mod Fields
use ossein_kernel.Base.{
  Bool, Bytes, List, Option, [], equal, false, if◌then◌else◌, is_some, leb, length, ltb, none, some,
  suc, true, zero, ℕ, ◌&&◌, ◌++◌, ◌==◌, ◌||◌, ◌∷◌,
}

-- What follows the prefix `p` of `s`.
unfoldable pub after_prefix : Bytes → Bytes → Option Bytes
after_prefix s [] = some s
after_prefix [] (p ∷ ps) = none
after_prefix (x ∷ s) (p ∷ ps) = if x == p then after_prefix s ps else none

-- What stands before the suffix `p` of `s`.
unfoldable pub before_suffix : Bytes → Bytes → Option Bytes
unfolding equal
before_suffix [] p = if equal [] p then some [] else none
before_suffix (x ∷ s) p =
    if equal (x ∷ s) p
    then some []
    else elim (before_suffix s p) [ none ↦ none | some r ↦ some (x ∷ r) ]

-- `s` round the first occurrence of `sep`.
unfoldable pub find_cut : Bytes → Bytes → Option (Bytes × Bytes)
unfolding after_prefix
find_cut [] sep = elim (after_prefix [] sep) [ none ↦ none | some r ↦ some ([], r) ]
find_cut (x ∷ s) sep = elim (after_prefix (x ∷ s) sep) [
  | some r ↦ some ([], r)
  | none ↦ elim (find_cut s sep) [ none ↦ none | some (b, a) ↦ some (x ∷ b, a) ]
]

abbrev pub has_prefix : Bytes → Bytes → Bool
has_prefix s p = is_some (after_prefix s p)

abbrev pub has_suffix : Bytes → Bytes → Bool
has_suffix s p = is_some (before_suffix s p)

abbrev pub contains : Bytes → Bytes → Bool
contains s sep = is_some (find_cut s sep)

abbrev pub trim_prefix : Bytes → Bytes → Bytes
trim_prefix s p = elim (after_prefix s p) [ none ↦ s | some r ↦ r ]

abbrev pub trim_suffix : Bytes → Bytes → Bytes
trim_suffix s p = elim (before_suffix s p) [ none ↦ s | some r ↦ r ]

-- `strings.Cut`: with no separator it returns the whole of `s` and an empty rest.
abbrev pub cut : Bytes → Bytes → Bytes × Bytes × Bool
cut s sep = elim (find_cut s sep) [ none ↦ (s, [], false) | some (b, a) ↦ (b, a, true) ]

-- A piece in front of the first piece.
abbrev pub cons_head : ℕ → List Bytes → List Bytes
cons_head c [] = (c ∷ []) ∷ []
cons_head c (p ∷ ps) = (c ∷ p) ∷ ps

-- `strings.Split` at one byte: always one piece more than there are separators.
unfoldable pub split : Bytes → ℕ → List Bytes
split [] sep = [] ∷ []
split (c ∷ s) sep = let rest = split s sep in if c == sep then [] ∷ rest else cons_head c rest

-- `strings.Join` with a separator of one byte.
unfoldable pub join : List Bytes → ℕ → Bytes
join [] sep = []
join (p ∷ []) sep = p
join (p ∷ q ∷ ps) sep = p ++ (sep ∷ join (q ∷ ps) sep)

-- `strings.TrimLeft` with a cutset of one byte.
unfoldable pub trim_left : Bytes → ℕ → Bytes
trim_left [] c = []
trim_left (x ∷ s) c = if x == c then trim_left s c else x ∷ s

-- ASCII white space.
abbrev pub is_space : ℕ → Bool
is_space c = (leb 9 c && leb c 13) || c == b' '

-- U+0085 and U+00A0
abbrev is_space_pair : ℕ → ℕ → Bool
is_space_pair c d = c == 0xC2 && (d == 0x85 || d == 0xA0)

abbrev is_general_space : ℕ → Bool
is_general_space e = leb e 0x8A || (e == 0xA8 || (e == 0xA9 || e == 0xAF))

-- U+1680, U+2000 to U+200A, U+2028, U+2029, U+202F, U+205F and U+3000
abbrev is_space_triple : ℕ → ℕ → ℕ → Bool
is_space_triple c d e =
    (c == 0xE1 && (d == 0x9A && e == 0x80))
    || ((c == 0xE2 && (d == 0x80 && (leb 0x80 e && is_general_space e)))
        || ((c == 0xE2 && (d == 0x81 && e == 0x9F)) || (c == 0xE3 && (d == 0x80 && e == 0x80))))

abbrev triple_width : ℕ → ℕ → Bytes → ℕ
triple_width c d [] = 0
triple_width c d (e ∷ s) = if is_space_triple c d e then 3 else 0

abbrev wide_width : ℕ → Bytes → ℕ
wide_width c [] = 0
wide_width c (d ∷ s) = if is_space_pair c d then 2 else triple_width c d s

-- How many bytes the white space at the front takes in UTF-8, by `unicode.IsSpace`. Its first byte is
-- no byte within another code point, so that a text can be searched for it byte by byte.
unfoldable pub space_width : Bytes → ℕ
space_width [] = 0
space_width (c ∷ s) = if is_space c then 1 else wide_width c s

-- The bytes left of a white space, and what stands behind all white space.
unfoldable pub trim_from : ℕ → Bytes → Bytes
trim_from k [] = []
trim_from (suc k) (x ∷ s) = trim_from k s
trim_from zero (x ∷ s) = elim (space_width (x ∷ s)) [ zero ↦ x ∷ s | suc k ↦ trim_from k s ]

abbrev pub trim_space_left : Bytes → Bytes
trim_space_left s = trim_from 0 s

-- Nothing but white space.
abbrev pub all_space : Bytes → Bool
all_space s = equal (trim_space_left s) []

unfoldable pub trim_space_right : Bytes → Bytes
unfolding trim_from equal
trim_space_right [] = []
trim_space_right (x ∷ s) =
    let rest = trim_space_right s in if all_space (x ∷ s) then [] else x ∷ rest

-- `strings.TrimSpace`
abbrev pub trim_space : Bytes → Bytes
trim_space s = trim_space_right (trim_space_left s)

-- The pieces between white space, empty ones included, behind the bytes left of a white space.
unfoldable pub split_from : ℕ → Bytes → List Bytes
split_from k [] = [] ∷ []
split_from (suc k) (c ∷ s) = split_from k s
split_from zero (c ∷ s) = elim (space_width (c ∷ s)) [
  | zero ↦ cons_head c (split_from zero s)
  | suc k ↦ [] ∷ split_from k s
]

abbrev pub split_spaces : Bytes → List Bytes
split_spaces s = split_from 0 s

unfoldable pub drop_empty : List Bytes → List Bytes
drop_empty [] = []
drop_empty ([] ∷ ps) = drop_empty ps
drop_empty ((c ∷ p) ∷ ps) = (c ∷ p) ∷ drop_empty ps

-- `strings.Fields`
abbrev pub fields : Bytes → List Bytes
fields s = drop_empty (split_spaces s)

abbrev dropped_return : Bytes → Bytes
dropped_return s = trim_suffix s (b'\r' ∷ [])

-- `bufio.ScanLines`: the last line may lack its newline, and an empty one after the last newline is
-- none; a carriage return at the end of a line is dropped.
unfoldable pub line_pieces : List Bytes → List Bytes
line_pieces [] = []
line_pieces ([] ∷ []) = []
line_pieces (p ∷ ps) = dropped_return p ∷ line_pieces ps

-- `bufio.MaxScanTokenSize`: a line and its newline fit in a buffer of this size.
abbrev pub max_token : ℕ
max_token = 0x10000

unfoldable pub all_fit : List Bytes → Bool
all_fit [] = true
all_fit (p ∷ ps) = ltb (length p) max_token && all_fit ps

-- The lines that a `bufio.Scanner` gives, or an error for a line that is too long.
unfoldable pub scan_lines : Bytes → Option (List Bytes)
scan_lines s =
    let pieces = split s b'\n' in if all_fit pieces then some (line_pieces pieces) else none
