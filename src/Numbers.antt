-- ===== src/Numbers.antt =====
-- Integers, and the functions Itoa and Atoi of Go's strconv on a 64-bit int.
pub mod RoundTrip
use ossein_kernel.Base.{
  Bool, Bytes, Option, [], if◌then◌else◌, leb, ltb, none, some, suc, zero, ℕ, ◌%◌, ◌&&◌, ◌*◌, ◌++◌,
  ◌+◌, ◌-◌, ◌/◌, ◌==◌, ◌∷◌,
}

-- `negsuc n` is -(n + 1).
pub data ℤ : Type 0 where
  pos negsuc : ℕ → ℤ

-- The decimal digits of a number, with fuel. `suc n` is enough for n: see digits-value.
unfoldable pub digits : ℕ → ℕ → Bytes
digits zero n = []
digits (suc fuel) n =
    let rest = digits fuel (n / 10) in
    if ltb n 10 then (48 + n) ∷ [] else rest ++ (48 + n % 10) ∷ []

abbrev pub decimal : ℕ → Bytes
decimal n = digits (suc n) n

abbrev pub minus_sign : ℕ
minus_sign = b'-'

abbrev pub plus_sign : ℕ
plus_sign = b'+'

unfoldable pub itoa : ℤ → Bytes
itoa (pos n) = decimal n
itoa (negsuc n) = minus_sign ∷ decimal (suc n)

abbrev pub is_decimal : ℕ → Bool
is_decimal c = leb 48 c && leb c 57

unfoldable pub value : Bytes → ℕ → Option ℕ
value [] acc = some acc
value (c ∷ s) acc = let rest = value s (acc * 10 + (c - 48)) in if is_decimal c then rest else none

abbrev pub int_limit : ℕ
int_limit = 9223372036854775808

abbrev pub at_most_int : ℕ → Option ℤ
at_most_int n = if ltb n int_limit then some (pos n) else none

abbrev pub negated : ℕ → ℤ
negated zero = pos zero
negated (suc n) = negsuc n

abbrev pub at_least_int : ℕ → Option ℤ
at_least_int n = if leb n int_limit then some (negated n) else none

abbrev pub in_range : (ℕ → Option ℤ) → Option ℕ → Option ℤ
in_range range none = none
in_range range (some n) = range n

abbrev pub unsigned : (ℕ → Option ℤ) → Bytes → Option ℤ
unsigned range [] = none
unsigned range (c ∷ s) = in_range range (value (c ∷ s) 0)

unfoldable pub atoi : Bytes → Option ℤ
atoi [] = none
atoi (c ∷ s) =
    if c == minus_sign
    then unsigned at_least_int s
    else (if c == plus_sign then unsigned at_most_int s else unsigned at_most_int (c ∷ s))
