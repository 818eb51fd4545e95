-- ===== src/Numbers/RoundTrip.antt =====
-- Atoi reads back what Itoa prints.
use ossein_kernel.Base.{
  All, All-append, Bool-cases, Bytes, Option, [], ap, arith, inl, inr, ltb, refl, some, suc, true,
  zero, ℕ, ◌%◌, ◌*◌, ◌++◌, ◌+◌, ◌-◌, ◌/◌, ◌<◌, ◌∙◌, ◌∷◌, ◌≡◌, ◌≢◌,
}
use ossein_kernel.Numbers.{
  at_least_int, at_most_int, atoi, decimal, digits, int_limit, is_decimal, itoa, negsuc, pos,
  unsigned, value, ℤ,
}

value-append_digit :
    (s : Bytes) (n d acc : ℕ)
    → value s acc ≡ some n
    → d < 10
    → value (s ++ (48 + d) ∷ []) acc ≡ some (n * 10 + d)
unfolding value
value-append_digit [] n d acc e h = ground arith
value-append_digit (c ∷ s) n d acc e h =
    ground (arith, value-append_digit s n d (acc * 10 + (c - 48)))

digits-value : (fuel n : ℕ) → n < fuel → value (digits fuel n) 0 ≡ some n
unfolding digits
digits-value zero n h = absurd (omega arith)
digits-value (suc fuel) n h = elim (Bool-cases (ltb n 10)) [
  | inl e ↦ rw e (unfold value in ground arith)
  | inr e ↦ rw e (
      value-append_digit (digits fuel (n / 10)) (n / 10) (n % 10) 0
        (digits-value fuel (n / 10) (ground arith)) (omega arith)
      ∙ ap some (omega arith))
]

value-decimal : (n : ℕ) → value (decimal n) 0 ≡ some n
value-decimal n = digits-value (suc n) n (omega arith)

append_one-ne-nil : (s : Bytes) (c : ℕ) → s ++ c ∷ [] ≢ []
append_one-ne-nil [] c = ground arith
append_one-ne-nil (x ∷ s) c = ground arith

abbrev pub Decimal : Bytes → Type 0
Decimal = All (λ c. is_decimal c ≡ true)

pub digits-Decimal : (fuel n : ℕ) → Decimal (digits fuel n)
unfolding digits
digits-Decimal zero n = tt
digits-Decimal (suc fuel) n = elim (Bool-cases (ltb n 10)) [
  | inl e ↦ rw e (ground arith, tt)
  | inr e ↦ rw e (
      All-append (λ c. is_decimal c ≡ true) (digits fuel (n / 10)) ((48 + n % 10) ∷ [])
        (digits-Decimal fuel (n / 10)) (ground arith, tt))
]

pub digits-ne-nil : (fuel n : ℕ) → digits (suc fuel) n ≢ []
unfolding digits
digits-ne-nil fuel n = elim (Bool-cases (ltb n 10)) [
  | inl e ↦ rw e (ground arith)
  | inr e ↦ rw e (append_one-ne-nil (digits fuel (n / 10)) (48 + n % 10))
]

unsigned-of_value :
    (range : ℕ → Option ℤ) (s : Bytes) (n : ℕ)
    → value s 0 ≡ some n
    → s ≢ []
    → unsigned range s ≡ range n
unsigned-of_value range [] n e ne = absurd (ne refl)
unsigned-of_value range (c ∷ s) n e ne = rw e refl

-- The integers of a 64-bit int.
abbrev pub InRange : ℤ → Type 0
InRange (pos n) = n < int_limit
InRange (negsuc n) = n < int_limit

atoi-digits : (s : Bytes) (n : ℕ) → Decimal s → s ≢ [] → value s 0 ≡ some n → atoi s ≡ at_most_int n
unfolding atoi
atoi-digits [] n d ne e = absurd (ne refl)
atoi-digits (c ∷ s) n d ne e = rw e (ground arith)

pub atoi-itoa : (n : ℤ) → InRange n → atoi (itoa n) ≡ some n
unfolding itoa
atoi-itoa (pos n) h =
    atoi-digits (decimal n) n (digits-Decimal (suc n) n) (digits-ne-nil n n) (value-decimal n)
    ∙ ground arith
atoi-itoa (negsuc n) h =
    unfold atoi in
    (unsigned-of_value at_least_int (decimal (suc n)) (suc n) (value-decimal (suc n))
        (digits-ne-nil (suc n) (suc n))
      ∙ ground arith)
