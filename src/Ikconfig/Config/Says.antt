-- ===== src/Ikconfig/Config/Says.antt =====
-- What one line of a .config says of a symbol, and that `Parse` takes it at its word.
use ossein_kernel.Base.{
  Bool-cases, Bytes, List, Option, Option-cases, [], ap, append_assoc, arith, codes, equal,
  equal_refl, equal_iff, false, if◌then◌else◌, inl, inr, none, refl, some, sym, true, ◌++◌, ◌∙◌,
  ◌∷◌, ◌≡◌, ◌≢◌, ◌⊎◌,
}
use ossein_kernel.Strings.Cut.{
  NoStart-of_Lacks, after_prefix-append, after_prefix_sound, before_suffix-Before,
  before_suffix-append, find_cut-append, find_cut_sound,
}
use ossein_kernel.Strings.{after_prefix, before_suffix, find_cut, has_prefix}
use ossein_kernel.Ikconfig.Config.{
  State, assign, assignment, is_unset, lookup, state_m, state_n, state_y, unset_symbol,
}
use ossein_kernel.Strings.Split.{Lacks}

-- The line `CONFIG_…=y`, `CONFIG_…=m` or `# CONFIG_… is not set` of a symbol.
pub data Says (line symbol : Bytes) : State → Type 0 where
  set_y : line ≡ codes "CONFIG_" ++ (symbol ++ codes "=y") → Says line symbol state_y
  set_m : line ≡ codes "CONFIG_" ++ (symbol ++ codes "=m") → Says line symbol state_m
  not_set : line ≡ codes "# CONFIG_" ++ (symbol ++ codes " is not set") → Says line symbol state_n

-- The writes of one line that is not the title.
unfoldable pub written : Bytes → List (Bytes × State)
written line =
    if is_unset line
    then (unset_symbol line, state_n) ∷ []
    else if has_prefix line (codes "CONFIG_")
    then assign (assignment line).0 (assignment line).1 []
    else []

-- A suffix found behind the prefix does not overlap it.
unset_past_prefix :
    (r q : Bytes)
    → before_suffix (codes "# CONFIG_" ++ r) (codes " is not set") ≡ some q
    → (b : Bytes) × (before_suffix r (codes " is not set") ≡ some b)
unfolding codes before_suffix equal
unset_past_prefix r q h = elim (Option-cases (before_suffix r (codes " is not set"))) [
  | inl e ↦ absurd (ground arith)
  | inr found ↦ found
]

is_unset-parts :
    (line : Bytes)
    → is_unset line ≡ true
    → (r q : Bytes) × (after_prefix line (codes "# CONFIG_") ≡ some r)
      × (before_suffix line (codes " is not set") ≡ some q)
unfolding is_unset
is_unset-parts line h = elim (Option-cases (after_prefix line (codes "# CONFIG_"))) [
  | inl e ↦ absurd (ground arith)
  | inr (r, e) ↦ elim (Option-cases (before_suffix line (codes " is not set"))) [
    | inl d ↦ absurd (ground arith)
    | inr (q, d) ↦ (r, q, e, d)
  ]
]

unset_symbol-eq :
    (line r b : Bytes)
    → after_prefix line (codes "# CONFIG_") ≡ some r
    → before_suffix r (codes " is not set") ≡ some b
    → unset_symbol line ≡ b
unfolding unset_symbol
unset_symbol-eq line r b e f = ground arith

-- A line of the second case is the text of an unset symbol.
is_unset-Says : (line : Bytes) → is_unset line ≡ true → Says line (unset_symbol line) state_n
is_unset-Says line h =
    let (r, q, e, d) = is_unset-parts line h in
    let split_at = after_prefix_sound line (codes "# CONFIG_") r e in
    let (b, f) = unset_past_prefix r q (rw split_at at d) in
    let ends = rw f at (before_suffix-Before r (codes " is not set")) in
    rw (unset_symbol-eq line r b e f) (not_set (split_at ∙ ap (λ z. codes "# CONFIG_" ++ z) ends))

-- The two parts of an assignment, put together again.
assignment-parts :
    (line r : Bytes)
    → after_prefix line (codes "CONFIG_") ≡ some r
    → (assignment line).1 ≢ []
    → line ≡ codes "CONFIG_" ++ ((assignment line).0 ++ (codes "=" ++ (assignment line).1))
unfolding assignment
assignment-parts line r e h = elim (Option-cases (find_cut r (codes "="))) [
  | inl d ↦ absurd (h (ground arith))
  | inr ((b, a), d) ↦
      ground
        (arith, after_prefix_sound line (codes "CONFIG_") r e, find_cut_sound r (codes "=") b a d)
]

assignment-Says :
    (line value : Bytes)
    → has_prefix line (codes "CONFIG_") ≡ true
    → value ≢ []
    → equal (assignment line).1 value ≡ true
    → line ≡ codes "CONFIG_" ++ ((assignment line).0 ++ (codes "=" ++ value))
assignment-Says line value p ne h =
    let same = (equal_iff (assignment line).1 value).0 h in
    elim (Option-cases (after_prefix line (codes "CONFIG_"))) [
      | inl e ↦ absurd (ground arith)
      | inr (r, e) ↦ rw same at (assignment-parts line r e (λ z. ne (sym same ∙ z)))
    ]

value_y : codes "=y" ≡ codes "=" ++ codes "y"
unfolding codes
value_y = refl

value_m : codes "=m" ≡ codes "=" ++ codes "m"
unfolding codes
value_m = refl

y-ne-nil : codes "y" ≢ []
unfolding codes
y-ne-nil = ground arith

m-ne-nil : codes "m" ≢ []
unfolding codes
m-ne-nil = ground arith

-- What the inner `switch` writes is what the line says.
assign-Says :
    (line : Bytes)
    → has_prefix line (codes "CONFIG_") ≡ true
    → (assign (assignment line).0 (assignment line).1 [] ≡ [])
      ⊎ ((s : State) × (assign (assignment line).0 (assignment line).1 []
            ≡ ((assignment line).0, s) ∷ [])
          × Says line (assignment line).0 s)
unfolding assign
assign-Says line p = elim (Bool-cases (equal (assignment line).1 (codes "y"))) [
  | inl y ↦
      inr (
        state_y,
        rw y refl,
        set_y (assignment-Says line (codes "y") p y-ne-nil y ∙ rw value_y refl),
      )
  | inr n ↦ elim (Bool-cases (equal (assignment line).1 (codes "m"))) [
    | inl m ↦ inr (
      state_m,
      rw (n, m) refl,
      set_m (assignment-Says line (codes "m") p m-ne-nil m ∙ rw value_m refl),
    )
    | inr k ↦ inl (rw (n, k) refl)
  ]
]

-- A line writes nothing, or one state that it says.
written-Says :
    (line : Bytes)
    → (written line ≡ [])
      ⊎ ((symbol : Bytes) × (s : State) × (written line ≡ (symbol, s) ∷ []) × Says line symbol s)
unfolding written
written-Says line = elim (Bool-cases (is_unset line)) [
  | inl u ↦ inr (unset_symbol line, state_n, rw u refl, is_unset-Says line u)
  | inr u ↦ elim (Bool-cases (has_prefix line (codes "CONFIG_"))) [
    | inl p ↦ elim (assign-Says line p) [
      | inl e ↦ inl (rw (u, p) e)
      | inr (s, e, says) ↦ inr ((assignment line).0, s, rw (u, p) e, says)
    ]
    | inr p ↦ inl (rw (u, p) refl)
  ]
]

-- What a line writes it says.
abbrev pub Sound : Bytes → Bytes → Option State → Type 0
Sound line symbol none = Unit
Sound line symbol (some s) = Says line symbol s

pub written-Sound : (line symbol : Bytes) → Sound line symbol (lookup (written line) symbol)
unfolding lookup
written-Sound line symbol = elim (written-Says line) [
  | inl e ↦ rw (e, lookup) tt
  | inr (key, s, e, says) ↦ elim (Bool-cases (equal key symbol)) [
    | inl same ↦ rw (e, lookup, same) (rw ((equal_iff key symbol).0 same) at says)
    | inr other ↦ rw (e, lookup, other) tt
  ]
]

pub is_unset-of_set : (s : Bytes) → is_unset (codes "CONFIG_" ++ s) ≡ false
unfolding is_unset codes after_prefix
is_unset-of_set s = refl

assignment-eq :
    (symbol value : Bytes)
    → Lacks b'=' symbol
    → assignment (codes "CONFIG_" ++ (symbol ++ (codes "=" ++ value))) ≡ (symbol, value)
unfolding assignment codes
assignment-eq symbol value l = ground (
  arith,
  after_prefix-append (codes "CONFIG_") (symbol ++ (codes "=" ++ value)),
  find_cut-append symbol (codes "=") value (NoStart-of_Lacks symbol (codes "=" ++ value) b'=' l),
)

written-set :
    (symbol value : Bytes)
    → Lacks b'=' symbol
    → written (codes "CONFIG_" ++ (symbol ++ (codes "=" ++ value))) ≡ assign symbol value []
unfolding written
written-set symbol value l =
    rw (is_unset-of_set, after_prefix-append)
      (ap (λ z. assign z.0 z.1 []) (assignment-eq symbol value l))

is_unset-of_unset :
    (symbol : Bytes) → is_unset (codes "# CONFIG_" ++ (symbol ++ codes " is not set")) ≡ true
unfolding is_unset
is_unset-of_unset symbol =
    rw (after_prefix-append, ← append_assoc (codes "# CONFIG_"), before_suffix-append) refl

written-unset :
    (symbol : Bytes)
    → written (codes "# CONFIG_" ++ (symbol ++ codes " is not set")) ≡ (symbol, state_n) ∷ []
unfolding written
written-unset symbol = rw is_unset-of_unset (
    ap (λ z. (z, state_n) ∷ [])
      (unset_symbol-eq _ (symbol ++ codes " is not set") symbol (after_prefix-append _ _)
        (before_suffix-append symbol _)))

lookup_one : (symbol : Bytes) (s : State) → lookup ((symbol, s) ∷ []) symbol ≡ some s
unfolding lookup
lookup_one symbol s = rw equal_refl refl

assign_y : (symbol : Bytes) → assign symbol (codes "y") [] ≡ (symbol, state_y) ∷ []
unfolding assign
assign_y symbol = rw equal_refl refl

assign_m : (symbol : Bytes) → assign symbol (codes "m") [] ≡ (symbol, state_m) ∷ []
unfolding assign codes equal
assign_m symbol = refl

-- A line writes what it says.
pub written_complete :
    {line symbol : Bytes} {s : State}
    → Lacks b'=' symbol
    → Says line symbol s
    → lookup (written line) symbol ≡ some s
written_complete {symbol = symbol} l (set_y e) =
    rw (e, value_y, written-set symbol (codes "y") l, assign_y symbol) (lookup_one symbol state_y)
written_complete {symbol = symbol} l (set_m e) =
    rw (e, value_m, written-set symbol (codes "m") l, assign_m symbol) (lookup_one symbol state_m)
written_complete {symbol = symbol} l (not_set e) =
    rw (e, written-unset symbol) (lookup_one symbol state_n)
