-- ===== src/Tests/Spaces.antt =====
-- White space beyond ASCII: U+00A0, U+2003 and U+3000 are trimmed and separate fields, as in Go.
use ossein_kernel.Base.{Bytes, [], codes, equal, refl, ◌++◌, ◌∷◌, ◌≡◌}
use ossein_kernel.Strings.{
  drop_empty, fields, space_width, split_from, trim_from, trim_space, trim_space_right,
}

abbrev no_break : Bytes
no_break = 0xC2 ∷ 0xA0 ∷ []

abbrev em_space : Bytes
em_space = 0xE2 ∷ 0x80 ∷ 0x83 ∷ []

abbrev ideographic : Bytes
ideographic = 0xE3 ∷ 0x80 ∷ 0x80 ∷ []

trimmed : trim_space (no_break ++ codes " x y" ++ em_space ++ ideographic) ≡ codes "x y"
unfolding trim_from space_width trim_space_right codes equal
trimmed = refl

separated : fields (codes "a" ++ no_break ++ codes "b=1" ++ em_space) ≡ codes "a" ∷ codes "b=1" ∷ []
unfolding split_from space_width drop_empty codes
separated = refl

-- A byte of white space within another code point separates nothing.
within : fields (0xC3 ∷ 0x85 ∷ []) ≡ (0xC3 ∷ 0x85 ∷ []) ∷ []
unfolding split_from space_width drop_empty
within = refl
