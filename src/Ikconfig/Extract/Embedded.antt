-- ===== src/Ikconfig/Extract/Embedded.antt =====
-- What `Extract` finds in an image.
use ossein_kernel.Base.{
  Bytes, Option, Option-cases, ap, append_assoc, arith, inl, inr, none, some, sym, ◌++◌, ◌↔◌, ◌∙◌,
  ◌≡◌, ◌≢◌,
}
use ossein_kernel.Strings.Cut.{NoStart, find_cut-append, find_cut-none, find_cut_sound}
use ossein_kernel.Strings.{find_cut}
use ossein_kernel.Ikconfig.Extract.{
  embedded_config, end_marker, extract, extracted, failed, no_config, start_marker, stream_of,
}

-- An image round one stream, with the markers.
abbrev pub wrap : Bytes → Bytes → Bytes → Bytes
wrap before stream after = before ++ (start_marker ++ (stream ++ (end_marker ++ after)))

-- The decoder is given what stands between the first start marker and the first end marker
-- behind it.
pub stream_of-wrap :
    (before stream after : Bytes)
    → NoStart before (start_marker ++ (stream ++ (end_marker ++ after))) start_marker
    → NoStart stream (end_marker ++ after) end_marker
    → stream_of (wrap before stream after) ≡ some stream
unfolding stream_of
stream_of-wrap before stream after p q = ground (
  arith,
  find_cut-append before start_marker (stream ++ (end_marker ++ after)) p,
  find_cut-append stream end_marker after q,
)

module _ (gunzip : Bytes → Option Bytes) where
  -- A configuration that was compressed and embedded is extracted again, if the decoder undoes the
  -- compression and no marker begins earlier: in the image in front, or in the stream.
  pub extract-wrap :
      (gzip : Bytes → Bytes)
      → ((config : Bytes) → gunzip (gzip config) ≡ some config)
      → (before config after : Bytes)
      → NoStart before (start_marker ++ (gzip config ++ (end_marker ++ after))) start_marker
      → NoStart (gzip config) (end_marker ++ after) end_marker
      → extract gunzip (wrap before (gzip config) after) ≡ extracted config
  unfolding extract
  extract-wrap gzip undoes before config after p q =
      ground (arith, stream_of-wrap before (gzip config) after p q, undoes config)

  -- A stream that holds the bytes of the end marker is decoded only up to them.
  pub extract_early_end :
      (before head tail after : Bytes)
      → NoStart before
          (start_marker ++ ((head ++ (end_marker ++ tail)) ++ (end_marker ++ after)))
          start_marker
      → NoStart head (end_marker ++ (tail ++ (end_marker ++ after))) end_marker
      → gunzip head ≡ none
      → extract gunzip (wrap before (head ++ (end_marker ++ tail)) after) ≡ failed embedded_config
  unfolding extract stream_of
  extract_early_end before head tail after p q cut_short = ground (
    arith,
    find_cut-append before start_marker ((head ++ (end_marker ++ tail)) ++ (end_marker ++ after)) p,
    find_cut-append head end_marker (tail ++ (end_marker ++ after)) q,
    append_assoc head (end_marker ++ tail) (end_marker ++ after),
    append_assoc end_marker tail (end_marker ++ after),
  )

  -- `ErrNoConfig` says that the start marker stands nowhere in the image.
  pub extract-no_config :
      (image : Bytes)
      → (extract gunzip image ≡ failed no_config)
        ↔ ((before after : Bytes) → image ≢ before ++ (start_marker ++ after))
  unfolding extract stream_of
  extract-no_config image = elim (Option-cases (find_cut image start_marker)) [
    | inl e ↦ (
      λ _ b a f. find_cut-none b start_marker a (ap (λ z. find_cut z start_marker) (sym f) ∙ e),
      λ _. ground arith,
    )
    | inr ((b, a), e) ↦ (
      λ f. ground arith,
      λ none_there. absurd (none_there b a (find_cut_sound image start_marker b a e)),
    )
  ]
