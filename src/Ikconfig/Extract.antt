-- ===== src/Ikconfig/Extract.antt =====
-- internal/ikconfig/ikconfig.go: the gzip stream between the IKCFG_ST and IKCFG_ED markers.
-- `compress/gzip` is a parameter: what the first member of a stream decodes to, if it does.
pub mod Embedded
use ossein_kernel.Base.{Bytes, Option, codes, none, some}
use ossein_kernel.Strings.{cut, find_cut}

pub data ExtractError : Type 0 where
  -- `ErrNoConfig`
  no_config : ExtractError
  -- "embedded config", from the decoder
  embedded_config : ExtractError

pub data Extracted : Type 0 where
  extracted : Bytes → Extracted
  failed : ExtractError → Extracted

abbrev pub start_marker : Bytes
start_marker = codes "IKCFG_ST"

abbrev pub end_marker : Bytes
end_marker = codes "IKCFG_ED"

-- The stream that is given to the decoder.
unfoldable pub stream_of : Bytes → Option Bytes
stream_of image = elim (find_cut image start_marker) [
  | none ↦ none
  | some (before, stream) ↦ some (cut stream end_marker).0
]

module _ (gunzip : Bytes → Option Bytes) where
  unfoldable pub extract : Bytes → Extracted
  unfolding stream_of
  extract image = elim (stream_of image) [
    | none ↦ failed no_config
    | some stream ↦ elim (gunzip stream) [
      | none ↦ failed embedded_config
      | some config ↦ extracted config
    ]
  ]
