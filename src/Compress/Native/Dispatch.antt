-- ===== src/Compress/Native/Dispatch.antt =====
-- The native compressors by content type.
use cachy.Base.{Option, none, some}
use cachy.Text.{Bytes}
use cachy.Base.{Result, ok}
use cachy.Tokens.{Error}
use cachy.Compress.Block.{Block, ContentType, text, log, code, diff, json, other_content}
use cachy.Compress.Pipeline.{Proposal}
use cachy.Compress.Native.Collapse.{
  compress_repeated_lines, compress_repeated_paragraphs, compress_code,
}
use cachy.Compress.Native.Diff.{compress_diff}

abbrev propose : Bytes → Result Error Proposal
propose t = ok (record { text = t; bytes = none })

text_log_by_type : ContentType → Bytes → Bytes
text_log_by_type log t = compress_repeated_lines t
text_log_by_type text t = compress_repeated_paragraphs t
text_log_by_type _ t = t

-- NativeTextLogCompressor.Compress
native_text_log : Block → Result Error Proposal
unfolding text_log_by_type
native_text_log block = propose (text_log_by_type block.content_type block.content)

module _ (compact : Bytes → Option Bytes) where
  compact_json : Bytes → Bytes
  compact_json t = elim (compact t) [ none ↦ t | some c ↦ c ]

  structured_by_type : ContentType → Bytes → Bytes
  unfolding compact_json
  structured_by_type json t = compact_json t
  structured_by_type diff t = compress_diff t
  structured_by_type code t = compress_code t
  structured_by_type _ t = t

  -- NativeStructuredCompressor.Compress
  native_structured : Block → Result Error Proposal
  unfolding structured_by_type
  native_structured block = propose (structured_by_type block.content_type block.content)

  native_by_type : ContentType → Block → Result Error Proposal
  native_by_type text block = native_text_log block
  native_by_type log block = native_text_log block
  native_by_type json block = native_structured block
  native_by_type diff block = native_structured block
  native_by_type code block = native_structured block
  native_by_type (other_content c) block = propose block.content

  -- NativeCompressor.Compress
  unfoldable pub native : Block → Result Error Proposal
  unfolding native_by_type native_text_log native_structured
  native block = native_by_type block.content_type block
