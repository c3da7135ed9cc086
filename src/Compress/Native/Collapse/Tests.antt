-- ===== src/Compress/Native/Collapse/Tests.antt =====
-- Runs of the compressors of logs, texts and code.
use cachy.Base.{◌≡◌, refl}
use cachy.Text.{equal, codes}
use cachy.Compress.Native.Collapse.{
  is_blank, collapse_blanks, repeated_note, followers, collapse_from, compress_repeated_lines,
  compress_repeated_paragraphs, compress_code,
}

compress_repeated_lines_run :
    compress_repeated_lines (codes "ready\nretry\nretry\n retry")
    ≡ codes "ready\nretry\n[repeated 2 identical log lines omitted]"
unfolding compress_repeated_lines collapse_from followers equal repeated_note
compress_repeated_lines_run = refl

compress_repeated_paragraphs_run :
    compress_repeated_paragraphs (codes "same\n\nsame\n\nother")
    ≡ codes "same\n\n[repeated 1 identical text blocks omitted]\n\nother"
unfolding compress_repeated_paragraphs collapse_from followers equal repeated_note
compress_repeated_paragraphs_run = refl

compress_code_run : compress_code (codes "a\n\n\n\nb") ≡ codes "a\n\nb"
unfolding compress_code collapse_blanks collapse_from is_blank followers equal
compress_code_run = refl
