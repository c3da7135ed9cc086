-- ===== src/Compress/LiveZone/Classify.antt =====
-- `ClassifyContent`.
use cachy.Base.{Bool, ◌&&◌, ◌||◌, if◌then◌else◌, is_nil}
use cachy.Text.{Bytes, codes, has_prefix, contains}
use cachy.Text.Space.{trim_space}
use cachy.Text.Ascii.{UnicodeTables, to_upper}
use cachy.Compress.Block.{ContentType, text, log, code, diff, json}

looks_like_diff : Bytes → Bool
looks_like_diff t =
    contains t (codes "\n+++")
    || contains t (codes "\n---")
    || contains t (codes "\n@@ ")
    || has_prefix t (codes "diff --git")

looks_like_code : Bytes → Bool
looks_like_code t =
    has_prefix t (codes "```")
    || contains t (codes "\nfunc ")
    || contains t (codes "\npackage ")
    || contains t (codes "\nclass ")
    || contains t (codes "\ndef ")

looks_like_log : UnicodeTables → Bytes → Bool
looks_like_log u t =
    let upper = to_upper u t in
    contains upper (codes "ERROR")
    || contains upper (codes "WARN")
    || contains t (codes "stack trace")
    || contains t (codes "Traceback")

unfoldable pub classify_content : UnicodeTables → (Bytes → Bool) → Bytes → ContentType
unfolding looks_like_diff looks_like_code looks_like_log
classify_content u json_valid content =
    let trimmed = trim_space content in
    if is_nil trimmed
    then text
    else if json_valid trimmed && (has_prefix trimmed (codes "{") || has_prefix trimmed (codes "["))
    then json
    else if looks_like_diff trimmed
    then diff
    else if looks_like_code trimmed
    then code
    else if looks_like_log u trimmed
    then log
    else text
