-- ===== src/Install.antt =====
-- internal/install: Cachy as the endpoint of the clients. The check of a base URL, which all of it
-- shares; url.Parse is a parameter.
pub mod Codex
pub mod Json
pub mod Claude
pub mod Recipes
use cachy.Base.{
  ◌≡◌, arith, ℕ, Bool, not, ◌&&◌, ◌||◌, Option, none, some, List, [], ◌∷◌, ◌++◌, if◌then◌else◌,
  is_nil, Result, ok, err,
}
use cachy.Text.{Bytes, codes, equal}
use cachy.Text.Quote.{quote}
use cachy.Tokens.{Error}
use cachy.Proxy.Handler.{Url}

-- What the texts and addresses need from outside: url.Parse, path/filepath, and the printable runes.
pub record Tools : Type 0 where
  pub parse_url : Bytes → Result Error Url
  pub join_path : Bytes → Bytes → Bytes
  pub is_print : ℕ → Bool

invalid : Tools → Bytes → Bytes → Error
invalid t label raw = codes "invalid " ++ label ++ codes " " ++ quote t.is_print raw

invalid_scheme : Tools → Bytes → Bytes → Error
invalid_scheme t label scheme =
    codes "invalid " ++ label ++ codes " scheme " ++ quote t.is_print scheme

-- From what url.Parse returned; `none` is no error.
pub checked_url : Tools → Bytes → Bytes → Result Error Url → Option Error
unfolding invalid invalid_scheme
checked_url t raw label (err e) = some (invalid t label raw)
checked_url t raw label (ok url) =
    if is_nil url.scheme || is_nil url.host
    then some (invalid t label raw)
    else if not (equal url.scheme (codes "http")) && not (equal url.scheme (codes "https"))
    then some (invalid_scheme t label url.scheme)
    else none

pub validate_base_url : Tools → Bytes → Bytes → Option Error
unfolding checked_url
validate_base_url t raw label = checked_url t raw label (t.parse_url raw)

-- What the calls of the operating system return on the one file: os.ReadFile, os.MkdirAll and
-- os.WriteFile. A write that fails leaves the file as its outcome says.
pub record FileCalls : Type 0 where
  pub read_error : Option Error
  pub mkdir_error : Option Error
  pub write_error : Option (Error × Option Bytes)

-- readOptionalFile; a file that is not there is `none` and reads as the empty text.
pub read_optional_file : FileCalls → Option Bytes → Result Error Bytes
read_optional_file calls file = elim calls.read_error [
  | some e ↦ err e
  | none ↦ elim file [ none ↦ ok [] | some text ↦ ok text ]
]

-- os.MkdirAll and os.WriteFile
pub write_file : FileCalls → Bytes → Option Bytes → Option Bytes × Option Error
write_file calls text file = elim calls.mkdir_error [
  | some e ↦ (file, some e)
  | none ↦ elim calls.write_error [ some (e, left) ↦ (left, some e) | none ↦ (some text, none) ]
]

-- A file that is not there counts as empty.
abbrev pub contents : Option Bytes → Bytes
contents none = []
contents (some text) = text

pub read-contents :
    (calls : FileCalls) (file : Option Bytes) (current : Bytes)
    → read_optional_file calls file ≡ ok current
    → current ≡ contents file
unfolding read_optional_file
read-contents calls none current h = ground arith
read-contents calls (some text) current h = ground arith
