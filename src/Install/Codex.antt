-- ===== src/Install/Codex.antt =====
-- internal/install/codex.go: the managed block of Codex's config.toml.
mod Settled
mod Block
pub mod Removed
pub mod Applied
pub mod Twice
pub mod Present
pub mod Sample
mod Tests
use cachy.Base.{
  ℕ, Bool, true, false, not, ◌&&◌, ◌||◌, ◌==◌, Option, none, some, List, [], ◌∷◌, ◌++◌,
  if◌then◌else◌, is_nil, any, length, drop, Result, ok, err, ◌>>=◌, ◌>>◌, refused,
}
use cachy.Text.{Bytes, codes, equal, has_prefix, contains, find, split, join, trim_left, trim_right}
use cachy.Text.Space.{trim_space}
use cachy.Text.Quote.{quote}
use cachy.Tokens.{Error}
use cachy.Install.{Tools, FileCalls, validate_base_url, read_optional_file, write_file}

abbrev pub managed_codex_begin : Bytes
managed_codex_begin = codes "# BEGIN CACHY CODEX INTEGRATION"

abbrev pub managed_codex_end : Bytes
managed_codex_end = codes "# END CACHY CODEX INTEGRATION"

abbrev pub default_codex_proxy_base_url : Bytes
default_codex_proxy_base_url = codes "http://127.0.0.1:8787/v1"

-- The text of the action, which may be no known one; the empty one stands for `install`.
pub record CodexOptions : Type 0 where
  pub action : Bytes
  pub config_path : Bytes
  pub proxy_base_url : Bytes
  pub dry_run : Bool

pub record CodexResult : Type 0 where
  pub action : Bytes
  pub dry_run : Bool
  pub changed : Bool
  pub path : Bytes
  pub preview : Bytes
  pub message : Bytes

pub default_codex_config_path : Tools → Bytes → Bytes → Result Error Bytes
default_codex_config_path t home_dir codex_home =
    if not (is_nil codex_home)
    then ok (t.join_path codex_home (codes "config.toml"))
    else if is_nil home_dir
    then err (codes "home directory is required to resolve Codex config")
    else ok (t.join_path (t.join_path home_dir (codes ".codex")) (codes "config.toml"))

abbrev pub is_line_end : ℕ → Bool
is_line_end c = c == 13 || c == 10

pub trailing_newline : Bytes → Bytes
trailing_newline prefix = if is_nil (trim_space prefix) then [] else codes "\n"

-- One byte less, if the text begins with it.
pub skip_byte : ℕ → Bytes → Bytes
skip_byte b [] = []
skip_byte b (c ∷ cs) = if c == b then cs else c ∷ cs

-- What remains of the text before the block and the text behind its end.
pub joined : Bytes → Bytes → Bytes
joined before after =
    trim_right is_line_end before ++ (trailing_newline before ++ trim_left is_line_end after)

-- From what strings.Index finds of the end, in the text from the beginning of the block on.
pub from_end : Bytes → Option (Bytes × Bytes) → Bytes
from_end before none = before
from_end before (some (inside, rest)) =
    joined before (skip_byte 10 (skip_byte 13 (drop (length managed_codex_end) rest)))

pub from_begin : Bytes → Option (Bytes × Bytes) → Bytes
from_begin text none = text
from_begin text (some (before, block)) = from_end before (find block managed_codex_end)

pub remove_managed_block : Bytes → Bytes
remove_managed_block text = from_begin text (find text managed_codex_begin)

pub append_block : Bytes → Bytes → Bytes
append_block current block =
    let trimmed = trim_right is_line_end current in
    if is_nil trimmed then block else trimmed ++ (codes "\n\n" ++ block)

-- A line that sets model_provider, as the loop takes it.
pub sets_model_provider : Bytes → Bool
sets_model_provider line =
    let trimmed = trim_space line in
    if is_nil trimmed || has_prefix trimmed (codes "#") || has_prefix trimmed (codes "[")
    then false
    else has_prefix trimmed (codes "model_provider") && contains trimmed (codes "=")

pub has_top_level_model_provider : Bytes → Bool
has_top_level_model_provider text = any sets_model_provider (split text (codes "\n"))

abbrev pub managed_note : Bytes
managed_note = codes "# Managed by Cachy. Remove with: cachy integrations codex uninstall"

pub block_lines : Tools → Bytes → Bool → List Bytes
block_lines t proxy_base_url preserve_provider =
    managed_codex_begin
    ∷ managed_note
    ∷ ((if not preserve_provider then codes "model_provider = \"cachy\"" ∷ [] else [])
        ++ codes "[model_providers.cachy]"
          ∷ codes "name = \"Cachy\""
          ∷ (codes "base_url = " ++ quote t.is_print proxy_base_url)
          ∷ codes "env_key = \"OPENAI_API_KEY\""
          ∷ codes "wire_api = \"responses\""
          ∷ managed_codex_end
          ∷ [])

pub render_codex_managed_block : Tools → Bytes → Bool → Bytes
render_codex_managed_block t proxy_base_url preserve_provider =
    join (block_lines t proxy_base_url preserve_provider) (codes "\n") ++ codes "\n"

abbrev pub configured : Bytes
configured = codes "Codex Cachy integration configured"

abbrev pub preserved : Bytes
preserved = codes "Codex provider block configured; existing model_provider preserved"

abbrev pub removed : Bytes
removed = codes "Codex Cachy integration removed"

-- The new text and the message.
pub plan_codex_config : Tools → Bytes → CodexOptions → Result Error (Bytes × Bytes)
plan_codex_config t current options =
    let cleaned = remove_managed_block current in
    if equal options.action (codes "install") || equal options.action (codes "repair")
    then ok (
      append_block cleaned (
          render_codex_managed_block t options.proxy_base_url
            (has_top_level_model_provider cleaned)),
      if has_top_level_model_provider cleaned then preserved else configured,
    )
    else if equal options.action (codes "uninstall")
    then ok (cleaned, removed)
    else err (codes "unsupported Codex integration action " ++ quote t.is_print options.action)

-- The options with the defaults filled in.
unfoldable pub with_defaults : CodexOptions → CodexOptions
with_defaults options = record options {
  action = if is_nil options.action then codes "install" else options.action;
  proxy_base_url =
      if is_nil options.proxy_base_url
      then default_codex_proxy_base_url
      else options.proxy_base_url;
}

pub validated : Tools → CodexOptions → Option Error
validated t options =
    if not (equal options.action (codes "uninstall"))
    then validate_base_url t options.proxy_base_url (codes "Codex proxy base URL")
    else none

pub plan_result : CodexOptions → Bytes → Bytes × Bytes → CodexResult
plan_result options current (next, message) = record {
  action = options.action;
  dry_run = options.dry_run;
  changed = not (equal next current);
  path = options.config_path;
  preview = next;
  message = message;
}

pub outcome_of : CodexResult → Option Error → Result Error CodexResult
outcome_of result none = ok result
outcome_of result (some e) = err e

-- From the plan on: a dry run, and a plan that changes nothing, write nothing.
pub carry_out : FileCalls → Option Bytes → CodexResult → Option Bytes × Result Error CodexResult
carry_out calls file result =
    if result.dry_run || not result.changed
    then (file, ok result)
    else let (file', outcome) = write_file calls result.preview file in
      (file', outcome_of result outcome)

-- The checks, the reading and the plan.
pub prepare : Tools → FileCalls → Option Bytes → CodexOptions → Result Error CodexResult
prepare t calls file options = do
  refused (validated t options)
  current ← read_optional_file calls file
  plan ← plan_codex_config t current options
  ok (plan_result options current plan)

pub applied :
    FileCalls → Option Bytes → Result Error CodexResult → Option Bytes × Result Error CodexResult
applied calls file (err e) = (file, err e)
applied calls file (ok result) = carry_out calls file result

-- The file at the path, before and after; `none` is no file.
pub apply_codex_integration :
    Tools → FileCalls → Option Bytes → CodexOptions → Option Bytes × Result Error CodexResult
apply_codex_integration t calls file options =
    if is_nil options.config_path
    then (file, err (codes "Codex config path is required"))
    else applied calls file (prepare t calls file (with_defaults options))
