-- ===== src/Admin.antt =====
-- internal/admin/auth.go: who may use the admin interface.
pub mod Token
pub mod Server
pub mod Metrics
pub mod Generated
mod Tests
use cachy.Base.{
  Bool, true, false, ◌||◌, List, [], ◌∷◌, ◌++◌, if◌then◌else◌, is_nil, any, not, Option, none, some,
}
use cachy.Text.{Bytes, codes, equal}
use cachy.Text.Ascii.{UnicodeTables, equal_fold}
use cachy.Text.Space.{fields}
use cachy.Http.{Request}
use cachy.Tokens.{Error}
use cachy.Proxy.Headers.{header_get}

abbrev pub token_header : Bytes
token_header = codes "X-Cachy-Admin-Token"

-- The second of two fields, of which the first is the word Bearer.
bearer_field : UnicodeTables → List Bytes → Bytes
bearer_field u (scheme ∷ token ∷ []) = if equal_fold u scheme (codes "Bearer") then token else []
bearer_field u [] = []
bearer_field u (scheme ∷ []) = []
bearer_field u (scheme ∷ token ∷ other ∷ rest) = []

pub bearer_token : UnicodeTables → Bytes → Bytes
bearer_token u value = bearer_field u (fields value)

-- `if token != "" { tokens = append(tokens, token) }`
abbrev pub some_token : Bytes → List Bytes
some_token token = if is_nil token then [] else token ∷ []

pub request_tokens : UnicodeTables → Request → List Bytes
request_tokens u r =
    some_token (header_get token_header r.headers)
    ++ some_token (bearer_token u (header_get (codes "Authorization") r.headers))

module _ (sha256 : Bytes → Bytes) where
  -- subtle.ConstantTimeCompare of the two digests
  pub token_equal : Bytes → Bytes → Bool
  token_equal got want = equal (sha256 got) (sha256 want)

  pub valid_token : UnicodeTables → Request → Bytes → Bool
  valid_token u r want = any (λ got. token_equal got want) (request_tokens u r)

-- The host of net.SplitHostPort, or its error, and whether net.ParseIP reads a loopback address.
pub record Net : Type 0 where
  pub split_host_port : Bytes → Option Bytes
  pub is_loopback_ip : Bytes → Bool

pub local_host : UnicodeTables → Net → Option Bytes → Option Error
local_host u net none = some (codes "admin listen address must include host and port")
local_host u net (some host) =
    if is_nil host
    then some (codes "admin listen address must bind to localhost, not all interfaces")
    else if equal_fold u host (codes "localhost")
    then none
    else if not (net.is_loopback_ip host)
    then some (codes "admin listen address must bind to localhost")
    else none

-- The error, or none.
pub validate_listen_address : UnicodeTables → Net → Bytes → Option Error
validate_listen_address u net address = local_host u net (net.split_host_port address)
