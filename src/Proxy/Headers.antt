-- ===== src/Proxy/Headers.antt =====
-- internal/proxy/headers.go. An http.Header lists its keys, in the order in which the map yields
-- them, with their values.
pub mod Copy
pub mod Keys
use cachy.Base.{
  ℕ, Bool, true, false, not, ◌&&◌, ◌||◌, List, [], ◌∷◌, ◌++◌, ltb, leb, ◌==◌, if◌then◌else◌, map,
  all, any,
}
use cachy.Text.{Bytes, codes, equal}
use cachy.Text.Ascii.{UnicodeTables, to_lower, lower_byte, upper_byte}

abbrev pub Header : Type 0
Header = List (Bytes × List Bytes)

-- Bytes of a token, of which the name of a header field consists.
unfoldable pub is_token_byte : ℕ → Bool
is_token_byte c =
    (leb b'a' c && leb c b'z')
    || (leb b'A' c && leb c b'Z')
    || (leb b'0' c && leb c b'9')
    || any (λ d. d == c) (codes "!#$%&'*+-.^_`|~")

-- The flag says that a letter here is made upper case.
unfoldable pub canonical_from : Bool → Bytes → Bytes
canonical_from up [] = []
canonical_from up (c ∷ cs) =
    (if up then upper_byte c else lower_byte c) ∷ canonical_from (c == b'-') cs

-- textproto.CanonicalMIMEHeaderKey
unfoldable pub canonical_key : Bytes → Bytes
canonical_key key = if all is_token_byte key then canonical_from true key else key

-- The value is appended at its key, which is already canonical.
pub add_at : Bytes → Bytes → Header → Header
add_at key value [] = (key, value ∷ []) ∷ []
add_at key value ((k, vs) ∷ h) =
    if equal k key then (k, vs ++ value ∷ []) ∷ h else (k, vs) ∷ add_at key value h

-- http.Header.Add
pub add : Bytes → Bytes → Header → Header
add key value h = add_at (canonical_key key) value h

-- The values of a canonical key.
unfoldable pub values : Bytes → Header → List Bytes
values key [] = []
values key ((k, vs) ∷ h) = if equal k key then vs else values key h

abbrev first_value : List Bytes → Bytes
first_value [] = []
first_value (v ∷ vs) = v

-- http.Header.Get
unfoldable pub header_get : Bytes → Header → Bytes
header_get key h = first_value (values (canonical_key key) h)

pub add_all : Bytes → List Bytes → Header → Header
add_all key [] dst = dst
add_all key (v ∷ vs) dst = add_all key vs (add key v dst)

unfoldable pub copy_headers_with_policy : (Bytes → Bool) → Header → Header → Header
copy_headers_with_policy include dst [] = dst
copy_headers_with_policy include dst ((key, vs) ∷ src) =
    copy_headers_with_policy include (if not (include key) then dst else add_all key vs dst) src

unfoldable pub one_of : Bytes → List Bytes → Bool
one_of key [] = false
one_of key (k ∷ ks) = equal key k || one_of key ks

-- The Unicode tables are a parameter, for keys that are not ASCII.
module _ (u : UnicodeTables) where
  pub hop_by_hop_header : Bytes → Bool
  hop_by_hop_header key = one_of (to_lower u key) (
      codes "connection"
      ∷ codes "keep-alive"
      ∷ codes "proxy-authenticate"
      ∷ codes "proxy-authorization"
      ∷ codes "te"
      ∷ codes "trailer"
      ∷ codes "transfer-encoding"
      ∷ codes "upgrade"
      ∷ [])

  pub proxy_provenance_header : Bytes → Bool
  proxy_provenance_header key = one_of (to_lower u key) (
      codes "forwarded"
      ∷ codes "via"
      ∷ codes "x-forwarded-for"
      ∷ codes "x-forwarded-host"
      ∷ codes "x-forwarded-proto"
      ∷ codes "x-real-ip"
      ∷ [])

  pub request_transport_header : Bytes → Bool
  request_transport_header key = one_of (to_lower u key) (codes "content-length" ∷ [])

  pub safe_request_header : Bytes → Bool
  safe_request_header key =
      not (hop_by_hop_header key)
      && (not (proxy_provenance_header key) && not (request_transport_header key))

  unfoldable pub copy_request_headers : Header → Header → Header
  copy_request_headers = copy_headers_with_policy safe_request_header

  pub copy_headers : Header → Header → Header
  copy_headers = copy_headers_with_policy (λ key. not (hop_by_hop_header key))

  unfoldable pub sensitive_header : Bytes → Bool
  sensitive_header key = one_of (to_lower u key) (
      codes "authorization"
      ∷ codes "proxy-authorization"
      ∷ codes "x-api-key"
      ∷ codes "api-key"
      ∷ codes "cookie"
      ∷ codes "set-cookie"
      ∷ [])

  unfoldable pub redact_header_values_for_log : Bytes → List Bytes → List Bytes
  redact_header_values_for_log key vs =
      if not (sensitive_header key) then vs else map (λ _. codes "<redacted>") vs
