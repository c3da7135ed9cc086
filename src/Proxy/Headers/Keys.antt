-- ===== src/Proxy/Headers/Keys.antt =====
-- Which keys a copied header has.
use cachy.Base.{
  ◌≢◌, ◌||◌, ◌&&◌, false, true, if◌then◌else◌, not, ℕ, ◌≡◌, refl, ◌∙◌, Bool, List, [], ◌∷◌, arith,
  map, all, All, Bool-cases, inl, inr, ◌==◌,
}
use cachy.Text.{codes, equal, equal_iff, Bytes}
use cachy.Text.Ascii.{UnicodeTables, to_lower, is_ascii, lower_byte, upper_byte}
use cachy.Proxy.Headers.{
  one_of, request_transport_header, copy_headers, proxy_provenance_header, equal,
  copy_request_headers, safe_request_header, hop_by_hop_header, Header, canonical_from,
  canonical_key, is_token_byte, add_at, add, add_all, copy_headers_with_policy,
}

-- Every key of the header passes the test.
abbrev pub AllKeys : (Bytes → Bool) → Header → Type 0
AllKeys include = All (λ e. include e.0 ≡ true)

add_at-AllKeys :
    (include : Bytes → Bool) (key value : Bytes) (h : Header)
    → include key ≡ true
    → AllKeys include h
    → AllKeys include (add_at key value h)
unfolding add_at
add_at-AllKeys include key value [] ok hs = (ok, tt)
add_at-AllKeys include key value ((k, vs) ∷ h) ok hs =
    ground (arith, add_at-AllKeys include key value h ok hs.1)

module _ (include : Bytes → Bool)
    (stable : (key : Bytes) → include (canonical_key key) ≡ include key) where
  add_all-AllKeys :
      (key : Bytes) (vs : List Bytes) (dst : Header)
      → include key ≡ true
      → AllKeys include dst
      → AllKeys include (add_all key vs dst)
  unfolding add_all add
  add_all-AllKeys key [] dst ok hs = hs
  add_all-AllKeys key (v ∷ vs) dst ok hs =
      add_all-AllKeys key vs (add_at (canonical_key key) v dst) ok
        (add_at-AllKeys include (canonical_key key) v dst (stable key ∙ ok) hs)

  copy-AllKeys :
      (dst src : Header)
      → AllKeys include dst
      → AllKeys include (copy_headers_with_policy include dst src)
  unfolding copy_headers_with_policy
  copy-AllKeys dst [] hs = hs
  copy-AllKeys dst ((key, vs) ∷ src) hs = elim (Bool-cases (include key)) [
    | inl ok ↦ rw ok (copy-AllKeys (add_all key vs dst) src (add_all-AllKeys key vs dst ok hs))
    | inr out ↦ rw out (copy-AllKeys dst src hs)
  ]

lower-case :
    (c : ℕ) (up : Bool) → lower_byte (if up then upper_byte c else lower_byte c) ≡ lower_byte c
unfolding lower_byte upper_byte
lower-case c up = ground arith

map-lower-canonical_from :
    (key : Bytes) (up : Bool) → map lower_byte (canonical_from up key) ≡ map lower_byte key
unfolding canonical_from
map-lower-canonical_from [] up = refl
map-lower-canonical_from (c ∷ cs) up =
    λ i. lower-case c up i ∷ map-lower-canonical_from cs (c == b'-') i

is_ascii-canonical_from :
    (key : Bytes) (up : Bool) → is_ascii (canonical_from up key) ≡ is_ascii key
unfolding canonical_from is_ascii lower_byte upper_byte
is_ascii-canonical_from [] up = refl
is_ascii-canonical_from (c ∷ cs) up = ground (arith, is_ascii-canonical_from cs (c == b'-'))

token-is_ascii : (key : Bytes) → all is_token_byte key ≡ true → is_ascii key ≡ true
unfolding is_ascii is_token_byte
token-is_ascii [] h = refl
token-is_ascii (c ∷ cs) h = ground (arith, token-is_ascii cs)

-- The canonical form of a key has the same letters in lower case.
to_lower-canonical_key :
    (u : UnicodeTables) (key : Bytes) → to_lower u (canonical_key key) ≡ to_lower u key
unfolding canonical_key to_lower
to_lower-canonical_key u key = elim (Bool-cases (all is_token_byte key)) [
  | inl token ↦ rw token (
      rw (is_ascii-canonical_from key true, token-is_ascii key token)
        (map-lower-canonical_from key true))
  | inr other ↦ rw other
]

safe_request_header-canonical :
    (u : UnicodeTables) (key : Bytes)
    → safe_request_header u (canonical_key key) ≡ safe_request_header u key
unfolding safe_request_header hop_by_hop_header proxy_provenance_header request_transport_header
safe_request_header-canonical u key = rw (to_lower-canonical_key u key)

hop_by_hop_header-canonical :
    (u : UnicodeTables) (key : Bytes)
    → not (hop_by_hop_header u (canonical_key key)) ≡ not (hop_by_hop_header u key)
unfolding hop_by_hop_header
hop_by_hop_header-canonical u key = rw (to_lower-canonical_key u key)

-- The names that are hop-by-hop, that tell of proxies, and that describe the transport.
abbrev pub hop_by_hop_names : List Bytes
hop_by_hop_names =
    codes "connection"
    ∷ codes "keep-alive"
    ∷ codes "proxy-authenticate"
    ∷ codes "proxy-authorization"
    ∷ codes "te"
    ∷ codes "trailer"
    ∷ codes "transfer-encoding"
    ∷ codes "upgrade"
    ∷ []

abbrev pub provenance_names : List Bytes
provenance_names =
    codes "forwarded"
    ∷ codes "via"
    ∷ codes "x-forwarded-for"
    ∷ codes "x-forwarded-host"
    ∷ codes "x-forwarded-proto"
    ∷ codes "x-real-ip"
    ∷ []

-- In lower case, the key is none of the names.
abbrev pub IsNoneOf : UnicodeTables → List Bytes → Bytes → Type 0
IsNoneOf u names key = All (λ name. to_lower u key ≢ name) names

or_false : (a b : Bool) → (a || b) ≡ false → (a ≡ false) × (b ≡ false)
or_false true b h = cc h
or_false false b h = (refl, h)

and_true : (a b : Bool) → (a && b) ≡ true → (a ≡ true) × (b ≡ true)
and_true true b h = (refl, h)
and_true false b h = cc h

negated_false : (a : Bool) → not a ≡ true → a ≡ false
negated_false true h = cc h
negated_false false h = refl

one_of-IsNoneOf :
    (key : Bytes) (names : List Bytes) → one_of key names ≡ false → All (λ name. key ≢ name) names
unfolding one_of
one_of-IsNoneOf key [] h = tt
one_of-IsNoneOf key (name ∷ names) h = (
  (λ e. cc ((equal_iff key name).1 e, (or_false (equal key name) (one_of key names) h).0)),
  one_of-IsNoneOf key names (or_false (equal key name) (one_of key names) h).1,
)

All-implied {ℓ} :
    {A : Type ℓ} (P Q : A → Type 0) (xs : List A) → ((x : A) → P x → Q x) → All P xs → All Q xs
All-implied P Q [] f h = tt
All-implied P Q (x ∷ xs) f (px, h) = (f x px, All-implied P Q xs f h)

hop_by_hop_header-IsNoneOf :
    (u : UnicodeTables) (key : Bytes)
    → not (hop_by_hop_header u key) ≡ true
    → IsNoneOf u hop_by_hop_names key
unfolding hop_by_hop_header
hop_by_hop_header-IsNoneOf u key h =
    one_of-IsNoneOf (to_lower u key) hop_by_hop_names
      (negated_false (one_of (to_lower u key) hop_by_hop_names) h)

safe_request_header-IsNoneOf :
    (u : UnicodeTables) (key : Bytes)
    → safe_request_header u key ≡ true
    → IsNoneOf u hop_by_hop_names key
      × IsNoneOf u provenance_names key
      × IsNoneOf u (codes "content-length" ∷ []) key
unfolding safe_request_header proxy_provenance_header request_transport_header
safe_request_header-IsNoneOf u key h =
    let (hop, others) =
      and_true (not (hop_by_hop_header u key))
        (not (proxy_provenance_header u key) && not (request_transport_header u key)) h in
    let (provenance, transport) =
      and_true (not (proxy_provenance_header u key)) (not (request_transport_header u key))
        others in
    (
      hop_by_hop_header-IsNoneOf u key hop,
      one_of-IsNoneOf (to_lower u key) provenance_names (negated_false _ provenance),
      one_of-IsNoneOf (to_lower u key) (codes "content-length" ∷ []) (negated_false _ transport),
    )

-- Whatever headers the client or the provider sent, no key of the copied request is in lower case one
-- of the hop-by-hop names, of the names that tell of proxies, or `content-length`; and no key of the
-- copied response is one of the hop-by-hop names.
pub copied_keys_safe :
    (u : UnicodeTables) (src : Header)
    → All
        (λ e.
          IsNoneOf u hop_by_hop_names e.0
          × IsNoneOf u provenance_names e.0
          × IsNoneOf u (codes "content-length" ∷ []) e.0)
        (copy_request_headers u [] src)
      × All (λ e. IsNoneOf u hop_by_hop_names e.0) (copy_headers u [] src)
unfolding copy_request_headers copy_headers
copied_keys_safe u src = (
  All-implied _ _ (copy_headers_with_policy (safe_request_header u) [] src)
      (λ e. safe_request_header-IsNoneOf u e.0)
      (copy-AllKeys (safe_request_header u) (safe_request_header-canonical u) [] src tt),
  All-implied _ _ (copy_headers_with_policy (λ key. not (hop_by_hop_header u key)) [] src)
      (λ e. hop_by_hop_header-IsNoneOf u e.0)
      (copy-AllKeys (λ key. not (hop_by_hop_header u key)) (hop_by_hop_header-canonical u) [] src
        tt),
)
