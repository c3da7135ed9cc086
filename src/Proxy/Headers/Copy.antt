-- ===== src/Proxy/Headers/Copy.antt =====
-- Which values a copied header has.
use cachy.Base.{
  false, true, ◌++◌, append_assoc, append-nil, if◌then◌else◌, ◌≡◌, refl, ◌∙◌, Bool, List, [], ◌∷◌,
  arith, All, Bool-cases, inl, inr,
}
use cachy.Text.{equal, equal_iff, Bytes}
use cachy.Proxy.Headers.{
  equal, values, Header, canonical_key, add_at, add, add_all, copy_headers_with_policy,
}

values-add_at :
    (j k v : Bytes) (h : Header)
    → values j (add_at k v h) ≡ (if equal k j then values j h ++ v ∷ [] else values j h)
unfolding values add_at
values-add_at j k v [] = ground arith
values-add_at j k v ((i, vs) ∷ h) =
    ground (arith, values-add_at j k v h, equal_iff i k, equal_iff i j, equal_iff k j)

-- All the values that a header lists under a key, in order.
abbrev collect : Bytes → Header → List Bytes
collect j [] = []
collect j ((k, vs) ∷ h) = (if equal k j then vs else []) ++ collect j h

if-append :
    (b : Bool) (xs : List Bytes) (v : Bytes) (vs : List Bytes)
    → (if b then (if b then xs ++ v ∷ [] else xs) ++ vs else (if b then xs ++ v ∷ [] else xs))
      ≡ (if b then xs ++ v ∷ vs else xs)
if-append true xs v vs = append_assoc xs (v ∷ []) vs
if-append false xs v vs = refl

values-add_all :
    (j k : Bytes) (vs : List Bytes) (h : Header)
    → canonical_key k ≡ k
    → values j (add_all k vs h) ≡ (if equal k j then values j h ++ vs else values j h)
unfolding add_all add
values-add_all j k [] h canon = ground (arith, append-nil (values j h))
values-add_all j k (v ∷ vs) h canon =
    values-add_all j k vs (add_at (canonical_key k) v h) canon
    ∙ rw (canon, values-add_at j k v h) (if-append (equal k j) (values j h) v vs)

-- Where the keys of the source are canonical, a key that passes the test keeps its values and gets
-- those of the source, in order; any other keeps its values and gets none.
values-copy :
    (include : Bytes → Bool) (j : Bytes) (dst src : Header)
    → All (λ e. canonical_key e.0 ≡ e.0) src
    → values j (copy_headers_with_policy include dst src)
      ≡ values j dst ++ (if include j then collect j src else [])
unfolding copy_headers_with_policy
values-copy include j dst [] canon = ground (arith, append-nil (values j dst))
values-copy include j dst ((k, vs) ∷ src) canon = elim (Bool-cases (include k)) [
  | inl ok ↦ rw ok (
      values-copy include j (add_all k vs dst) src canon.1
      ∙ rw (values-add_all j k vs dst canon.0) (
          ground (
            arith,
            ok,
            equal_iff k j,
            append_assoc (values j dst) vs (collect j src),
            append_assoc (values j dst) vs [],
          )))
  | inr out ↦ rw out (values-copy include j dst src canon.1 ∙ ground (arith, out, equal_iff k j))
]
