-- ===== src/Resources/Grant/Names.antt =====
-- The name of a reference grant, pkg/reconciler/ingress/resources/reference_grant.go.
use Prim.Native.Nat.{compare, Ordering}
use Prim.Native.Char.{Char, len_utf8}
use Prim.Native.String.{len, slice, fits}
use Prim.Native.String.len as len_clauses
use Prim.Native.String.slice as slice_clauses
use text.Mathlib.TextPositions.{len-append}
use net_gateway_api.Base.{
  ℕ, ◌+◌, ◌-◌, ◌≤◌, ◌<◌, String, ◌<>◌, ◌≡◌, refl, ok, panic, arith, ltb, ◌⊎◌, [], ◌∷◌, some, inl,
  inr, Bool-cases,
}
use net_gateway_api.Model.Ingress.{Ingress}
use net_gateway_api.Model.Gateway.{ReferenceGrant}
use net_gateway_api.Resources.Constants.{Kmeta}
use net_gateway_api.Resources.Grant.{
  truncate, grant_name, PartialObjectMetadata, make_reference_grant,
}

len-fits_at :
    (o : Ordering) (c : Char) (t : String) (b : ℕ)
    → compare (len_utf8 c) b ≡ o
    → len t ≤ b - len_utf8 c
    → len (fits o c t) ≤ b
len-fits_at Ordering.lt c t b e h = rw len_clauses.cons (ground arith)
len-fits_at Ordering.eq c t b e h = rw len_clauses.cons (ground arith)
len-fits_at Ordering.gt c t b e h = rw len_clauses.nil (omega arith)

len-fits :
    (c : Char) (t : String) (b : ℕ)
    → len t ≤ b - len_utf8 c
    → len (fits (compare (len_utf8 c) b) c t) ≤ b
len-fits c t b h = len-fits_at (compare (len_utf8 c) b) c t b refl h

len-slice-le : (s : String) (b : ℕ) → len (slice s 0 b) ≤ b
len-slice-le String.[] b = rw (slice_clauses.nil, len_clauses.nil) (omega arith)
len-slice-le (String.◌∷◌ c s) b =
    rw slice_clauses.cons-zero
      (len-fits c (slice s 0 (b - len_utf8 c)) b (len-slice-le s (b - len_utf8 c)))

-- Where the namespace of the Gateway has at most 62 bytes, every name gives a grant name of at most
-- 63 bytes; it is the whole name with a dash and the namespace where that fits.
grant_name-len :
    (name namespace : String)
    → len namespace ≤ 62
    → (g : String) × (grant_name name namespace ≡ ok g) × (len g ≤ 63)
unfolding grant_name truncate
grant_name-len name namespace h = elim (Bool-cases (ltb 62 (len name + len namespace))) [
  | inl long ↦ (
    slice name 0 (62 - len namespace) <> "-" <> namespace,
    ground arith,
    omega (
      arith,
      len-append (slice name 0 (62 - len namespace)) ("-" <> namespace),
      len-append "-" namespace,
      len-slice-le name (62 - len namespace),
    ),
  )
  | inr short ↦ (
    name <> "-" <> namespace,
    ground arith,
    ground (arith, len-append name ("-" <> namespace), len-append "-" namespace),
  )
]

grant_name-panic :
    (name namespace : String)
    → 62 < len namespace
    → grant_name name namespace ≡ panic "slice bounds out of range"
unfolding grant_name truncate
grant_name-panic name namespace h = ground arith

-- `MakeReferenceGrant` returns exactly where the namespace of the Gateway has at most 62 bytes: then
-- the grant is in the namespace of its target and its name has at most 63 bytes, whatever the
-- target's name is. For a longer namespace, of the 63 bytes that Kubernetes permits, it panics.
pub make_reference_grant-fits :
    (K : Kmeta) (ing : Ingress) (to from : PartialObjectMetadata)
    → ((g : ReferenceGrant) × ((make_reference_grant K ing to from ≡ ok g)
          × ((len from.namespace ≤ 62) × ((g.namespace ≡ to.namespace) × (len g.name ≤ 63)))))
      ⊎ ((62 < len from.namespace)
          × (make_reference_grant K ing to from ≡ panic "slice bounds out of range"))
unfolding make_reference_grant
make_reference_grant-fits K ing to from = elim (Bool-cases (ltb 62 (len from.namespace))) [
  | inl long ↦ inr (ground arith, rw (grant_name-panic to.name from.namespace (ground arith)) refl)
  | inr short ↦
      let fits_ : len from.namespace ≤ 62 = ground arith in
      let (name, e, l) = grant_name-len to.name from.namespace fits_ in
      let g : ReferenceGrant = record {
        name = name;
        namespace = to.namespace;
        labels = to.labels;
        annotations = to.annotations;
        owner_references = K.new_controller_ref ing ∷ [];
        spec = record {
          from = record { group = from.group; kind = from.kind; namespace = from.namespace } ∷ [];
          to = record { group = to.group; kind = to.kind; name = some to.name } ∷ [];
        };
      } in
      inl (g, (rw e refl, (fits_, (refl, l))))
]
