-- ===== src/Reconcile/Backends/Change.antt =====
-- The backends that `computeBackends` of pkg/reconciler/ingress/reconcile_resources.go finds, old
-- and new, against the rules of the route and the paths of the Ingress.
use net_gateway_api.Base.{
  String, ◌≡◌, refl, sym, ap, ◌∙◌, Bool, true, false, not, ◌&&◌, ◌||◌, Option, none, some, List, [],
  ◌∷◌, map, any, keep, concat_map, inl, inr, Bool-cases, Option-cases, any-append, any-map,
  any-same, arith, if◌then◌else◌,
}
use net_gateway_api.Base.Text.{◌=s◌, =s_iff}
use net_gateway_api.Base.Sort.{any-sort}
use net_gateway_api.Model.Names.{
  NamespacedName, NamespacedName-discrete, deep_equal, deep_equal_iff,
}
use net_gateway_api.Model.Gateway.{HttpRoute, HttpRouteRule, HttpBackendRef}
use net_gateway_api.Model.Ingress.{IngressBackendSplit, HttpIngressPath, IngressRule}
use net_gateway_api.Resources.Constants.{hash_key}
use net_gateway_api.Reconcile.Backends.{
  is_probe_rule, backend_name, old_backends, contains, is_probe_path, service_of, new_splits,
  split_not_after, compute_backends,
}

-- A rule that does not look at the probe header, and a path that does not.
abbrev pub serves_traffic : HttpRouteRule → Bool
serves_traffic rule = not (any (λ m. any (λ h. h.name =s hash_key) m.headers) rule.matches)

abbrev pub asks_traffic : HttpIngressPath → Bool
asks_traffic path = not (any (λ (k, _). k =s hash_key) path.headers)

-- The namespace of a reference: the route's, where it has none.
abbrev namespace_of : String → Option String → String
namespace_of own none = own
namespace_of own (some ns) = ns

abbrev pub refers : HttpRoute → IngressBackendSplit → HttpBackendRef → Bool
refers r s ref =
    (namespace_of r.namespace ref.namespace =s s.service_namespace) && (ref.name =s s.service_name)

-- A rule of the route that serves traffic refers to the service of the split.
abbrev pub is_served : HttpRoute → IngressBackendSplit → Bool
is_served r s = any (λ rule. serves_traffic rule && any (refers r s) rule.backend_refs) r.spec.rules

any-keep {ℓ} :
    {A : Type ℓ} (p q : A → Bool) (xs : List A) → any p (keep q xs) ≡ any (λ x. q x && p x) xs
any-keep p q [] = refl
any-keep p q (x ∷ xs) = ground (arith, any-keep p q xs)

old_rules :
    (p : HttpBackendRef → Bool) (rules : List HttpRouteRule)
    → any p (concat_map (λ rule. if is_probe_rule rule then [] else rule.backend_refs) rules)
      ≡ any (λ rule. serves_traffic rule && any p rule.backend_refs) rules
unfolding is_probe_rule
old_rules p [] = refl
old_rules p (rule ∷ rules) = elim (Bool-cases (is_probe_rule rule)) [
  | inl e ↦ rw e (old_rules p rules)
  | inr e ↦ rw e (
      any-append p rule.backend_refs _ ∙ ap (λ b. any p rule.backend_refs || b) (old_rules p rules))
]

any-old_backends :
    (r : HttpRoute) (p : HttpBackendRef → Bool)
    → any p (old_backends r)
      ≡ any (λ rule. serves_traffic rule && any p rule.backend_refs) r.spec.rules
unfolding old_backends
any-old_backends r p = old_rules p r.spec.rules

same_name :
    (a b : NamespacedName)
    → deep_equal NamespacedName-discrete a b ≡ ((a.namespace =s b.namespace) && (a.name =s b.name))
same_name a b =
    let both : a.namespace ≡ b.namespace → a.name ≡ b.name → a ≡ b = λ e f. cc (e, f) in
    let first : a ≡ b → a.namespace ≡ b.namespace = λ e. ap (λ n. n.namespace) e in
    let second : a ≡ b → a.name ≡ b.name = λ e. ap (λ n. n.name) e in
    let (to, of_) = deep_equal_iff NamespacedName-discrete a b in
    elim (Bool-cases (a.namespace =s b.namespace)) [
      | inl e ↦ elim (Bool-cases (a.name =s b.name)) [
        | inl f ↦
            of_ (both ((=s_iff a.namespace b.namespace).0 e) ((=s_iff a.name b.name).0 f))
            ∙ sym (rw (e, f) refl)
        | inr f ↦ elim (Bool-cases (deep_equal NamespacedName-discrete a b)) [
          | inr g ↦ g ∙ sym (rw (e, f) refl)
          | inl g ↦ absurd (apart f ((=s_iff a.name b.name).1 (second (to g))))
        ]
      ]
      | inr e ↦ elim (Bool-cases (deep_equal NamespacedName-discrete a b)) [
        | inr g ↦ g ∙ sym (rw e refl)
        | inl g ↦ absurd (apart e ((=s_iff a.namespace b.namespace).1 (first (to g))))
      ]
    ]
  where
    apart : {t : Bool} → t ≡ false → t ≡ true → ⊥
    apart e f = cc

named-refers :
    (r : HttpRoute) (s : IngressBackendSplit) (ref : HttpBackendRef)
    → deep_equal NamespacedName-discrete (backend_name r ref) (service_of s) ≡ refers r s ref
unfolding backend_name
named-refers r s ref = elim (Option-cases ref.namespace) [
  | inl e ↦ rw e (same_name _ (service_of s))
  | inr (n, e) ↦ rw e (same_name _ (service_of s))
]

contains-is_served :
    (r : HttpRoute) (s : IngressBackendSplit)
    → contains (map (backend_name r) (old_backends r)) (service_of s) ≡ is_served r s
contains-is_served r s =
    any-map (λ m. deep_equal NamespacedName-discrete m (service_of s)) (backend_name r)
      (old_backends r)
    ∙ any-same _ (refers r s) (named-refers r s) (old_backends r)
    ∙ any-old_backends r (refers r s)

module _ (r : HttpRoute) (p : IngressBackendSplit → Bool) where
  abbrev names : List NamespacedName
  names = map (backend_name r) (old_backends r)

  abbrev is_new : IngressBackendSplit → Bool
  is_new s = not (is_served r s) && p s

  new_paths :
      (paths : List HttpIngressPath) (rule : IngressRule)
      → any p (new_splits names (record rule { paths = paths }))
        ≡ any (λ path. asks_traffic path && any is_new path.splits) paths
  unfolding new_splits is_probe_path
  new_paths [] rule = refl
  new_paths (path ∷ paths) rule = elim (Bool-cases (is_probe_path path)) [
    | inl e ↦ rw e (new_paths paths rule)
    | inr e ↦ rw e (
        any-append p (keep (λ s. not (contains names (service_of s))) path.splits) _
        ∙ rw
            (any-keep p (λ s. not (contains names (service_of s))) path.splits
              ∙ any-same _ is_new (λ s. ap (λ b. not b && p s) (contains-is_served r s))
                  path.splits)
            (ap (λ b. any is_new path.splits || b) (new_paths paths rule)))
  ]

-- What is true of some new backend of `computeBackends` is true of some split, of a path other than
-- a probe, to whose service no rule of the route other than a probe refers, a reference without a
-- namespace being to that of the route; and the other way round. What is true of some old backend
-- is true of some backend of a rule other than a probe, and the other way round.
pub any-compute_backends :
    (r : HttpRoute) (rule : IngressRule) (p : IngressBackendSplit → Bool)
    (q : HttpBackendRef → Bool)
    → (any p (compute_backends r rule).0
        ≡ any
            (λ path. asks_traffic path && any (λ s. not (is_served r s) && p s) path.splits)
            rule.paths)
      × (any q (compute_backends r rule).1
          ≡ any (λ rule. serves_traffic rule && any q rule.backend_refs) r.spec.rules)
unfolding compute_backends
any-compute_backends r rule p q = (
  any-sort split_not_after p (new_splits (map (backend_name r) (old_backends r)) rule)
      ∙ new_paths r p rule.paths rule,
  any-old_backends r q,
)
