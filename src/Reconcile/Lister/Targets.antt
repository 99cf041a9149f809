-- ===== src/Reconcile/Lister/Targets.antt =====
-- The targets that `BackendsToProbeTargets` of pkg/reconciler/ingress/lister.go gives.
use mathlib.Core.Path.{subst}
use net_gateway_api.Base.{
  Error, failed, if◌then◌else◌, String, ◌≡◌, ◌≢◌, refl, false, List, [], ◌∷◌, ◌++◌, All, All-append,
  arith, ◌==◌, ok, err, >>=-Yields, >>=-Yields_any, Yields, Yields-ok, inl, inr, Bool-cases,
  Option-cases, Result-cases,
}
use net_gateway_api.Base.Text.{◌=s◌}
use net_gateway_api.Model.Names.{NamespacedName}
use net_gateway_api.Model.Ingress.{Ingress, IngressRule, redirected}
use net_gateway_api.Model.Gateway.{HttpRoute, GatewayObject, GatewayAddress}
use net_gateway_api.Reconcile.World.{Lookup, found, missing, failure}
use net_gateway_api.Resources.Make.{gateway_for}
use net_gateway_api.Status.Types.{UrlSet, ProbeTarget, Backends}
use net_gateway_api.Reconcile.Backends.{probe_targets}
use net_gateway_api.Reconcile.Backends.Requests.{
  IsPlainRequest, visibility_of, probe_targets-Yields,
}
use net_gateway_api.Reconcile.Lister.{
  EndpointPort, EndpointSubset, PodTargetLister, scheme_of, schemed, is_empty, add_target,
  subset_target, subset_targets, service_targets, gateway_targets, visibility_targets, all_targets,
  count_ips, backends_to_probe_targets,
}

-- A target has URLs, and all have the scheme.
abbrev pub HasScheme : String → ProbeTarget → Type 0
HasScheme scheme t = (is_empty t.urls ≡ false) × All (λ u. u.scheme ≡ scheme) t.urls

abbrev addresses_of : Lookup GatewayObject → List GatewayAddress
addresses_of missing = []
addresses_of (failure x) = []
addresses_of (found gw) = gw.addresses

schemed-All : (scheme : String) (urls : UrlSet) → All (λ u. u.scheme ≡ scheme) (schemed scheme urls)
schemed-All scheme [] = tt
schemed-All scheme (u ∷ urls) = (refl, schemed-All scheme urls)

add_target-All :
    (scheme : String) (t : ProbeTarget) (ts : List ProbeTarget)
    → All (λ u. u.scheme ≡ scheme) t.urls
    → All (HasScheme scheme) ts
    → All (HasScheme scheme) (add_target t ts)
add_target-All scheme t ts h hs = elim (Bool-cases (is_empty t.urls)) [
  | inl e ↦ rw e hs
  | inr e ↦ rw e ((e, h), hs)
]

subset_target-Yields :
    (scheme : String) (schemes : List String) (urls : UrlSet) (sub : EndpointSubset)
    (ports : List EndpointPort)
    → sub.ports ≡ ports
    → Yields (λ t. All (λ u. u.scheme ≡ scheme) t.urls) (subset_target scheme schemes urls sub)
unfolding subset_target
subset_target-Yields scheme schemes urls sub [] e = rw (e, subset_target) tt
subset_target-Yields scheme schemes urls sub (p ∷ ps) e =
    rw (e, subset_target) (schemed-All scheme urls)

subset_targets-Yields :
    (scheme : String) (schemes : List String) (urls : UrlSet) (subs : List EndpointSubset)
    → Yields (All (HasScheme scheme)) (subset_targets scheme schemes urls subs)
unfolding subset_targets
subset_targets-Yields scheme schemes urls [] = tt
subset_targets-Yields scheme schemes urls (sub ∷ subs) =
    >>=-Yields (λ t. All (λ u. u.scheme ≡ scheme) t.urls) (All (HasScheme scheme))
      (subset_target scheme schemes urls sub) _
      (subset_target-Yields scheme schemes urls sub sub.ports refl)
      (λ t h.
        >>=-Yields (All (HasScheme scheme)) (All (HasScheme scheme))
          (subset_targets scheme schemes urls subs) (λ ts. ok (add_target t ts))
          (subset_targets-Yields scheme schemes urls subs)
          (λ ts hs. add_target-All scheme t ts h hs))

service_targets-Yields :
    (L : PodTargetLister) (name : NamespacedName) (scheme : String) (schemes : List String)
    (urls : UrlSet)
    → Yields (All (HasScheme scheme)) (service_targets L name (scheme, schemes) urls)
unfolding service_targets
service_targets-Yields L name scheme schemes urls =
    elim (Result-cases (L.endpoints name.namespace name.name)) [
      | inl (subs, e) ↦ rw (e, service_targets) (subset_targets-Yields scheme schemes urls subs)
      | inr (inl (x, e)) ↦ rw (e, service_targets) tt
      | inr (inr (x, e)) ↦ rw (e, service_targets) tt
    ]

addresses-Yields :
    (L : PodTargetLister) (name : NamespacedName) (scheme : String) (schemes : List String)
    (urls : UrlSet) (o : Lookup GatewayObject) (rest : List GatewayAddress)
    → L.gateways name.namespace name.name ≡ o
    → addresses_of o ≡ rest
    → Yields (All (HasScheme scheme)) (gateway_targets L name (scheme, schemes) urls)
unfolding gateway_targets
addresses-Yields L name scheme schemes urls missing rest e f = rw (e, gateway_targets) tt
addresses-Yields L name scheme schemes urls (failure x) rest e f = rw (e, gateway_targets) tt
addresses-Yields L name scheme schemes urls (found gw) [] e f = rw (e, gateway_targets, f) tt
addresses-Yields L name scheme schemes urls (found gw) (a ∷ rest) e f =
    rw (e, gateway_targets, f) (add_target-All scheme _ [] (schemed-All scheme urls) tt)

-- The scheme, where the option is not to redirect.
scheme_of-http :
    (visibility option : String)
    → (option =s redirected) ≡ false
    → (scheme_of visibility option).0 ≡ "http"
unfolding scheme_of
scheme_of-http visibility option h = ground (arith, h)

visibility_targets-Yields :
    (L : PodTargetLister) (option visibility : String) (urls : UrlSet)
    → Yields
        (All (HasScheme (scheme_of visibility option).0))
        (visibility_targets L option visibility urls)
unfolding visibility_targets
visibility_targets-Yields L option visibility urls =
    >>=-Yields_any _ (gateway_for L.plugin visibility) _ λ gw. elim (Option-cases gw.service) [
      | inl e ↦ rw e (
          addresses-Yields L gw.namespaced_name (scheme_of visibility option).0
            (scheme_of visibility option).1 urls
            (L.gateways gw.namespaced_name.namespace gw.namespaced_name.name) _ refl refl)
      | inr (s, e) ↦ rw e (
          service_targets-Yields L s (scheme_of visibility option).0 (scheme_of visibility option).1
            urls)
    ]

all_targets-Yields :
    (L : PodTargetLister) (option : String) (urls : List (String × UrlSet))
    → (option =s redirected) ≡ false
    → Yields (All (HasScheme "http")) (all_targets L option urls)
unfolding all_targets
all_targets-Yields L option [] h = tt
all_targets-Yields L option ((visibility, urls) ∷ rest) h =
    >>=-Yields (All (HasScheme "http")) (All (HasScheme "http"))
      (visibility_targets L option visibility urls) _
      (subst (λ s. Yields (All (HasScheme s)) (visibility_targets L option visibility urls))
        (scheme_of-http visibility option h) (visibility_targets-Yields L option visibility urls))
      (λ ts hs.
        >>=-Yields (All (HasScheme "http")) (All (HasScheme "http")) (all_targets L option rest)
          (λ us. ok (ts ++ us)) (all_targets-Yields L option rest h)
          (λ us ks. All-append (HasScheme "http") ts us hs ks))

enough-Yields :
    (P : List ProbeTarget → Type 0) (ts : List ProbeTarget) (e : Error)
    → P ts
    → Yields (λ us. (count_ips us ≢ 0) × P us) (if count_ips ts == 0 then err e else ok ts)
enough-Yields P ts e h = elim (Bool-cases (count_ips ts == 0)) [
  | inl z ↦ rw z tt
  | inr z ↦ rw z (λ k. absurd (ground (arith, z, k)), h)
]

backends_to_probe_targets-Yields :
    (L : PodTargetLister) (b : Backends)
    → (b.http_option =s redirected) ≡ false
    → Yields (λ ts. (count_ips ts ≢ 0) × All (HasScheme "http") ts) (backends_to_probe_targets L b)
unfolding backends_to_probe_targets
backends_to_probe_targets-Yields L b h =
    >>=-Yields (All (HasScheme "http")) (λ ts. (count_ips ts ≢ 0) × All (HasScheme "http") ts)
      (all_targets L b.http_option b.urls) _ (all_targets-Yields L b.http_option b.urls h)
      (λ ts. enough-Yields (All (HasScheme "http")) ts (failed "no gateway pods available"))

-- The targets that `BackendsToProbeTargets` gives for the backends of `probeTargets`, whatever the
-- Ingress asks for: some target has an address to probe, each target has URLs, and all of them are
-- of the scheme "http".
pub backends_to_probe_targets-HasScheme :
    (L : PodTargetLister) (hash : String) (ing : Ingress) (rule : IngressRule) (r : HttpRoute)
    (b : Backends) (ts : List ProbeTarget)
    → probe_targets hash ing rule r ≡ ok b
    → backends_to_probe_targets L b ≡ ok ts
    → (count_ips ts ≢ 0) × All (HasScheme "http") ts
unfolding ◌=s◌
backends_to_probe_targets-HasScheme L hash ing rule r b ts h k =
    let requested =
      Yields-ok (IsPlainRequest (visibility_of rule)) (probe_targets-Yields hash ing rule r) h in
    Yields-ok (λ ts. (count_ips ts ≢ 0) × All (HasScheme "http") ts)
      (backends_to_probe_targets-Yields L b (rw requested.0 refl)) k
