-- ===== src/Reconcile/Backends.antt =====
-- `probeTargets` and `computeBackends` of pkg/reconciler/ingress/reconcile_resources.go.
pub mod Change
pub mod Requests
pub mod Paths
pub mod Listed
pub mod Urls
pub mod Listing
use net_gateway_api.Base.{
  String, ◌<>◌, Bool, true, false, ◌&&◌, ◌||◌, not, Option, none, some, List, [], ◌∷◌, ◌++◌, map,
  any, if◌then◌else◌, Result, ok, panic, ◌>>=◌, concat_map, keep,
}
use net_gateway_api.Base.Text.{◌=s◌, ◌≤s◌}
use net_gateway_api.Base.Sort.{sort}
use net_gateway_api.Model.Names.{NamespacedName, NamespacedName-discrete, deep_equal}
use net_gateway_api.Model.Gateway.{
  HttpHeaderMatch, HttpPathMatch, HttpRouteMatch, HttpBackendRef, HttpRouteRule, HttpRoute,
}
use net_gateway_api.Model.Ingress.{
  IngressBackendSplit, HttpIngressPath, IngressRule, Ingress, external_ip, cluster_local,
}
use net_gateway_api.Resources.Constants.{hash_key}
use net_gateway_api.Resources.Host.{longest_host}
use net_gateway_api.Resources.Make.{http_route_key}
use net_gateway_api.Status.Types.{Backends, add_url}

-- `*match.Path.Value`
unfoldable pub path_value : Option HttpPathMatch → Result String
path_value none = panic "invalid memory address or nil pointer dereference"
path_value (some p) = elim p.value [
  | none ↦ panic "invalid memory address or nil pointer dereference"
  | some v ↦ ok v
]

-- The loop over the hostnames.
unfoldable pub add_hosts : String → List String → Option HttpPathMatch → Backends → Result Backends
unfolding path_value add_url
add_hosts visibility [] path b = ok b
add_hosts visibility (host ∷ hosts) path b = do
  value ← path_value path
  add_hosts visibility hosts path
      (add_url b visibility (record { scheme = ""; host = host; path = value }))

-- `host := resources.LongestHost(r.Spec.Hostnames)` and its URL. The hostnames are sorted in
-- place, which changes no later result.
unfoldable pub add_longest :
    String → List String → Option HttpPathMatch → Backends → Result Backends
unfolding path_value add_url longest_host
add_longest visibility hostnames path b = do
  (host, sorted) ← longest_host hostnames
  value ← path_value path
  ok (add_url b visibility (record { scheme = ""; host = host; path = value }))

-- The loop over the header matches of one match; a local probe ends it.
unfoldable pub header_loop :
    String → List String → Option HttpPathMatch → List HttpHeaderMatch → Backends → Result Backends
unfolding ◌=s◌ add_longest add_hosts
header_loop visibility hostnames path [] b = ok b
header_loop visibility hostnames path (h ∷ hs) b =
    let skipped = header_loop visibility hostnames path hs b in
    if not (h.name =s hash_key)
    then skipped
    else if visibility =s cluster_local
    then add_longest visibility hostnames path b
    else add_hosts visibility hostnames path b >>= λ b'. header_loop visibility hostnames path hs b'

unfoldable pub match_loop : String → List String → List HttpRouteMatch → Backends → Result Backends
unfolding header_loop
match_loop visibility hostnames [] b = ok b
match_loop visibility hostnames (m ∷ ms) b = do
  b' ← header_loop visibility hostnames m.path m.headers b
  match_loop visibility hostnames ms b'

unfoldable pub rule_loop : String → List String → List HttpRouteRule → Backends → Result Backends
unfolding match_loop
rule_loop visibility hostnames [] b = ok b
rule_loop visibility hostnames (r ∷ rs) b = do
  b' ← match_loop visibility hostnames r.matches b
  rule_loop visibility hostnames rs b'

-- `probeTargets`
unfoldable pub probe_targets : String → Ingress → IngressRule → HttpRoute → Result Backends
unfolding http_route_key rule_loop ◌=s◌
probe_targets hash ing rule r = do
  key ← http_route_key ing rule
  rule_loop (if rule.visibility =s "" then external_ip else rule.visibility) r.spec.hostnames
      r.spec.rules
      (record {
        callback_key = record { namespace = ing.namespace; name = ing.name };
        key = key;
        version = hash;
        urls = [];
        http_option = "";
      })

-- A rule with a match on the probe header.
unfoldable pub is_probe_rule : HttpRouteRule → Bool
unfolding ◌=s◌
is_probe_rule rule = any (λ m. any (λ h. h.name =s hash_key) m.headers) rule.matches

-- The name of a backend; the namespace is the route's where the reference has none.
unfoldable pub backend_name : HttpRoute → HttpBackendRef → NamespacedName
backend_name route backend = elim backend.namespace [
  | none ↦ record { namespace = route.namespace; name = backend.name }
  | some ns ↦ record { namespace = ns; name = backend.name }
]

-- The backends that the rules other than probes refer to, in order.
unfoldable pub old_backends : HttpRoute → List HttpBackendRef
unfolding is_probe_rule
old_backends route =
    concat_map (λ rule. if is_probe_rule rule then [] else rule.backend_refs) route.spec.rules

abbrev pub contains : List NamespacedName → NamespacedName → Bool
contains names n = any (λ m. deep_equal NamespacedName-discrete m n) names

-- A path with a match on the probe header.
unfoldable pub is_probe_path : HttpIngressPath → Bool
unfolding ◌=s◌
is_probe_path path = any (λ (k, _). k =s hash_key) path.headers

abbrev pub service_of : IngressBackendSplit → NamespacedName
service_of split = record { namespace = split.service_namespace; name = split.service_name }

-- The splits of the paths other than probes that no old backend serves, in order.
unfoldable pub new_splits : List NamespacedName → IngressRule → List IngressBackendSplit
unfolding is_probe_path NamespacedName-discrete
new_splits old_names rule =
    concat_map
      (λ path.
        if is_probe_path path
        then []
        else keep (λ split. not (contains old_names (service_of split))) path.splits)
      rule.paths

-- `slices.SortFunc(newBackends, …)`; splits of one name keep their order.
abbrev pub split_not_after : IngressBackendSplit → IngressBackendSplit → Bool
split_not_after a b = a.service_name ≤s b.service_name

-- `computeBackends`
unfoldable pub compute_backends :
    HttpRoute → IngressRule → List IngressBackendSplit × List HttpBackendRef
unfolding old_backends backend_name new_splits sort ◌≤s◌
compute_backends route rule =
    let old = old_backends route in
    (sort split_not_after (new_splits (map (backend_name route) old) rule), old)
