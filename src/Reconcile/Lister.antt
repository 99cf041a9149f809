-- ===== src/Reconcile/Lister.antt =====
-- pkg/reconciler/ingress/lister.go: the pods and URLs to probe for the backends of a route.
pub mod Targets
pub mod Pods
use net_gateway_api.Base.{
  ℕ, ◌+◌, String, ◌<>◌, Bool, true, false, ◌&&◌, ◌||◌, Option, none, some, List, [], ◌∷◌, ◌++◌, map,
  any, length, ◌==◌, if◌then◌else◌, Error, failed, wrapped, Result, ok, err, panic, ◌>>=◌,
}
use net_gateway_api.Base.Text.{◌=s◌}
use net_gateway_api.Config.{Gateway, GatewayPlugin}
use net_gateway_api.Model.Names.{NamespacedName}
use net_gateway_api.Model.Gateway.{GatewayObject, GatewayAddress}
use net_gateway_api.Model.Ingress.{external_ip, redirected}
use net_gateway_api.Reconcile.World.{Lookup, found, missing, failure}
use net_gateway_api.Resources.Make.{gateway_for}
use net_gateway_api.Status.Types.{Url, UrlSet, ProbeTarget, Backends}

pub record EndpointPort : Type 0 where
  pub name : String
  -- the decimal text of `Port`, which `strconv.Itoa` gives
  pub port : String
  pub app_protocol : Option String

pub record EndpointSubset : Type 0 where
  pub addresses : List String
  pub ports : List EndpointPort

-- `gatewayPodTargetLister`: its two listers and the configuration of the context.
pub record PodTargetLister : Type 0 where
  pub endpoints : String → String → Result (List EndpointSubset)
  pub gateways : String → String → Lookup GatewayObject
  pub plugin : GatewayPlugin

abbrev has : List String → String → Bool
has names n = any (λ m. m =s n) names

-- The scheme and the names of its port.
unfoldable pub scheme_of : String → String → String × List String
unfolding ◌=s◌
scheme_of visibility http_option =
    if visibility =s external_ip && http_option =s redirected
    then ("https", "https" ∷ "https-443" ∷ [])
    else ("http", "http" ∷ "http2" ∷ "http-80" ∷ [])

protocol_matches : List String → Option String → Bool
unfolding ◌=s◌
protocol_matches schemes none = false
protocol_matches schemes (some p) = has schemes p

-- The loop over the ports: an exact name ends it, and the last matching protocol counts otherwise.
unfoldable pub select_port : List String → List EndpointPort → String → String
unfolding ◌=s◌ protocol_matches
select_port schemes [] chosen = chosen
select_port schemes (p ∷ ps) chosen =
    let rest =
      select_port schemes ps (if protocol_matches schemes p.app_protocol then p.port else chosen) in
    if has schemes p.name then p.port else rest

-- `sets.Set.Insert` for each address.
unfoldable pub insert_ips : List String → List String → List String
unfolding ◌=s◌
insert_ips [] ips = ips
insert_ips (a ∷ rest) ips = insert_ips rest (if has ips a then ips else a ∷ ips)

-- The loop over `urls`, each with the scheme.
abbrev schemed : String → UrlSet → List Url
schemed scheme = map {A = Url} (λ u. record u { scheme = scheme })

-- The target of one subset; it has no ports at all only by a fault.
unfoldable pub subset_target : String → List String → UrlSet → EndpointSubset → Result ProbeTarget
unfolding select_port insert_ips
subset_target scheme schemes urls sub = elim sub.ports [
  | [] ↦ panic "index out of range [0]"
  | p ∷ ps ↦ ok (record {
    pod_ips = insert_ips sub.addresses [];
    pod_port = select_port schemes (p ∷ ps) p.port;
    urls = schemed scheme urls;
  })
]

abbrev is_empty {ℓ} : {A : Type ℓ} → List A → Bool
is_empty [] = true
is_empty (x ∷ xs) = false

-- `if len(pt.URLs) > 0`: the target counts.
abbrev add_target : ProbeTarget → List ProbeTarget → List ProbeTarget
add_target t ts = if is_empty t.urls then ts else t ∷ ts

unfoldable pub subset_targets :
    String → List String → UrlSet → List EndpointSubset → Result (List ProbeTarget)
unfolding subset_target
subset_targets scheme schemes urls [] = ok []
subset_targets scheme schemes urls (sub ∷ subs) = do
  t ← subset_target scheme schemes urls sub
  ts ← subset_targets scheme schemes urls subs
  ok (add_target t ts)

-- The branch of a Gateway with a service.
unfoldable pub service_targets :
    PodTargetLister → NamespacedName → String × List String → UrlSet → Result (List ProbeTarget)
unfolding subset_targets
service_targets L service (scheme, schemes) urls =
    elim (L.endpoints service.namespace service.name) [
      | err e ↦ err (wrapped "failed to get endpoints" e)
      | panic m ↦ panic m
      | ok subs ↦ subset_targets scheme schemes urls subs
    ]

-- The branch of a Gateway without one: its first address, on port 80 or 443.
unfoldable pub gateway_targets :
    PodTargetLister → NamespacedName → String × List String → UrlSet → Result (List ProbeTarget)
unfolding ◌=s◌
gateway_targets L name (scheme, schemes) urls = elim (L.gateways name.namespace name.name) [
  | missing ↦ err (failed "Gateway does not exist")
  | failure e ↦ err e
  | found gw ↦ elim gw.addresses [
    | [] ↦ err (failed "no addresses available in status of Gateway")
    | a ∷ rest ↦ ok (
        add_target
          (record {
            pod_ips = a.value ∷ [];
            pod_port = if scheme =s "https" then "443" else "80";
            urls = schemed scheme urls;
          })
          [])
  ]
]

-- The body of the loop over `backends.URLs`.
unfoldable pub visibility_targets :
    PodTargetLister → String → String → UrlSet → Result (List ProbeTarget)
unfolding gateway_for scheme_of service_targets gateway_targets
visibility_targets L http_option visibility urls = do
  gw ← gateway_for L.plugin visibility
  elim gw.service [
    | some service ↦ service_targets L service (scheme_of visibility http_option) urls
    | none ↦ gateway_targets L gw.namespaced_name (scheme_of visibility http_option) urls
  ]

unfoldable pub all_targets :
    PodTargetLister → String → List (String × UrlSet) → Result (List ProbeTarget)
unfolding visibility_targets
all_targets L http_option [] = ok []
all_targets L http_option ((visibility, urls) ∷ rest) = do
  ts ← visibility_targets L http_option visibility urls
  us ← all_targets L http_option rest
  ok (ts ++ us)

-- `foundTargets`
unfoldable pub count_ips : List ProbeTarget → ℕ
count_ips [] = 0
count_ips (t ∷ ts) = length t.pod_ips + count_ips ts

-- `BackendsToProbeTargets`
unfoldable pub backends_to_probe_targets : PodTargetLister → Backends → Result (List ProbeTarget)
unfolding all_targets count_ips
backends_to_probe_targets L b = do
  ts ← all_targets L b.http_option b.urls
  if count_ips ts == 0 then err (failed "no gateway pods available") else ok ts
