-- ===== src/Resources/Probes/Hash.antt =====
-- `UpdateProbeHash` of pkg/reconciler/ingress/resources/httproute.go.
use net_gateway_api.Base.{
  String, ◌≡◌, refl, ap, Bool, true, not, Option, none, some, List, [], ◌∷◌, map, all, ◌||◌, keep,
  if◌then◌else◌,
}
use net_gateway_api.Base.Text.{◌=s◌}
use net_gateway_api.Model.Gateway.{
  HttpHeader, HttpHeaderFilter, HttpRouteFilter, HttpRouteRule, HttpRoute, HttpRouteMatch,
  HttpBackendRef,
}
use net_gateway_api.Resources.Constants.{hash_key, request_header_modifier}
use net_gateway_api.Resources.Probes.{update_rule, update_probe_hash}

-- A header named for the hash has this value.
abbrev pub carries : String → HttpHeader → Bool
carries hash h = not (h.name =s hash_key) || h.value =s hash

abbrev modifier_carries : String → Option HttpHeaderFilter → Bool
modifier_carries hash none = true
modifier_carries hash (some f) = all (carries hash) f.set

-- So it is for what a filter that modifies request headers sets.
abbrev pub filter_carries : String → HttpRouteFilter → Bool
filter_carries hash filter =
    not (filter.type =s request_header_modifier)
    || modifier_carries hash filter.request_header_modifier

abbrev pub rule_carries : String → HttpRouteRule → Bool
rule_carries hash rule = all (filter_carries hash) rule.filters

-- What of a filter is not a header named for the hash: the other headers that it sets, the names of
-- all of them, and a filter of another type as it is.
abbrev others_modifier : Option HttpHeaderFilter → List HttpHeader × List String
others_modifier none = ([], [])
others_modifier (some f) = (keep (λ h. not (h.name =s hash_key)) f.set, map (λ h. h.name) f.set)

abbrev pub others :
    HttpRouteFilter
    → String × (List HttpHeader × List String) × Option HttpRouteFilter × HttpRouteFilter
others filter = (
  filter.type,
  others_modifier filter.request_header_modifier,
  if filter.type =s request_header_modifier then none else some filter,
  record filter { request_header_modifier = none },
)

abbrev pub other_filters :
    HttpRouteRule
    → List (String × (List HttpHeader × List String) × Option HttpRouteFilter × HttpRouteFilter)
other_filters rule = map others rule.filters

-- What a rule is, its filters apart.
abbrev pub routing : HttpRouteRule → List HttpRouteMatch × List HttpBackendRef × Option String
routing rule = (rule.matches, rule.backend_refs, rule.timeouts)

map-routing :
    (hash : String) (rules : List HttpRouteRule)
    → map routing (map (update_rule hash) rules) ≡ map routing rules
unfolding update_rule
map-routing hash [] = refl
map-routing hash (rule ∷ rules) = ap (◌∷◌ (routing rule)) (map-routing hash rules)

-- `UpdateProbeHash` changes filters alone: the rules keep their order, matches, backends and
-- timeouts, and the route all else.
pub update_probe_hash-routing :
    (r : HttpRoute) (hash : String)
    → (map routing (update_probe_hash r hash).spec.rules ≡ map routing r.spec.rules)
      × ((update_probe_hash r hash).spec.hostnames ≡ r.spec.hostnames)
      × ((update_probe_hash r hash).spec.parent_refs ≡ r.spec.parent_refs)
      × ((update_probe_hash r hash).labels ≡ r.labels)
      × ((update_probe_hash r hash).name ≡ r.name)
unfolding update_probe_hash
update_probe_hash-routing r hash = (map-routing hash r.spec.rules, refl, refl, refl, refl)
