-- ===== src/Resources/Probes.antt =====
-- The probe rules of a route, pkg/reconciler/ingress/resources/httproute.go.
pub mod Hash
pub mod Removal
use Prim.Native.String.{compare}
use text.Mathlib.Text.{is_le}
use net_gateway_api.Base.{
  ℕ, ◌%◌, ◌^◌, String, ◌<>◌, Bool, true, false, ◌&&◌, not, Option, none, some, List, [], ◌∷◌, ◌++◌,
  map, if◌then◌else◌, concat_map,
}
use net_gateway_api.Base.Text.{◌=s◌, ◌≤s◌, has_prefix}
use net_gateway_api.Base.Sort.{sort}
use net_gateway_api.Model.Gateway.{
  HttpHeader, HttpHeaderFilter, HttpRouteMatch, HttpPathMatch, HttpRouteFilter, HttpBackendRef,
  HttpRouteRule, HttpRouteSpec, HttpRoute,
}
use net_gateway_api.Model.Ingress.{IngressBackendSplit}
use net_gateway_api.Resources.Constants.{
  hash_key, hash_value_override, request_header_modifier, path_prefix, exact,
}
use net_gateway_api.Resources.Headers.{sort_headers, headers_of}

-- The rules of a route, replaced.
abbrev pub with_rules : HttpRoute → List HttpRouteRule → HttpRoute
with_rules r rules = record r { spec = record (r.spec) { rules = rules } }

set_hash : String → HttpHeader → HttpHeader
unfolding ◌=s◌
set_hash hash h = if h.name =s hash_key then record h { value = hash } else h

update_modifier : String → Option HttpHeaderFilter → Option HttpHeaderFilter
unfolding set_hash
update_modifier hash none = none
update_modifier hash (some f) = some (record f { set = map (set_hash hash) f.set })

update_filter : String → HttpRouteFilter → HttpRouteFilter
unfolding ◌=s◌ update_modifier
update_filter hash filter =
    if not (filter.type =s request_header_modifier) then filter else record filter {
      request_header_modifier = update_modifier hash filter.request_header_modifier;
    }

unfoldable pub update_rule : String → HttpRouteRule → HttpRouteRule
unfolding update_filter
update_rule hash rule = record rule { filters = map (update_filter hash) rule.filters }

-- `UpdateProbeHash`
unfoldable pub update_probe_hash : HttpRoute → String → HttpRoute
unfolding update_rule
update_probe_hash r hash = with_rules r (map (update_rule hash) r.spec.rules)

abbrev pub endpoint_path : String
endpoint_path = "/.well-known/knative"

path_is_probe : Option HttpPathMatch → Bool
unfolding has_prefix
path_is_probe none = false
path_is_probe (some p) = elim p.value [ none ↦ false | some v ↦ has_prefix v endpoint_path ]

-- The test of a match in `RemoveEndpointProbes`.
unfoldable pub is_endpoint_match : HttpRouteMatch → Bool
unfolding path_is_probe
is_endpoint_match m = path_is_probe m.path

-- The inner loop: the rule is appended once for each match before the first probe match.
pub kept_copies : HttpRouteRule → List HttpRouteMatch → List HttpRouteRule
unfolding is_endpoint_match
kept_copies rule [] = []
kept_copies rule (m ∷ ms) = if is_endpoint_match m then [] else rule ∷ kept_copies rule ms

-- `RemoveEndpointProbes`
unfoldable pub remove_endpoint_probes : HttpRoute → HttpRoute
unfolding kept_copies
remove_endpoint_probes r =
    with_rules r (concat_map (λ rule. kept_copies rule rule.matches) r.spec.rules)

-- The conversion of an `int` to a `PortNumber` or an `int32`, as a bit pattern.
unfoldable pub int32_bits : ℕ → ℕ
int32_bits n = n % 2 ^ 32

-- The matches of a probe rule for the service `name` in `namespace`.
unfoldable pub probe_matches : String → String → List HttpRouteMatch
probe_matches namespace name =
    record {
      path = some (record {
        type = some path_prefix;
        value = some ("/.well-known/knative/revision/" <> namespace <> "/" <> name);
      });
      headers = record { type = some exact; name = hash_key; value = hash_value_override } ∷ [];
    }
    ∷ []

-- A filter that sets headers.
abbrev pub header_filter : List HttpHeader → HttpRouteFilter
header_filter headers = record {
  type = request_header_modifier;
  request_header_modifier = some (record { set = headers });
  url_rewrite = none;
}

abbrev pub hash_filter : String → HttpRouteFilter
hash_filter hash = header_filter (record { name = hash_key; value = hash } ∷ [])

-- `if len(backend.AppendHeaders) > 0`: the filter of the backend reference.
append_filters : List HttpHeader → List HttpRouteFilter
unfolding sort_headers
append_filters [] = []
append_filters (h ∷ hs) = header_filter (sort_headers (h ∷ hs)) ∷ []

-- The rule that `AddEndpointProbe` builds.
unfoldable pub endpoint_rule : String → IngressBackendSplit → HttpRouteRule
unfolding probe_matches int32_bits append_filters headers_of
endpoint_rule hash backend = record {
  matches = probe_matches backend.service_namespace backend.service_name;
  filters = hash_filter hash ∷ [];
  backend_refs =
      record {
        group = some "";
        kind = some "Service";
        name = backend.service_name;
        namespace = none;
        port = some (int32_bits backend.service_port);
        weight = some 100;
        filters = append_filters (headers_of backend.append_headers);
      }
      ∷ [];
  timeouts = none;
}

-- `AddEndpointProbe`
unfoldable pub add_endpoint_probe : HttpRoute → String → IngressBackendSplit → HttpRoute
unfolding endpoint_rule
add_endpoint_probe r hash backend = with_rules r (r.spec.rules ++ (endpoint_rule hash backend ∷ []))

-- Sorting the headers of a filter in place, behind the pointer to the modifier.
sort_filter : HttpRouteFilter → HttpRouteFilter
unfolding sort_headers
sort_filter filter = elim filter.request_header_modifier [
  | none ↦ filter
  | some f ↦ record filter {
    request_header_modifier = some (record f { set = sort_headers f.set });
  }
]

-- The rule that `AddOldBackend` builds; `namespace` is that of the route.
unfoldable pub old_backend_rule : String → String → HttpBackendRef → HttpRouteRule
unfolding sort_filter probe_matches
old_backend_rule namespace hash old = record {
  matches = probe_matches namespace old.name;
  filters = hash_filter hash ∷ [];
  backend_refs = record old { weight = some 100; filters = map sort_filter old.filters } ∷ [];
  timeouts = none;
}

-- `AddOldBackend`
unfoldable pub add_old_backend : HttpRoute → String → HttpBackendRef → HttpRoute
unfolding old_backend_rule
add_old_backend r hash old =
    with_rules r (r.spec.rules ++ (old_backend_rule r.namespace hash old ∷ []))
