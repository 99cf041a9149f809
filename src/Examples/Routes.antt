-- ===== src/Examples/Routes.antt =====
-- The theorems on routes, headers and names, at concrete objects.
use mathlib.Core.List.{Permᴰ}
use mathlib.Core.List.Permᴰ
use Prim.Native.String.{len}
use net_gateway_api.Base.{map, ◌++◌}
use net_gateway_api.Base.{
  ◌⊎◌, ◌<◌, String, ◌≡◌, refl, List, [], ◌∷◌, keep, All, last?, ok, panic, true, false, ◌≤◌, some,
  none,
}
use net_gateway_api.Base.Sort.{Ascending}
use net_gateway_api.Base.Text.{◌≤s◌, ◌=s◌, =s-apart, has_prefix}
use net_gateway_api.Model.Gateway.{HttpRoute, HttpRouteRule, ReferenceGrant}
use net_gateway_api.Model.Ingress.{HttpIngressPath}
use net_gateway_api.Resources.Host.{longest_host}
use net_gateway_api.Resources.Host.Greatest.{longest_host-greatest}
use net_gateway_api.Resources.Make.{path_rule, make_http_route}
use net_gateway_api.Resources.Make.Rules.{target_of, wanted_target}
use net_gateway_api.Resources.Make.Rules.{path_rule-eq_of_permᴰ, make_http_route-HasOneMatch}
use net_gateway_api.Resources.Grant.{PartialObjectMetadata, make_reference_grant}
use net_gateway_api.Resources.Grant.Names.{make_reference_grant-fits}
use net_gateway_api.Resources.Probes.{
  with_rules, remove_endpoint_probes, add_endpoint_probe, add_old_backend, is_endpoint_match,
}
use net_gateway_api.Resources.Probes.Removal.{
  HasOneMatch, is_traffic, remove_endpoint_probes-eq-keep, remove_endpoint_probes-add,
  remove_endpoint_probes_copies,
}
use net_gateway_api.Examples.Objects.{
  kmeta, plugin, gateway, split, path, rule, ingress, match_of, backend, route_rule, route,
}

longest_host-greatest_example :
    (host : String) × (sorted : List String) × (longest_host ("b" ∷ "c" ∷ "a" ∷ [])
      ≡ ok (host, sorted))
    × Permᴰ sorted ("b" ∷ "c" ∷ "a" ∷ [])
    × Ascending ◌≤s◌ sorted
    × (last? sorted ≡ some host)
    × All (λ g. (g ≤s host) ≡ true) sorted
longest_host-greatest_example = longest_host-greatest "b" ("c" ∷ "a" ∷ [])

-- The path with its headers met in the other order.
abbrev turned : HttpIngressPath
turned = record path { headers = ("Y", "2") ∷ ("X", "1") ∷ [] }

path_rule-eq_of_permᴰ_example : path_rule gateway path ≡ path_rule gateway turned
unfolding ◌=s◌
path_rule-eq_of_permᴰ_example =
    path_rule-eq_of_permᴰ gateway path turned refl refl (Permᴰ.swap refl refl)
      ((=s-apart "X" "Y" refl, tt), (tt, tt)) tt
      ((refl, Permᴰ.refl (split "new").append_headers, ((=s-apart "A" "B" refl, tt), (tt, tt))), tt)

abbrev made : HttpRoute
made = record {
  name = "b.example";
  namespace = "ns";
  labels = ("networking.knative.dev/visibility", "") ∷ [];
  annotations = [];
  owner_references = kmeta.new_controller_ref ingress ∷ [];
  spec = record {
    parent_refs =
        record {
          group = some "gateway.networking.k8s.io";
          kind = some "Gateway";
          namespace = some "ns";
          name = "gw";
        }
        ∷ [];
    hostnames = "a.example" ∷ "b.example" ∷ [];
    rules = path_rule gateway path ∷ [];
  };
  parents = none;
}

make_http_route-HasOneMatch_example :
    All HasOneMatch (path_rule gateway path ∷ [])
    × (map target_of (path_rule gateway path ∷ []) ≡ wanted_target path ∷ [])
unfolding make_http_route
make_http_route-HasOneMatch_example =
    make_http_route-HasOneMatch kmeta plugin ingress rule {r = made} refl

abbrev metadata : String → PartialObjectMetadata
metadata namespace = record {
  kind = "Secret";
  group = "";
  name = "cert";
  namespace = namespace;
  labels = [];
  annotations = [];
}

-- 63 bytes.
abbrev long_namespace : String
long_namespace = "namespace-namespace-namespace-namespace-namespace-namespace-abc"

make_reference_grant-fits_example :
    ((g : ReferenceGrant) × ((make_reference_grant kmeta ingress
            (metadata "certs")
            (metadata long_namespace)
          ≡ ok g)
        × ((len long_namespace ≤ 62) × ((g.namespace ≡ "certs") × (len g.name ≤ 63)))))
    ⊎ ((62 < len long_namespace)
        × (make_reference_grant kmeta ingress (metadata "certs") (metadata long_namespace)
            ≡ panic "slice bounds out of range"))
make_reference_grant-fits_example =
    make_reference_grant-fits kmeta ingress (metadata "certs") (metadata long_namespace)

remove_endpoint_probes-eq-keep_example :
    remove_endpoint_probes route ≡ with_rules route (keep is_traffic route.spec.rules)
remove_endpoint_probes-eq-keep_example =
    remove_endpoint_probes-eq-keep route (refl, (refl, (refl, tt)))

remove_endpoint_probes-add_example :
    (remove_endpoint_probes (add_endpoint_probe route "h" (split "new"))
      ≡ remove_endpoint_probes route)
    × (remove_endpoint_probes (add_old_backend route "h" (backend "old"))
        ≡ remove_endpoint_probes route)
remove_endpoint_probes-add_example =
    remove_endpoint_probes-add route "h" (split "new") (backend "old")

-- A rule with two matches is doubled.
abbrev two : HttpRouteRule
two = route_rule (match_of "/a" false ∷ match_of "/b" false ∷ [])

remove_endpoint_probes_copies_example :
    (remove_endpoint_probes (with_rules route (route.spec.rules ++ two ∷ two ∷ []))).spec.rules
    ≡ (remove_endpoint_probes (with_rules route route.spec.rules)).spec.rules
      ++ (two ∷ two ∷ (remove_endpoint_probes (with_rules route (two ∷ []))).spec.rules)
unfolding is_endpoint_match has_prefix
remove_endpoint_probes_copies_example =
    remove_endpoint_probes_copies route route.spec.rules (two ∷ []) two
