-- ===== src/Resources/Make.antt =====
-- The route that a rule of an Ingress asks for: `MakeHTTPRoute` of
-- pkg/reconciler/ingress/resources/httproute.go.
pub mod Rules
use net_gateway_api.Base.{
  String, ◌<>◌, Bool, true, false, ◌||◌, Option, none, some, List, [], ◌∷◌, ◌++◌, map, any,
  if◌then◌else◌, Result, ok, ◌>>=◌, concat_map,
}
use net_gateway_api.Base.Text.{◌=s◌}
use net_gateway_api.Config.{Gateway, GatewayPlugin, external_gateway, local_gateway}
use net_gateway_api.Model.Names.{NamespacedName, StringMap}
use net_gateway_api.Model.Gateway.{
  HttpPathMatch, HttpRouteMatch, HttpRouteFilter, HttpBackendRef, HttpRouteRule, HttpRouteSpec,
  HttpRoute, ParentReference,
}
use net_gateway_api.Model.Ingress.{
  IngressBackendSplit, HttpIngressPath, IngressRule, Ingress, cluster_local,
}
use net_gateway_api.Resources.Constants.{
  Kmeta, url_rewrite, path_prefix, gateway_group, visibility_label_key, last_applied_config,
  request_timeout,
}
use net_gateway_api.Resources.Host.{longest_host}
use net_gateway_api.Resources.Headers.{sort_headers, headers_of, sort_matches, matches_of}
use net_gateway_api.Resources.Probes.{header_filter, int32_bits}

-- `HTTPRouteKey`; the hosts of the rule are sorted in place.
unfoldable pub http_route_key : Ingress → IngressRule → Result NamespacedName
unfolding longest_host
http_route_key ing rule = do
  (host, sorted) ← longest_host rule.hosts
  ok (record { namespace = ing.namespace; name = host })

-- `preFilters` after the test of `path.AppendHeaders`.
append_filter : Option StringMap → List HttpRouteFilter
unfolding sort_headers headers_of
append_filter none = []
append_filter (some m) = header_filter (sort_headers (headers_of m)) ∷ []

rewrite_filter : String → List HttpRouteFilter
unfolding ◌=s◌
rewrite_filter host =
    if host =s ""
    then []
    else record {
      type = url_rewrite;
      request_header_modifier = none;
      url_rewrite = some (record { hostname = some host });
    }
      ∷ []

-- The body of the loop over `path.Splits`.
unfoldable pub split_backend : IngressBackendSplit → HttpBackendRef
unfolding sort_headers headers_of int32_bits
split_backend split = record {
  group = some "";
  kind = some "Service";
  name = split.service_name;
  namespace = none;
  port = some (int32_bits split.service_port);
  weight = some (int32_bits split.percent);
  filters = header_filter (sort_headers (headers_of split.append_headers)) ∷ [];
}

has_feature : Gateway → String → Bool
unfolding ◌=s◌
has_feature gw feature = any (λ f. f =s feature) gw.supported_features

-- The body of the loop over `rule.HTTP.Paths`.
unfoldable pub path_rule : Gateway → HttpIngressPath → HttpRouteRule
unfolding append_filter rewrite_filter split_backend has_feature sort_matches matches_of
path_rule gw path = record {
  matches =
      record {
        path = some (record {
          type = some path_prefix;
          value = some (if path.path =s "" then "/" else path.path);
        });
        headers = sort_matches (matches_of path.headers);
      }
      ∷ [];
  filters = append_filter path.append_headers ++ rewrite_filter path.rewrite_host;
  backend_refs = map split_backend path.splits;
  timeouts = if has_feature gw request_timeout then some "0s" else none;
}

-- `makeHTTPRouteRule`
unfoldable pub make_http_route_rule : Gateway → IngressRule → List HttpRouteRule
unfolding path_rule
make_http_route_rule gw rule = map (path_rule gw) rule.paths

-- The gateway that serves a visibility.
unfoldable pub gateway_for : GatewayPlugin → String → Result Gateway
unfolding ◌=s◌ external_gateway local_gateway
gateway_for plugin visibility =
    if visibility =s cluster_local then local_gateway plugin else external_gateway plugin

-- `makeHTTPRouteSpec`
unfoldable pub make_http_route_spec : GatewayPlugin → IngressRule → Result HttpRouteSpec
unfolding gateway_for make_http_route_rule
make_http_route_spec plugin rule = do
  gw ← gateway_for plugin rule.visibility
  ok (record {
    parent_refs =
        record {
          group = some gateway_group;
          kind = some "Gateway";
          namespace = some gw.namespaced_name.namespace;
          name = gw.namespaced_name.name;
        }
        ∷ [];
    hostnames = rule.hosts;
    rules = make_http_route_rule gw rule;
  })

visibility_label : String → String
unfolding ◌=s◌
visibility_label visibility = if visibility =s cluster_local then "cluster-local" else ""

module _ (K : Kmeta) (plugin : GatewayPlugin) where
  -- `MakeHTTPRoute`: the name is taken first, so the spec is made from the sorted hosts.
  unfoldable pub make_http_route : Ingress → IngressRule → Result HttpRoute
  unfolding longest_host make_http_route_spec visibility_label
  make_http_route ing rule = do
    (host, sorted) ← longest_host rule.hosts
    spec ← make_http_route_spec plugin (record rule { hosts = sorted })
    ok (record {
      name = host;
      namespace = ing.namespace;
      labels =
          K.union_maps ing.labels ((visibility_label_key, visibility_label rule.visibility) ∷ []);
      annotations = K.filter_map ing.annotations (λ key. key =s last_applied_config);
      owner_references = K.new_controller_ref ing ∷ [];
      spec = spec;
      parents = none;
    })
