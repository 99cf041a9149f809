-- ===== src/Examples/Objects.antt =====
-- Objects on which the theorems are run.
use net_gateway_api.Base.{
  String, Bool, true, false, not, none, some, List, [], ◌∷◌, ◌++◌, any, keep, Result, ok,
}
use net_gateway_api.Base.Text.{◌=s◌}
use net_gateway_api.Config.{Gateway, GatewayPlugin, Parsers}
use net_gateway_api.Model.Names.{NamespacedName}
use net_gateway_api.Model.Gateway.{
  HttpRouteMatch, HttpBackendRef, HttpRouteRule, HttpRoute, Listener, ReferenceGrant,
}
use net_gateway_api.Model.Ingress.{
  IngressBackendSplit, HttpIngressPath, IngressRule, IngressTls, Ingress,
}
use net_gateway_api.Reconcile.World.{Cluster, Env, World, found, missing}
use net_gateway_api.Status.Types.{ProbeTarget, Backends}
use net_gateway_api.Status.Prober.{Prober, new_prober}
use net_gateway_api.Status.Events.{manager}
use net_gateway_api.Resources.Constants.{Kmeta, hash_key, exact, path_prefix}
use net_gateway_api.Resources.Probes.{hash_filter}

abbrev pub kmeta : Kmeta
kmeta = record {
  union_maps = λ a b. a ++ b;
  filter_map = λ m drops. keep (λ (k, v). not (drops k)) m;
  new_controller_ref = λ ing. record { uid = ing.uid; controller = some ing.name };
  is_controlled_by = λ owners ing. any (λ o. o.uid =s ing.uid) owners;
}

abbrev pub name_of : String → NamespacedName
name_of n = record { namespace = "ns"; name = n }

abbrev pub gateway : Gateway
gateway = record {
  namespaced_name = name_of "gw";
  class = "istio";
  service = none;
  supported_features = [];
}

abbrev pub plugin : GatewayPlugin
plugin = record { external_gateways = gateway ∷ []; local_gateways = gateway ∷ [] }

abbrev pub split : String → IngressBackendSplit
split name = record {
  service_namespace = "ns";
  service_name = name;
  service_port = 80;
  percent = 100;
  append_headers = ("A", "1") ∷ ("B", "2") ∷ [];
}

abbrev pub path : HttpIngressPath
path = record {
  path = "/";
  rewrite_host = "";
  headers = ("X", "1") ∷ ("Y", "2") ∷ [];
  splits = split "new" ∷ [];
  append_headers = none;
}

abbrev pub rule : IngressRule
rule = record { hosts = "a.example" ∷ "b.example" ∷ []; visibility = ""; paths = path ∷ [] }

abbrev pub ingress : Ingress
ingress = record {
  name = "ing";
  namespace = "ns";
  uid = "1";
  labels = [];
  annotations = [];
  http_option = "Redirected";
  tls = [];
  rules = rule ∷ [];
}

-- A match under a path, on the header of the probes or on none.
abbrev pub match_of : String → Bool → HttpRouteMatch
match_of p true = record {
  path = some (record { type = some path_prefix; value = some p });
  headers = record { type = some exact; name = hash_key; value = "override" } ∷ [];
}
match_of p false = record {
  path = some (record { type = some path_prefix; value = some p });
  headers = [];
}

abbrev pub backend : String → HttpBackendRef
backend name = record {
  group = some "";
  kind = some "Service";
  name = name;
  namespace = none;
  port = some 80;
  weight = some 100;
  filters = [];
}

abbrev pub route_rule : List HttpRouteMatch → HttpRouteRule
route_rule matches = record {
  matches = matches;
  filters = hash_filter "old" ∷ [];
  backend_refs = backend "old" ∷ [];
  timeouts = none;
}

abbrev pub route_of : List HttpRouteRule → HttpRoute
route_of rules = record {
  name = "b.example";
  namespace = "ns";
  labels = [];
  annotations = [];
  owner_references = [];
  spec = record { parent_refs = []; hostnames = "a.example" ∷ "b.example" ∷ []; rules = rules };
  parents = none;
}

-- A rule for traffic, one for its probe, and one for the probe of a revision.
abbrev pub route : HttpRoute
route = route_of (
    route_rule (match_of "/" false ∷ [])
    ∷ route_rule (match_of "/" true ∷ [])
    ∷ route_rule (match_of "/.well-known/knative/revision/ns/old" true ∷ [])
    ∷ [])

abbrev pub listener : String → String → Listener
listener name host = record {
  name = name;
  hostname = some host;
  port = 443;
  protocol = "HTTPS";
  tls_mode = none;
  certificate_refs = [];
  from = none;
  match_labels = [];
}

abbrev pub parsers : Parsers
parsers = record {
  unmarshal = λ text.
      ok (record { gateway = text; service = none; class = "istio"; supported_features = [] } ∷ []);
  as_namespaced_name = λ key text. ok (name_of text);
}

abbrev pub tls : IngressTls
tls = record {
  hosts = "a.example" ∷ "b.example" ∷ [];
  secret_name = "cert";
  secret_namespace = "certs";
}

abbrev pub foreign_grant : ReferenceGrant
foreign_grant = record {
  name = "cert-ns";
  namespace = "certs";
  labels = [];
  annotations = [];
  owner_references = record { uid = "2"; controller = none } ∷ [];
  spec = record { from = []; to = [] };
}

abbrev pub target : ProbeTarget
target = record {
  pod_ips = "10.0.0.1" ∷ "10.0.0.2" ∷ [];
  pod_port = "80";
  urls = record { scheme = "http"; host = "a.example"; path = "/" } ∷ [];
}

abbrev pub list_targets : Backends → Result (List ProbeTarget)
list_targets b = ok (target ∷ [])

-- A cluster that holds one route and one grant, and no Gateway.
abbrev pub cluster : Cluster
cluster = record {
  State = HttpRoute;
  get_route = λ namespace name s. found s;
  create_route = λ r s. (r, ok r);
  update_route = λ r s. (r, ok r);
  get_grant = λ namespace name s. found foreign_grant;
  create_grant = λ g s. (s, ok g);
  update_grant = λ g s. (s, ok g);
  get_gateway = λ namespace name s. missing;
  update_gateway = λ g s. (s, ok g);
}

abbrev pub env : Env
env = record {
  cluster = cluster;
  manager = manager list_targets;
  kmeta = kmeta;
  plugin = plugin;
  set_defaults = λ ing. ing;
  insert_probe = λ ing. ok ("new", ing);
  ingress_tls_for_visibility = λ ing visibility. ing.tls;
  service_hostname = λ name namespace. name;
}

abbrev pub world : World HttpRoute Prober
world = record { cluster = route; prober = new_prober; events = []; marks = [] }
