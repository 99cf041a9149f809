-- ===== src/Examples/Rollouts.antt =====
-- The theorems on the rollout of a route and on its probe targets, at concrete objects.
use net_gateway_api.Base.{
  sym, ◌∙◌, some, arith, String, ◌<>◌, ◌≡◌, ◌≢◌, refl, true, List, [], ◌∷◌, map, All, ok, none,
  if◌then◌else◌,
}
use net_gateway_api.Base.Text.{◌=s◌, has_prefix}
use net_gateway_api.Resources.Probes.Hash.{routing}
use net_gateway_api.Resources.Probes.{update_probe_hash, remove_endpoint_probes}
use net_gateway_api.Reconcile.Backends.{compute_backends, old_backends, probe_targets}
use net_gateway_api.Reconcile.Backends.Change.{
  is_served, asks_traffic, serves_traffic, any-compute_backends,
}
use net_gateway_api.Base.{any, not, ◌&&◌}
use net_gateway_api.Reconcile.Backends.Listed.{listed}
use net_gateway_api.Reconcile.Backends.Urls.{asks, probe_hosts, probe_targets-asks}
use net_gateway_api.Reconcile.Lister.{PodTargetLister, backends_to_probe_targets, count_ips}
use net_gateway_api.Reconcile.Lister.Targets.{HasScheme, backends_to_probe_targets-HasScheme}
use net_gateway_api.Reconcile.Route.{
  endpoints, transition, add_probes, phase_of, Desired, desired_of, reconcile_http_route_update,
}
use net_gateway_api.Reconcile.Route.Effects.{Updates, reconcile_http_route_update-Updates}
use net_gateway_api.Reconcile.Route.Phases.{probing, state, phase_of-stage}
use net_gateway_api.Reconcile.Route.Rollout.{traffic, desired_of-traffic}
use net_gateway_api.Reconcile.World.{found}
use net_gateway_api.Status.Types.{Url, ProbeTarget, Backends}
use net_gateway_api.Config.{Gateway}
use net_gateway_api.Model.Gateway.{HttpRoute, RouteParentStatus}
use net_gateway_api.Reconcile.World.{Env, World}
use net_gateway_api.Reconcile.Quiet.{readies}
use net_gateway_api.Reconcile.Ingress.{insert_probe, reconcile_kind}
use net_gateway_api.Reconcile.Ingress.Ready.{IngressReady, reconcile_kind-IngressReady}
use net_gateway_api.Status.Prober.{Prober, new_prober, is_probe_active, do_probes}
use net_gateway_api.Status.Events.{manager}
use net_gateway_api.Examples.Objects.{
  gateway, name_of, kmeta, plugin, ingress, rule, route, split, env, world,
}

any-compute_backends_example :
    (any (λ s. s.service_name =s "new") (compute_backends route rule).0
      ≡ any
          (λ path.
            asks_traffic path
            && any (λ s. not (is_served route s) && (s.service_name =s "new")) path.splits)
          rule.paths)
    × (any (λ b. b.name =s "old") (compute_backends route rule).1
        ≡ any
            (λ rule. serves_traffic rule && any (λ b. b.name =s "old") rule.backend_refs)
            route.spec.rules)
any-compute_backends_example =
    any-compute_backends route rule (λ s. s.service_name =s "new") (λ b. b.name =s "old")

phase_of-stage_example :
    phase_of "2f" (state ("ep-" <> "1e") true) (split "new" ∷ [])
    ≡ (if "1e" =s "2f" then transition else endpoints)
unfolding has_prefix
phase_of-stage_example = phase_of-stage "2f" "1e" probing true (split "new" ∷ []) (refl, refl)

-- What the branch for new endpoints desires.
abbrev desired : Desired
desired = record {
  hash = "ep-2f";
  route =
      add_probes "ep-2f" (split "new" ∷ []) (old_backends route)
        (remove_endpoint_probes (update_probe_hash route "ep-2f"));
  current = route;
}

desired_of-traffic_example : map routing (traffic desired.route) ≡ map routing (traffic route)
unfolding desired_of compute_backends
desired_of-traffic_example =
    desired_of-traffic kmeta plugin "2f" ingress rule route desired (refl, (refl, (refl, tt))) refl

reconcile_http_route_update-Updates_example :
    Updates env route world (reconcile_http_route_update env "2f" ingress rule route world).0
reconcile_http_route_update-Updates_example =
    reconcile_http_route_update-Updates env "2f" ingress rule route world

-- A Gateway with an address.
abbrev lister : PodTargetLister
lister = record {
  endpoints = λ namespace name. ok [];
  gateways = λ namespace name. found (record {
    name = name;
    namespace = namespace;
    listeners = [];
    addresses = record { type = none; value = "10.0.0.1" } ∷ [];
  });
  plugin = plugin;
}

abbrev urls : String → List Url
urls scheme =
    record { scheme = scheme; host = "b.example"; path = "/.well-known/knative/revision/ns/old" }
    ∷ record { scheme = scheme; host = "a.example"; path = "/.well-known/knative/revision/ns/old" }
    ∷ record { scheme = scheme; host = "b.example"; path = "/" }
    ∷ record { scheme = scheme; host = "a.example"; path = "/" }
    ∷ []

-- The Ingress asks for redirection to HTTPS.
abbrev asked : Backends
asked = record {
  callback_key = record { namespace = "ns"; name = "ing" };
  key = record { namespace = "ns"; name = "b.example" };
  version = "2f";
  urls = ("ExternalIP", urls "") ∷ [];
  http_option = "";
}

probe_targets-asks_example :
    listed "ExternalIP" (record { scheme = ""; host = "a.example"; path = "/" }) asked.urls
    ≡ asks
        (probe_hosts "ExternalIP" route.spec.hostnames)
        (record { scheme = ""; host = "a.example"; path = "/" })
        route.spec.rules
unfolding probe_targets ◌=s◌
probe_targets-asks_example =
    probe_targets-asks "2f" ingress rule route asked
      (record { scheme = ""; host = "a.example"; path = "/" }) refl

abbrev found_target : ProbeTarget
found_target = record { pod_ips = "10.0.0.1" ∷ []; pod_port = "80"; urls = urls "http" }

backends_to_probe_targets-HasScheme_example :
    (count_ips (found_target ∷ []) ≢ 0) × All (HasScheme "http") (found_target ∷ [])
unfolding probe_targets backends_to_probe_targets
backends_to_probe_targets-HasScheme_example =
    backends_to_probe_targets-HasScheme lister "2f" ingress rule route asked (found_target ∷ [])
      refl refl

-- Gateways with a service, and nothing to probe.
abbrev pub served_gateway : Gateway
served_gateway = record gateway { service = some (name_of "svc") }

abbrev pub ready_env : Env
ready_env = record env {
  manager = manager (λ b. ok []);
  plugin = record { external_gateways = served_gateway ∷ []; local_gateways = served_gateway ∷ [] };
}

abbrev pub accepted : RouteParentStatus
accepted = record { conditions = record { type = "Accepted"; status = "True" } ∷ [] }

abbrev pub ready_world : World HttpRoute Prober
ready_world = record world { cluster = record route { parents = some (accepted ∷ []) } }

marked_ready : readies (reconcile_kind ready_env 0 ingress ready_world).0.marks ≡ 1
unfolding reconcile_kind new_prober is_probe_active do_probes
marked_ready = refl

reconcile_kind-IngressReady_example :
    IngressReady ready_env ingress (insert_probe ready_env ingress) 0 ready_world
reconcile_kind-IngressReady_example =
    reconcile_kind-IngressReady ready_env ingress 0 ready_world
      (λ h. omega (arith, sym marked_ready ∙ h))
