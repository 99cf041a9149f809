-- ===== src/Examples/Rounds.antt =====
-- The theorems on whole rollouts, at a concrete route and the prober.
use net_gateway_api.Config.{external_gateway, local_gateway}
use net_gateway_api.Reconcile.World.{World, LoadBalancerIngressStatus, domain_internal}
use net_gateway_api.Reconcile.Ingress.{
  insert_probe, sort_hosts, is_http_route_ready, reconcile_kind,
}
use net_gateway_api.Reconcile.Ingress.Settled.{IsSettled, AreSettled, SameAnswers}
use net_gateway_api.Reconcile.Ingress.Settled.Kind.{ready_marks, reconcile_kind-settled}
use net_gateway_api.Reconcile.Ingress.Settled.Probed.{prober_steady}
use net_gateway_api.Reconcile.Ingress.Settled.Rollout.{rolled_out, reconcile_kind-rolled_out}
use net_gateway_api.Base.{any, none}
use net_gateway_api.Model.Ingress.{Ingress, IngressRule}
use net_gateway_api.Resources.Constants.{hash_key}
use net_gateway_api.Resources.Make.{gateway_for}
use net_gateway_api.Resources.Probes.{is_endpoint_match}
use net_gateway_api.Reconcile.World.{Env, missing}
use net_gateway_api.Reconcile.Lister.{PodTargetLister, backends_to_probe_targets}
use net_gateway_api.Reconcile.Lister.Pods.{HasPods}
use net_gateway_api.Reconcile.Backends.{is_probe_rule, is_probe_path}
use net_gateway_api.Reconcile.Backends.Requests.{visibility_of}
use net_gateway_api.Reconcile.Backends.Paths.{is_probed}
use net_gateway_api.Reconcile.Route.Probable.{asks_probe}
use net_gateway_api.Reconcile.Route.Round.{At}
use net_gateway_api.Examples.Objects.{path}
use net_gateway_api.Base.{ℕ, ◌++◌}
use net_gateway_api.Examples.Rollouts.{ready_env, ready_world, served_gateway}
use net_gateway_api.Status.Prober.{Prober, do_probes}
use net_gateway_api.Base.{◌≡◌, refl, false, true, List, [], ◌∷◌, ok, err, panic}
use net_gateway_api.Base.Text.{◌=s◌, has_prefix}
use net_gateway_api.Model.Gateway.{HttpRoute}
use net_gateway_api.Resources.Make.{make_http_route}
use net_gateway_api.Resources.Host.{longest_host}
use net_gateway_api.Reconcile.Backends.{path_value}
use net_gateway_api.Reconcile.Backends.Paths.{IsProbable}
use net_gateway_api.Reconcile.Route.Phases.{final, IsPlain}
use net_gateway_api.Reconcile.Route.Progress.{Accepts}
use net_gateway_api.Reconcile.Route.Round.{Settling}
use net_gateway_api.Reconcile.Route.Rounds.{rounds-Finished, Ends}
use net_gateway_api.Reconcile.Route.Probed.{prober_settling}
use net_gateway_api.Status.Prober.{new_prober, is_probe_active}
use net_gateway_api.Status.Events.{Transport, Event, probes, passes, step, run, manager}
use net_gateway_api.Status.Queue.Settle.{settle}
use net_gateway_api.Status.Queue.Asked.{probes-settle}
use net_gateway_api.Status.Contract.{state}
use net_gateway_api.Status.Types.{Backends}
use net_gateway_api.Examples.Objects.{kmeta, ingress, rule, route, cluster, list_targets, name_of}

-- A pod that serves any version.
abbrev agreeable : Transport
agreeable = record {
  probe = λ item url verify. verify (record { status_code = 200; hash = "" });
  health_check_path = "/healthz";
}

abbrev backends : Backends
backends = record {
  callback_key = name_of "ing";
  key = name_of "b.example";
  version = "v2";
  urls = [];
  http_option = "";
}

-- An older version is probed under the key.
abbrev earlier : List Event
earlier = probes list_targets 0 (record backends { version = "v1" }) ∷ []

probes-settle_example :
    let m = step (probes list_targets 1 backends) (run earlier new_prober) in
    let m' = run (settle agreeable m) m in
    (is_probe_active (name_of "b.example") m' ≡ (state "v2" true, true)) × (m'.shut_down ≡ false)
unfolding run new_prober passes
probes-settle_example =
    probes-settle agreeable (λ item m. refl) earlier list_targets 1 backends refl refl

abbrev accepts : Accepts cluster
accepts = record { update_route = λ r q s e. (r, (refl, refl)) }

-- The Gateways have a service, which has one pod.
abbrev pods_lister : PodTargetLister
pods_lister = record {
  endpoints = λ namespace name. ok (
      record {
        addresses = "10.0.0.1" ∷ [];
        ports = record { name = "http2"; port = "8081"; app_protocol = none } ∷ [];
      }
      ∷ []);
  gateways = λ namespace name. missing;
  plugin = ready_env.plugin;
}

abbrev pods_env : Env
pods_env = record ready_env { manager = manager (backends_to_probe_targets pods_lister) }

-- A rule with a path for traffic and one for its probe.
abbrev probing_rule : IngressRule
probing_rule = record rule {
  paths = path ∷ record path { headers = (hash_key, "override") ∷ [] } ∷ [];
}

abbrev probing : Ingress
probing = record ingress { rules = probing_rule ∷ [] }

has_pods : HasPods pods_lister (visibility_of probing_rule)
unfolding gateway_for external_gateway local_gateway ◌=s◌
has_pods = record {
  gateway = served_gateway;
  service = name_of "svc";
  first = record {
    addresses = "10.0.0.1" ∷ [];
    ports = record { name = "http2"; port = "8081"; app_protocol = none } ∷ [];
  };
  others = [];
  address = "10.0.0.1";
  addresses = [];
  serves = refl;
  serves_by = refl;
  lists = refl;
  reaches = refl;
  ports = ((_, [], refl), tt);
}

settling_pods : Settling pods_env.manager (visibility_of probing_rule)
unfolding passes
settling_pods =
    prober_settling pods_lister (visibility_of probing_rule) has_pods agreeable (λ item m. refl)

-- The route that is made for the rule.
abbrev made : HttpRoute
made = elim (make_http_route kmeta pods_env.plugin probing probing_rule) [
  | ok r ↦ r
  | err e ↦ route
  | panic m ↦ route
]

taken : longest_host rule.hosts ≡ ok ("b.example", "a.example" ∷ "b.example" ∷ [])
unfolding longest_host
taken = refl

is_made : make_http_route kmeta pods_env.plugin probing probing_rule ≡ ok made
unfolding make_http_route
is_made = refl

asks_probes : any asks_probe probing_rule.paths ≡ true
unfolding is_probe_path has_prefix ◌=s◌
asks_probes = refl

probable : IsProbable route.spec
unfolding path_value
probable = (
  "a.example",
  "b.example" ∷ [],
  refl,
  (
    (("/", refl), tt),
    ((("/", refl), tt), ((("/.well-known/knative/revision/ns/old", refl), tt), tt)),
  ),
)

probed_rule : any is_probed route.spec.rules ≡ true
unfolding is_probe_rule is_endpoint_match has_prefix ◌=s◌
probed_rule = refl

plain_new : IsPlain "new"
unfolding has_prefix
plain_new = (refl, refl)

-- The lister has the route, which the Gateways have admitted and for which nothing is probed yet.
started :
    At pods_env accepts probing_rule settling_pods 1 "new" probing "b.example"
      ("a.example" ∷ "b.example" ∷ [])
      taken
      plain_new
      made
      is_made
      asks_probes
      (state "" false)
      ready_world
      ready_world.cluster
unfolding settling_pods run new_prober is_probe_active is_http_route_ready
started = (([], (refl, refl)), (refl, (((refl, (refl, (refl, probable))), probed_rule), refl)))

rounds-Finished_example :
    Ends pods_env accepts probing_rule settling_pods 1 "new" probing "b.example"
      ("a.example" ∷ "b.example" ∷ [])
      taken
      plain_new
      made
      is_made
      asks_probes
      3
      ready_world
unfolding has_prefix ◌=s◌
rounds-Finished_example =
    rounds-Finished pods_env accepts probing_rule settling_pods 1 "new" probing "b.example"
      ("a.example" ∷ "b.example" ∷ []) taken plain_new made is_made asks_probes 0 ready_world
      ready_world.cluster "" final false (refl, refl) refl started

-- The hash of the Ingress is probed, and there is nothing to probe.
abbrev settled_world : World HttpRoute Prober
settled_world = record ready_world {
  prober = (do_probes (λ b. ok []) 0 (record backends { version = "new" }) new_prober).0;
}

abbrev addresses : List LoadBalancerIngressStatus
addresses = domain_internal "svc" ∷ []

rule-IsSettled : IsSettled ready_env "new" ingress rule settled_world
unfolding is_http_route_ready is_probe_active do_probes new_prober
rule-IsSettled = (
  "b.example",
  "a.example" ∷ "b.example" ∷ [],
  settled_world.cluster,
  taken,
  ((refl, (refl, (refl, probable))), (refl, refl)),
)

reconcile_kind-settled_example :
    (w' : World HttpRoute Prober) × ((reconcile_kind ready_env 1 ingress settled_world
        ≡ (w', ok tt))
      × ((w'.marks ≡ ready_marks ready_env ingress addresses addresses)
          × (SameAnswers ready_env "new" ingress settled_world w'
              × AreSettled ready_env "new" ingress (rule ∷ []) w')))
unfolding external_gateway local_gateway insert_probe sort_hosts
reconcile_kind-settled_example =
    reconcile_kind-settled ready_env (prober_steady (λ b. ok [])) 1 "new" ingress ingress
      served_gateway served_gateway addresses addresses settled_world refl plain_new refl refl refl
      refl refl (rule-IsSettled, tt)

abbrev after : ℕ → World HttpRoute Prober → World HttpRoute Prober
after =
    rolled_out pods_env accepts probing_rule settling_pods 1 "new" probing "b.example"
      ("a.example" ∷ "b.example" ∷ []) taken plain_new made is_made asks_probes

reconcile_kind-rolled_out_example :
    (w' : World HttpRoute Prober) × ((reconcile_kind pods_env 1 probing (after 0 ready_world)
        ≡ (w', ok tt))
      × (w'.marks
          ≡ (after 0 ready_world).marks ++ ready_marks pods_env probing addresses addresses))
unfolding external_gateway local_gateway insert_probe sort_hosts has_prefix ◌=s◌
reconcile_kind-rolled_out_example =
    reconcile_kind-rolled_out pods_env accepts probing_rule settling_pods 1 "new" probing
      "b.example" ("a.example" ∷ "b.example" ∷ []) taken plain_new made is_made asks_probes
      (prober_steady (backends_to_probe_targets pods_lister)) 0 probing served_gateway
      served_gateway addresses addresses ready_world ready_world.cluster "" final false (refl, refl)
      refl started refl refl refl refl refl refl refl
