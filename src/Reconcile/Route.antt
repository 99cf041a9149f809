-- ===== src/Reconcile/Route.antt =====
-- `reconcileHTTPRoute` and `reconcileHTTPRouteUpdate` of
-- pkg/reconciler/ingress/reconcile_resources.go.
pub mod Phases
pub mod Rollout
pub mod Effects
pub mod Probable
pub mod Progress
pub mod Round
pub mod Rounds
pub mod Probed
use net_gateway_api.Base.{
  String, ◌<>◌, Bool, true, false, ◌&&◌, not, List, [], ◌∷◌, if◌then◌else◌, Result, ok,
  ◌>>=◌ as bind,
}
use net_gateway_api.Base.Text.{◌=s◌, has_prefix, trim_prefix}
use net_gateway_api.Config.{GatewayPlugin}
use net_gateway_api.Model.Names.{NamespacedName, StringMap, deep_equal}
use net_gateway_api.Model.Gateway.{
  HttpBackendRef, HttpRoute, HttpRouteSpec-discrete, StringMap-discrete,
}
use net_gateway_api.Model.Ingress.{IngressBackendSplit, IngressRule, Ingress}
use net_gateway_api.Resources.Constants.{Kmeta}
use net_gateway_api.Resources.Host.{longest_host}
use net_gateway_api.Resources.Probes.{
  update_probe_hash, remove_endpoint_probes, add_endpoint_probe, add_old_backend,
}
use net_gateway_api.Resources.Make.{make_http_route}
use net_gateway_api.Reconcile.Backends.{probe_targets, compute_backends}
use net_gateway_api.Reconcile.World.{
  Env, World, Act, ◌>>=◌, ◌>>◌, return, fail, lift, record_event, get, call, normal, Lookup, found,
  missing, failure,
}
use net_gateway_api.Status.Types.{Backends, ProbeState, Manager}

abbrev pub endpoint_prefix : String
endpoint_prefix = "ep-"

abbrev pub transition_prefix : String
transition_prefix = "tr-"

-- The branches of `reconcileHTTPRouteUpdate`.
pub data Phase : Type 0 where
  -- the new backends are probed through the final rules
  finish : Phase
  -- the new backends answer: traffic moves, and the old ones are kept beside them
  transition : Phase
  -- the probes of this hash are not ready
  wait : Phase
  -- the Ingress has new backends: they are probed before traffic moves
  endpoints : Phase
  -- the Ingress changed and has the same backends
  replace : Phase

-- `probeHash`
unfoldable pub probe_hash : ProbeState → String
unfolding trim_prefix
probe_hash probe = trim_prefix (trim_prefix probe.version endpoint_prefix) transition_prefix

unfoldable pub has_new : List IngressBackendSplit → Bool
has_new [] = false
has_new (split ∷ splits) = true

-- The conditions of the branches, in order.
unfoldable pub phase_of : String → ProbeState → List IngressBackendSplit → Phase
unfolding probe_hash has_prefix ◌=s◌ has_new
phase_of hash probe new =
    let same = probe_hash probe =s hash in
    if has_prefix probe.version transition_prefix && same && probe.ready
    then finish
    else if has_prefix probe.version endpoint_prefix && same && probe.ready
    then transition
    else if same
    then wait
    else if has_new new
    then endpoints
    else replace

-- The loops that add a probe for each new and for each old backend.
unfoldable pub add_endpoint_probes : String → List IngressBackendSplit → HttpRoute → HttpRoute
unfolding add_endpoint_probe
add_endpoint_probes hash [] r = r
add_endpoint_probes hash (b ∷ bs) r = add_endpoint_probes hash bs (add_endpoint_probe r hash b)

unfoldable pub add_old_backends : String → List HttpBackendRef → HttpRoute → HttpRoute
unfolding add_old_backend
add_old_backends hash [] r = r
add_old_backends hash (b ∷ bs) r = add_old_backends hash bs (add_old_backend r hash b)

abbrev pub add_probes :
    String → List IngressBackendSplit → List HttpBackendRef → HttpRoute → HttpRoute
add_probes hash new old r = add_old_backends hash old (add_endpoint_probes hash new r)

-- What a branch wants: the version to probe, the desired route, and the route that stays where
-- nothing changes, from which the transition has removed the endpoint probes in place.
pub record Desired : Type 0 where
  pub hash : String
  pub route : HttpRoute
  pub current : HttpRoute

module _ (K : Kmeta) (plugin : GatewayPlugin) where
  -- The bodies of the branches; `none` in `wait`.
  unfoldable pub desired_of : Phase → String → Ingress → IngressRule → HttpRoute → Result Desired
  unfolding make_http_route update_probe_hash remove_endpoint_probes compute_backends
      add_endpoint_probes add_old_backends
  desired_of finish hash ing rule r =
      bind (make_http_route K plugin ing rule)
        λ made. ok (record { hash = hash; route = made; current = r })
  desired_of transition hash ing rule r = bind (make_http_route K plugin ing rule) λ made.
      let h = transition_prefix <> hash in
      let (new, old) = compute_backends r rule in
      ok (record {
        hash = h;
        route = add_probes h new old (update_probe_hash made h);
        current = remove_endpoint_probes r;
      })
  desired_of wait hash ing rule r = ok (record { hash = hash; route = r; current = r })
  desired_of endpoints hash ing rule r =
      let h = endpoint_prefix <> hash in
      let (new, old) = compute_backends r rule in
      ok (record {
        hash = h;
        route = add_probes h new old (remove_endpoint_probes (update_probe_hash r h));
        current = r;
      })
  desired_of replace hash ing rule r =
      bind (make_http_route K plugin ing rule)
        λ made. ok (record { hash = hash; route = made; current = r })

-- The three comparisons.
unfoldable pub same_route : HttpRoute → HttpRoute → Bool
unfolding HttpRouteSpec-discrete StringMap-discrete
same_route original desired =
    deep_equal HttpRouteSpec-discrete original.spec desired.spec
    && deep_equal StringMap-discrete original.annotations desired.annotations
    && deep_equal StringMap-discrete original.labels desired.labels

-- The object that is sent: the original with what is desired.
unfoldable pub merged : HttpRoute → HttpRoute → HttpRoute
merged original desired = record original {
  labels = desired.labels;
  annotations = desired.annotations;
  spec = desired.spec;
}

module _ (E : Env) where
  abbrev pub ActE : Type 0 → Type 0
  ActE = Act E.cluster.State E.manager.State

  -- The end of `reconcileHTTPRouteUpdate`: an update where something differs.
  unfoldable pub apply_desired :
      Ingress → IngressRule → HttpRoute → Desired → ActE (HttpRoute × Backends)
  unfolding same_route merged probe_targets
  apply_desired ing rule original d =
      if same_route original d.route
      then (lift (probe_targets d.hash ing rule d.current) >>= λ targets.
          return (d.current, targets))
      else (call (E.cluster.update_route (merged original d.route)) "UpdateFailed"
            "failed to update HTTPRoute"
          >>= λ updated.
              lift (probe_targets d.hash ing rule updated) >>= λ targets. return (updated, targets))

  -- The branch of a phase. One that waits probes the version that it found, and changes nothing.
  unfoldable pub run_phase :
      Phase → ProbeState → String → Ingress → IngressRule → HttpRoute → ActE (HttpRoute × Backends)
  unfolding desired_of apply_desired probe_targets
  run_phase wait probe hash ing rule r =
      lift (probe_targets probe.version ing rule r) >>= λ targets. return (r, targets)
  run_phase other probe hash ing rule r =
      lift (desired_of E.kmeta E.plugin other hash ing rule r) >>= λ d. apply_desired ing rule r d

  -- `reconcileHTTPRouteUpdate`
  unfoldable pub reconcile_http_route_update :
      String → Ingress → IngressRule → HttpRoute → ActE (HttpRoute × Backends)
  unfolding phase_of compute_backends run_phase
  reconcile_http_route_update hash ing rule r w =
      let key : NamespacedName = record { namespace = r.namespace; name = r.name } in
      let probe = (E.manager.is_probe_active key w.prober).0 in
      run_phase (phase_of hash probe (compute_backends r rule).0) probe hash ing rule r w

  -- The branch of `reconcileHTTPRoute` for a route that does not exist.
  unfoldable pub create_http_route : String → Ingress → IngressRule → ActE (HttpRoute × Backends)
  unfolding make_http_route probe_targets
  create_http_route hash ing rule = do
    desired ← lift (make_http_route E.kmeta E.plugin ing rule)
    created ← call (E.cluster.create_route desired) "CreationFailed" "failed to create HTTPRoute"
    record_event (normal "Created")
    targets ← lift (probe_targets hash ing rule created)
    return (created, targets)

  -- `reconcileHTTPRoute`. The hosts of the rule are sorted by the first call of `LongestHost`.
  unfoldable pub reconcile_http_route : String → Ingress → IngressRule → ActE (HttpRoute × Backends)
  unfolding longest_host create_http_route reconcile_http_route_update
  reconcile_http_route hash ing rule = do
    (host, sorted) ← lift (longest_host rule.hosts)
    route ← get (E.cluster.get_route ing.namespace host)
    let rule' : IngressRule = record rule { hosts = sorted }
    elim route [
      | missing ↦ create_http_route hash ing rule'
      | failure e ↦ fail e
      | found r ↦ reconcile_http_route_update hash ing rule' r
    ]
