-- ===== src/Reconcile/Ingress.antt =====
-- pkg/reconciler/ingress/ingress.go: the reconciler of one Ingress.
pub mod Status
pub mod Silent
pub mod Ready
pub mod Settled
use net_gateway_api.Base.{
  ℕ, String, ◌<>◌, Bool, true, false, ◌&&◌, not, Option, none, some, List, [], ◌∷◌, ◌++◌, map, all,
  if◌then◌else◌, Error, gateway_not_found, failed, wrapped, Result, ok, err, panic,
}
use net_gateway_api.Base.Text.{◌=s◌, ◌≤s◌}
use net_gateway_api.Base.Sort.{sort}
use net_gateway_api.Config.{Gateway, external_gateway, local_gateway}
use net_gateway_api.Model.Names.{NamespacedName}
use net_gateway_api.Model.Gateway.{
  Condition, RouteParentStatus, HttpRoute, Listener, GatewayObject, GatewayAddress,
}
use net_gateway_api.Model.Ingress.{Ingress, IngressRule, IngressTls, external_ip}
use net_gateway_api.Status.Types.{Backends, ProbeState, Manager}
use net_gateway_api.Reconcile.World.{
  Env, World, ◌>>=◌, ◌>>◌, return, fail, lift, mark, get, Lookup, found, missing, failure, Mark,
  initialize_conditions, network_configured, ingress_not_ready, load_balancer_ready,
  load_balancer_not_ready, load_balancer_failed, LoadBalancerIngressStatus, ip, domain_internal,
}
use net_gateway_api.Reconcile.Route.{ActE, reconcile_http_route}
use net_gateway_api.Reconcile.Listeners.{reconcile_gateway_listeners, clear_gateway_listeners}
use net_gateway_api.Reconcile.Tls.{reconcile_tls}

-- `isGatewayAdmitted`: the first condition of type Accepted decides.
unfoldable pub admitted : List Condition → Bool
unfolding ◌=s◌
admitted [] = false
admitted (c ∷ cs) = if c.type =s "Accepted" then c.status =s "True" else admitted cs

unfoldable pub is_gateway_admitted : RouteParentStatus → Bool
unfolding admitted
is_gateway_admitted gw = admitted gw.conditions

-- `isHTTPRouteReady`
unfoldable pub is_http_route_ready : HttpRoute → Bool
unfolding is_gateway_admitted
is_http_route_ready r = elim r.parents [
  | none ↦ false
  | some parents ↦ all is_gateway_admitted parents
]

-- `errors.Is(err, ErrGatewayNotFound)`
unfoldable pub is_gateway_not_found : Error → Bool
is_gateway_not_found gateway_not_found = true
is_gateway_not_found (failed m) = false
is_gateway_not_found (wrapped m e) = is_gateway_not_found e

-- The address of a Gateway: its first one, by its type.
unfoldable pub gateway_address : GatewayObject → Result (List LoadBalancerIngressStatus)
unfolding ◌=s◌
gateway_address gw = elim gw.addresses [
  | [] ↦ err (failed "no address found in status of Gateway")
  | a ∷ rest ↦ elim a.type [
    | none ↦ panic "invalid memory address or nil pointer dereference"
    | some type ↦ ok ((if type =s "IPAddress" then ip a.value else domain_internal a.value) ∷ [])
  ]
]

sort_rule : IngressRule → IngressRule
unfolding sort ◌≤s◌
sort_rule rule = record rule { hosts = sort ◌≤s◌ rule.hosts }

-- The calls of `LongestHost` have sorted the hosts of each rule in place.
unfoldable pub sort_hosts : Ingress → Ingress
unfolding sort_rule
sort_hosts ing = record ing { rules = map sort_rule ing.rules }

module _ (E : Env) where
  -- `collectLBIngressStatus`
  unfoldable pub collect_lb_ingress_status : Gateway → ActE E (List LoadBalancerIngressStatus)
  unfolding gateway_address
  collect_lb_ingress_status gwc = elim gwc.service [
    | some service ↦
        return (domain_internal (E.service_hostname service.name service.namespace) ∷ [])
    | none ↦
        (get (E.cluster.get_gateway gwc.namespaced_name.namespace gwc.namespaced_name.name)
          >>= λ gateway. elim gateway [
            | missing ↦
                (mark (load_balancer_failed "GatewayDoesNotExist" "could not find Gateway")
                  >> fail (wrapped "error getting Gateway" gateway_not_found))
            | failure e ↦ fail (wrapped "failed to get Gateway" e)
            | found gw ↦ lift (gateway_address gw)
          ])
  ]

  -- `lookUpLoadBalancers`
  unfoldable pub look_up_load_balancers :
      ActE E (List LoadBalancerIngressStatus × List LoadBalancerIngressStatus)
  unfolding collect_lb_ingress_status external_gateway local_gateway
  look_up_load_balancers = do
    external ← lift (external_gateway E.plugin)
    external_statuses ← collect_lb_ingress_status external
    local ← lift (local_gateway E.plugin)
    internal_statuses ← collect_lb_ingress_status local
    return (external_statuses, internal_statuses)

  -- `c.statusManager.DoProbes`, at the time `now`.
  unfoldable pub do_probes : ℕ → Backends → ActE E ProbeState
  do_probes now b w =
      let (p, r) = E.manager.do_probes now b w.prober in
      elim r [
        | ok state ↦ (record w { prober = p }, ok state)
        | err e ↦ (record w { prober = p }, err (wrapped "failed to probe Ingress" e))
        | panic m ↦ (record w { prober = p }, panic m)
      ]

  -- The body of the loop over the rules; it gives whether the rule's route is ready.
  unfoldable pub reconcile_rule : ℕ → String → Ingress → IngressRule → ActE E Bool
  unfolding reconcile_http_route is_http_route_ready do_probes
  reconcile_rule now hash ing rule = do
    (route, targets) ← reconcile_http_route E hash ing rule
    if is_http_route_ready route
        then (mark network_configured >> do_probes now targets >>= λ state. return state.ready)
        else (mark (ingress_not_ready "HTTPRouteNotReady" "Waiting for HTTPRoute becomes Ready.")
            >> return false)

  unfoldable pub reconcile_rules : ℕ → String → Ingress → List IngressRule → Bool → ActE E Bool
  unfolding reconcile_rule
  reconcile_rules now hash ing [] ready = return ready
  reconcile_rules now hash ing (rule ∷ rules) ready = do
    rule_ready ← reconcile_rule now hash ing rule
    reconcile_rules now hash ing rules (ready && rule_ready)

  -- The loop over the TLS blocks.
  unfoldable pub reconcile_tls_blocks : Ingress → List IngressTls → ActE E (List Listener)
  unfolding reconcile_tls
  reconcile_tls_blocks ing [] = return []
  reconcile_tls_blocks ing (tls ∷ blocks) = do
    l ← reconcile_tls E tls ing
    ls ← reconcile_tls_blocks ing blocks
    return (l ++ ls)

  -- `if len(listeners) > 0`
  unfoldable pub update_listeners : List Listener → ActE E (Unit {0})
  unfolding reconcile_gateway_listeners external_gateway
  update_listeners [] = return tt
  update_listeners (l ∷ ls) = do
    gw ← lift (external_gateway E.plugin)
    reconcile_gateway_listeners E (l ∷ ls) gw.namespaced_name

  abbrev pub WorldE : Type 0
  WorldE = World E.cluster.State E.manager.State

  -- What the outcome of `lookUpLoadBalancers` leads to. A Gateway that does not exist is no error.
  unfoldable pub with_load_balancers :
      WorldE × Result (List LoadBalancerIngressStatus × List LoadBalancerIngressStatus)
      → WorldE × Result (Unit {0})
  unfolding is_gateway_not_found
  with_load_balancers (w, ok (external, internal)) = mark (load_balancer_ready external internal) w
  with_load_balancers (w, err e) =
      if is_gateway_not_found e then (w, ok tt) else (mark load_balancer_not_ready >> fail e) w
  with_load_balancers (w, panic m) = (w, panic m)

  -- The end: the load balancers where the routes are ready.
  unfoldable pub finish_ingress : Bool → ActE E (Unit {0})
  unfolding look_up_load_balancers with_load_balancers
  finish_ingress false w = mark load_balancer_not_ready w
  finish_ingress true w = with_load_balancers (look_up_load_balancers w)

  unfoldable pub insert_probe : Ingress → Result (String × Ingress)
  insert_probe ing = elim (E.insert_probe (E.set_defaults ing)) [
    | ok p ↦ ok p
    | err e ↦ err (wrapped "failed to add knative probe header" e)
    | panic m ↦ panic m
  ]

  -- `reconcileIngress`
  unfoldable pub reconcile_ingress : ℕ → Ingress → ActE E (Unit {0})
  unfolding insert_probe reconcile_rules sort_hosts reconcile_tls_blocks update_listeners
      finish_ingress
  reconcile_ingress now ing = do
    mark initialize_conditions
    (hash, probed) ← lift (insert_probe ing)
    ready ← reconcile_rules now hash probed probed.rules true
    listeners ←
        reconcile_tls_blocks probed (E.ingress_tls_for_visibility (sort_hosts probed) external_ip)
    update_listeners listeners
    finish_ingress ready

  -- What the outcome of `reconcileIngress` leads to.
  unfoldable pub with_readiness : WorldE × Result (Unit {0}) → WorldE × Result (Unit {0})
  with_readiness (w, ok _) = (w, ok tt)
  with_readiness (w, err e) =
      (mark (ingress_not_ready "ReconcileIngressFailed" "Ingress reconciliation failed") >> fail e)
        w
  with_readiness (w, panic m) = (w, panic m)

  -- `ReconcileKind`
  unfoldable pub reconcile_kind : ℕ → Ingress → ActE E (Unit {0})
  unfolding reconcile_ingress with_readiness
  reconcile_kind now ing w = with_readiness (reconcile_ingress now ing w)

  -- `FinalizeKind`
  unfoldable pub finalize_kind : Ingress → ActE E (Unit {0})
  unfolding clear_gateway_listeners external_gateway
  finalize_kind ing = do
    gw ← lift (external_gateway E.plugin)
    clear_gateway_listeners E ing gw.namespaced_name
