-- ===== src/Reconcile/Route/Rollout.antt =====
-- What the branches of `reconcileHTTPRouteUpdate` send to the cluster.
use net_gateway_api.Base.{
  String, ◌<>◌, ◌≡◌, refl, sym, ap, ◌∙◌, true, List, [], ◌∷◌, ◌++◌, map, any, keep, All, arith, ok,
  ok-injective,
}
use net_gateway_api.Config.{GatewayPlugin}
use net_gateway_api.Model.Gateway.{HttpBackendRef, HttpRouteRule, HttpRoute}
use net_gateway_api.Model.Ingress.{IngressBackendSplit, Ingress, IngressRule}
use net_gateway_api.Resources.Constants.{Kmeta}
use net_gateway_api.Resources.Probes.{
  is_endpoint_match, update_rule, update_probe_hash, remove_endpoint_probes, endpoint_rule,
  add_endpoint_probe, old_backend_rule, add_old_backend, probe_matches,
}
use net_gateway_api.Resources.Probes.Hash.{routing}
use net_gateway_api.Resources.Probes.Removal.{
  HasOneMatch, is_traffic, remove_endpoint_probes-eq-keep, endpoint_path-prefix,
}
use net_gateway_api.Reconcile.Backends.{compute_backends}
use net_gateway_api.Reconcile.Route.{
  endpoints, Desired, desired_of, add_endpoint_probes, add_old_backends, add_probes,
  endpoint_prefix,
}

-- The rules that carry traffic.
abbrev pub traffic : HttpRoute → List HttpRouteRule
traffic r = keep is_traffic r.spec.rules

probe_matches-traffic :
    (namespace name : String) → any is_endpoint_match (probe_matches namespace name) ≡ true
unfolding probe_matches is_endpoint_match
probe_matches-traffic namespace name = rw (endpoint_path-prefix (namespace <> "/" <> name))

-- A rule that carries no traffic makes no difference to the others.
keep-snoc :
    (rules : List HttpRouteRule) (rule : HttpRouteRule)
    → any is_endpoint_match rule.matches ≡ true
    → keep is_traffic (rules ++ rule ∷ []) ≡ keep is_traffic rules
keep-snoc [] rule h = rw h
keep-snoc (r ∷ rules) rule h = ground (arith, keep-snoc rules rule h)

add_endpoint_probes-traffic :
    (hash : String) (new : List IngressBackendSplit) (r : HttpRoute)
    → traffic (add_endpoint_probes hash new r) ≡ traffic r
unfolding add_endpoint_probes add_endpoint_probe endpoint_rule
add_endpoint_probes-traffic hash [] r = refl
add_endpoint_probes-traffic hash (b ∷ bs) r =
    add_endpoint_probes-traffic hash bs (add_endpoint_probe r hash b)
    ∙ keep-snoc r.spec.rules (endpoint_rule hash b)
        (probe_matches-traffic b.service_namespace b.service_name)

add_old_backends-traffic :
    (hash : String) (old : List HttpBackendRef) (r : HttpRoute)
    → traffic (add_old_backends hash old r) ≡ traffic r
unfolding add_old_backends add_old_backend old_backend_rule
add_old_backends-traffic hash [] r = refl
add_old_backends-traffic hash (b ∷ bs) r =
    add_old_backends-traffic hash bs (add_old_backend r hash b)
    ∙ keep-snoc r.spec.rules (old_backend_rule r.namespace hash b)
        (probe_matches-traffic r.namespace b.name)

-- Adding probes leaves the rules that carry traffic as they are.
pub add_probes-traffic :
    (hash : String) (new : List IngressBackendSplit) (old : List HttpBackendRef) (r : HttpRoute)
    → traffic (add_probes hash new old r) ≡ traffic r
add_probes-traffic hash new old r =
    add_old_backends-traffic hash old (add_endpoint_probes hash new r)
    ∙ add_endpoint_probes-traffic hash new r

keep_twice :
    (rules : List HttpRouteRule) → keep is_traffic (keep is_traffic rules) ≡ keep is_traffic rules
keep_twice [] = refl
keep_twice (rule ∷ rules) = ground (arith, keep_twice rules)

update_rule-HasOneMatch :
    (hash : String) (rules : List HttpRouteRule)
    → All HasOneMatch rules
    → All HasOneMatch (map (update_rule hash) rules)
unfolding update_rule
update_rule-HasOneMatch hash [] h = tt
update_rule-HasOneMatch hash (rule ∷ rules) (h, hs) = (h, update_rule-HasOneMatch hash rules hs)

routing_update :
    (hash : String) (rules : List HttpRouteRule)
    → map routing (keep is_traffic (map (update_rule hash) rules))
      ≡ map routing (keep is_traffic rules)
unfolding update_rule
routing_update hash [] = refl
routing_update hash (rule ∷ rules) = ground (arith, routing_update hash rules)

remove-traffic :
    (r : HttpRoute) → All HasOneMatch r.spec.rules → traffic (remove_endpoint_probes r) ≡ traffic r
remove-traffic r h = ap traffic (remove_endpoint_probes-eq-keep r h) ∙ keep_twice r.spec.rules

-- While the new backends are probed, traffic stays where it is: of a route whose rules have one
-- match each, the branch for new endpoints keeps the rules that carry traffic, in order, with
-- their matches, backends and timeouts.
pub desired_of-traffic :
    (K : Kmeta) (plugin : GatewayPlugin) (hash : String) (ing : Ingress) (rule : IngressRule)
    (r : HttpRoute) (d : Desired)
    → All HasOneMatch r.spec.rules
    → desired_of K plugin endpoints hash ing rule r ≡ ok d
    → map routing (traffic d.route) ≡ map routing (traffic r)
unfolding desired_of update_probe_hash
desired_of-traffic K plugin hash ing rule r d h e =
    let u = update_probe_hash r (endpoint_prefix <> hash) in
    ap (λ d. map routing (traffic (Desired.route d))) (sym (ok-injective e))
    ∙ ap (map routing) (
        add_probes-traffic (endpoint_prefix <> hash) (compute_backends r rule).0
          (compute_backends r rule).1 (remove_endpoint_probes u)
        ∙ remove-traffic u (update_rule-HasOneMatch (endpoint_prefix <> hash) r.spec.rules h))
    ∙ routing_update (endpoint_prefix <> hash) r.spec.rules
