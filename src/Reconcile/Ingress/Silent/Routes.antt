-- ===== src/Reconcile/Ingress/Silent/Routes.antt =====
-- The marks of `reconcileHTTPRoute` in pkg/reconciler/ingress/reconcile_resources.go.
use net_gateway_api.Base.{String, refl, List, [], ◌∷◌, ◌++◌}
use net_gateway_api.Model.Gateway.{HttpRoute}
use net_gateway_api.Model.Ingress.{Ingress, IngressRule}
use net_gateway_api.Status.Types.{ProbeState}
use net_gateway_api.Reconcile.World.{Env, fail, Lookup, found, missing, failure, normal}
use net_gateway_api.Reconcile.Quiet.{lift-Quiet, call-then-Quiet, Quiet, if-Quiet}
use net_gateway_api.Reconcile.Backends.{probe_targets}
use net_gateway_api.Reconcile.Route.{
  Phase, finish, transition, wait, endpoints, replace, Desired, same_route, merged, desired_of,
  apply_desired, run_phase, reconcile_http_route_update, create_http_route, reconcile_http_route,
}
use net_gateway_api.Resources.Make.{make_http_route}
use net_gateway_api.Resources.Host.{longest_host}

module _ (E : Env) where
  apply_desired-Quiet :
      (ing : Ingress) (rule : IngressRule) (r : HttpRoute) (d : Desired)
      → Quiet (apply_desired E ing rule r d)
  unfolding apply_desired
  apply_desired-Quiet ing rule r d =
      if-Quiet (same_route r d.route) _ _
        (lift-Quiet (probe_targets d.hash ing rule d.current) _ (λ ts w. refl))
        (call-then-Quiet (E.cluster.update_route (merged r d.route)) "UpdateFailed"
          "failed to update HTTPRoute" _
          (λ u. lift-Quiet (probe_targets d.hash ing rule u) _ (λ ts w. refl)))

  run_phase-Quiet :
      (p : Phase) (probe : ProbeState) (hash : String) (ing : Ingress) (rule : IngressRule)
      (r : HttpRoute)
      → Quiet (run_phase E p probe hash ing rule r)
  unfolding run_phase
  run_phase-Quiet wait probe hash ing rule r =
      lift-Quiet (probe_targets probe.version ing rule r) _ (λ ts w. refl)
  run_phase-Quiet finish probe hash ing rule r =
      lift-Quiet (desired_of E.kmeta E.plugin finish hash ing rule r) (apply_desired E ing rule r)
        (apply_desired-Quiet ing rule r)
  run_phase-Quiet transition probe hash ing rule r =
      lift-Quiet (desired_of E.kmeta E.plugin transition hash ing rule r)
        (apply_desired E ing rule r) (apply_desired-Quiet ing rule r)
  run_phase-Quiet endpoints probe hash ing rule r =
      lift-Quiet (desired_of E.kmeta E.plugin endpoints hash ing rule r)
        (apply_desired E ing rule r) (apply_desired-Quiet ing rule r)
  run_phase-Quiet replace probe hash ing rule r =
      lift-Quiet (desired_of E.kmeta E.plugin replace hash ing rule r) (apply_desired E ing rule r)
        (apply_desired-Quiet ing rule r)

  update-Quiet :
      (hash : String) (ing : Ingress) (rule : IngressRule) (r : HttpRoute)
      → Quiet (reconcile_http_route_update E hash ing rule r)
  unfolding reconcile_http_route_update
  update-Quiet hash ing rule r w = run_phase-Quiet _ _ hash ing rule r w

  create-Quiet :
      (hash : String) (ing : Ingress) (rule : IngressRule)
      → Quiet (create_http_route E hash ing rule)
  unfolding create_http_route
  create-Quiet hash ing rule = lift-Quiet (make_http_route E.kmeta E.plugin ing rule) _ (λ d.
      call-then-Quiet (E.cluster.create_route d) "CreationFailed" "failed to create HTTPRoute" _
        (λ c w.
          lift-Quiet (probe_targets hash ing rule c) _ (λ ts w. refl)
            (record w { events = w.events ++ (normal "Created" ∷ []) })))

  pub reconcile_http_route-Quiet :
      (hash : String) (ing : Ingress) (rule : IngressRule)
      → Quiet (reconcile_http_route E hash ing rule)
  unfolding reconcile_http_route
  reconcile_http_route-Quiet hash ing rule =
      lift-Quiet (longest_host rule.hosts) _
        (λ (host, sorted) w. by_lookup sorted (E.cluster.get_route ing.namespace host w.cluster) w)
    where
      by_lookup :
          (sorted : List String) (o : Lookup HttpRoute)
          → Quiet (elim o [
            | missing ↦ create_http_route E hash ing (record rule { hosts = sorted })
            | failure e ↦ fail e
            | found r ↦ reconcile_http_route_update E hash ing (record rule { hosts = sorted }) r
          ])
      by_lookup sorted missing = create-Quiet hash ing (record rule { hosts = sorted })
      by_lookup sorted (failure e) = λ w. refl
      by_lookup sorted (found r) = update-Quiet hash ing (record rule { hosts = sorted }) r
