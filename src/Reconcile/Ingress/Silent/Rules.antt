-- ===== src/Reconcile/Ingress/Silent/Rules.antt =====
-- The marks of the loop over the rules in pkg/reconciler/ingress/ingress.go.
use net_gateway_api.Base.{
  ℕ, String, ◌≡◌, refl, ◌∙◌, Bool, List, [], ◌∷◌, ◌++◌, ◌&&◌, wrapped, Result, ok, err, panic,
}
use net_gateway_api.Model.Ingress.{Ingress, IngressRule}
use net_gateway_api.Status.Types.{Backends, ProbeState}
use net_gateway_api.Reconcile.World.{Env, ◌>>◌, mark, network_configured, ingress_not_ready}
use net_gateway_api.Reconcile.Quiet.{readies, Quiet, >>=-Quiet, mark-Quiet, if-Quiet}
use net_gateway_api.Reconcile.Route.{reconcile_http_route}
use net_gateway_api.Reconcile.Ingress.{
  is_http_route_ready, do_probes, reconcile_rule, reconcile_rules, WorldE,
}
use net_gateway_api.Reconcile.Ingress.Silent.Routes.{reconcile_http_route-Quiet}

module _ (E : Env) where
  do_probes-Quiet : (now : ℕ) (b : Backends) → Quiet (do_probes E now b)
  unfolding do_probes
  do_probes-Quiet now b w = by_result (E.manager.do_probes now b w.prober)
    where
      by_result :
          (p : E.manager.State × Result ProbeState)
          → readies (
              (let (p, r) = p in
                elim r as (λ r. WorldE E × Result ProbeState) [
                  | ok state ↦ (record w { prober = p }, ok state)
                  | err e ↦ (record w { prober = p }, err (wrapped "failed to probe Ingress" e))
                  | panic m ↦ (record w { prober = p }, panic m)
                ]).0.marks)
            ≡ readies w.marks
      by_result (p, ok state) = refl
      by_result (p, err e) = refl
      by_result (p, panic m) = refl

  reconcile_rule-Quiet :
      (now : ℕ) (hash : String) (ing : Ingress) (rule : IngressRule)
      → Quiet (reconcile_rule E now hash ing rule)
  unfolding reconcile_rule
  reconcile_rule-Quiet now hash ing rule =
      >>=-Quiet (reconcile_http_route E hash ing rule) _
        (reconcile_http_route-Quiet E hash ing rule)
        (λ (route, targets).
          if-Quiet (is_http_route_ready route) _ _
            (>>=-Quiet (mark network_configured >> do_probes E now targets) _
              (λ w.
                do_probes-Quiet now targets
                  (record w { marks = w.marks ++ (network_configured ∷ []) })
                ∙ mark-Quiet network_configured refl w)
              (λ state w. refl))
            (λ w.
              mark-Quiet
                (ingress_not_ready "HTTPRouteNotReady" "Waiting for HTTPRoute becomes Ready.") refl
                w))

  pub reconcile_rules-Quiet :
      (now : ℕ) (hash : String) (ing : Ingress) (rules : List IngressRule) (ready : Bool)
      → Quiet (reconcile_rules E now hash ing rules ready)
  unfolding reconcile_rules
  reconcile_rules-Quiet now hash ing [] ready = λ w. refl
  reconcile_rules-Quiet now hash ing (rule ∷ rules) ready =
      >>=-Quiet (reconcile_rule E now hash ing rule) _ (reconcile_rule-Quiet now hash ing rule)
        (λ b. reconcile_rules-Quiet now hash ing rules (ready && b))
