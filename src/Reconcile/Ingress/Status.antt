-- ===== src/Reconcile/Ingress/Status.antt =====
-- The status that pkg/reconciler/ingress/ingress.go gives an Ingress.
use net_gateway_api.Base.{
  ◌≡◌, refl, ap, ◌∙◌, true, none, [], ◌∷◌, ◌++◌, ok, err, Error, wrapped, gateway_not_found,
}
use net_gateway_api.Config.{Gateway, external_gateway}
use net_gateway_api.Reconcile.World.{
  Env, World, lift, >>=-ok, >>=-err, missing, load_balancer_failed,
}
use net_gateway_api.Reconcile.Ingress.{
  is_gateway_not_found, collect_lb_ingress_status, look_up_load_balancers, with_load_balancers,
  finish_ingress,
}

-- A Gateway that does not exist fails the load balancer and is no error: where the external
-- Gateway has no service and the lister has none of its name, the end of the reconciliation of an
-- Ingress whose routes are ready marks that failure, and does nothing else.
pub finish_ingress-missing :
    (E : Env) (w : World E.cluster.State E.manager.State) (gwc : Gateway)
    → external_gateway E.plugin ≡ ok gwc
    → gwc.service ≡ none
    → E.cluster.get_gateway gwc.namespaced_name.namespace gwc.namespaced_name.name w.cluster
      ≡ missing
    → finish_ingress E true w ≡ (
      record w {
        marks =
            w.marks ++ (load_balancer_failed "GatewayDoesNotExist" "could not find Gateway" ∷ []);
      },
      ok tt,
    )
unfolding finish_ingress with_load_balancers is_gateway_not_found look_up_load_balancers
    collect_lb_ingress_status
finish_ingress-missing E w gwc a b c =
    let w' : World E.cluster.State E.manager.State = record w {
      marks = w.marks ++ (load_balancer_failed "GatewayDoesNotExist" "could not find Gateway" ∷ []);
    } in
    let e : Error = wrapped "error getting Gateway" gateway_not_found in
    let collected : collect_lb_ingress_status E gwc w ≡ (w', err e) =
      rw (collect_lb_ingress_status, b, c) refl in
    let looked : look_up_load_balancers E w ≡ (w', err e) =
      >>=-ok (lift (external_gateway E.plugin)) _ w w gwc (ap (λ r. (w, r)) a)
      ∙ >>=-err (collect_lb_ingress_status E gwc) _ w w' e collected in
    ap (with_load_balancers E) looked
