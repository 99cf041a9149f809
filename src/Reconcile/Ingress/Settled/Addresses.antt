-- ===== src/Reconcile/Ingress/Settled/Addresses.antt =====
-- `lookUpLoadBalancers` of pkg/reconciler/ingress/ingress.go for Gateways that have an address.
use mathlib.Core.Path.{subst}
use net_gateway_api.Base.{
  ◌≡◌, refl, sym, ap, ◌∙◌, Option, none, some, List, [], ◌∷◌, ok, inl, inr, Option-cases,
}
use net_gateway_api.Config.{Gateway, external_gateway, local_gateway}
use net_gateway_api.Model.Names.{NamespacedName}
use net_gateway_api.Model.Gateway.{GatewayObject}
use net_gateway_api.Reconcile.World.{
  Env, lift, found, >>=-ok, LoadBalancerIngressStatus, domain_internal,
}
use net_gateway_api.Reconcile.Ingress.{
  WorldE, gateway_address, collect_lb_ingress_status, look_up_load_balancers,
}

-- The addresses of a Gateway: that of its service, or of the Gateway in the cluster.
module _ (E : Env) where
  abbrev pub HasAddressBy :
      Option NamespacedName → Gateway → List LoadBalancerIngressStatus → E.cluster.State → Type 0
  HasAddressBy (some service) gwc statuses s =
      statuses ≡ domain_internal (E.service_hostname service.name service.namespace) ∷ []
  HasAddressBy none gwc statuses s =
      (gw : GatewayObject) × ((E.cluster.get_gateway gwc.namespaced_name.namespace
            gwc.namespaced_name.name s
          ≡ found gw)
        × (gateway_address gw ≡ ok statuses))

  abbrev pub HasAddress : Gateway → List LoadBalancerIngressStatus → E.cluster.State → Type 0
  HasAddress gwc = HasAddressBy gwc.service gwc

  collect-HasAddress :
      (gwc : Gateway) (statuses : List LoadBalancerIngressStatus) (w : WorldE E)
      → HasAddress gwc statuses w.cluster
      → collect_lb_ingress_status E gwc w ≡ (w, ok statuses)
  unfolding collect_lb_ingress_status
  collect-HasAddress gwc statuses w h = elim (Option-cases gwc.service) [
    | inl e ↦
        let (gw, (g, a)) = subst (λ o. HasAddressBy o gwc statuses w.cluster) e h in
        rw (collect_lb_ingress_status, e, g, a) refl
    | inr (service, e) ↦
        let same = subst (λ o. HasAddressBy o gwc statuses w.cluster) e h in
        rw (collect_lb_ingress_status, e) (ap (λ l. (w, ok l)) (sym same))
  ]

  pub look_up-HasAddress :
      (ext loc : Gateway) (external internal : List LoadBalancerIngressStatus) (w : WorldE E)
      → external_gateway E.plugin ≡ ok ext
      → local_gateway E.plugin ≡ ok loc
      → HasAddress ext external w.cluster
      → HasAddress loc internal w.cluster
      → look_up_load_balancers E w ≡ (w, ok (external, internal))
  unfolding look_up_load_balancers
  look_up-HasAddress ext loc external internal w e l he hl =
      >>=-ok (lift (external_gateway E.plugin)) _ w w ext (ap (λ r. (w, r)) e)
      ∙ >>=-ok (collect_lb_ingress_status E ext) _ w w external
          (collect-HasAddress ext external w he)
      ∙ >>=-ok (lift (local_gateway E.plugin)) _ w w loc (ap (λ r. (w, r)) l)
      ∙ >>=-ok (collect_lb_ingress_status E loc) _ w w internal
          (collect-HasAddress loc internal w hl)
