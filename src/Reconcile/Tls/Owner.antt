-- ===== src/Reconcile/Tls/Owner.antt =====
-- The listeners that `reconcileTLS` of pkg/reconciler/ingress/reconcile_resources.go makes for
-- several hosts, and what `reconcileGatewayListeners` makes of them.
use net_gateway_api.Base.{String, List, [], ◌∷◌, ◌++◌, map}
use net_gateway_api.Model.Gateway.{Listener}
use net_gateway_api.Model.Ingress.{IngressTls, Ingress}
use net_gateway_api.Reconcile.Tls.{listener_for}

module _ (tls : IngressTls) (ing : Ingress) (h : String) where
  abbrev pub name : String
  name = (listener_for tls ing h).name

  abbrev pub made_for : List String → List Listener
  made_for hs = map (listener_for tls ing) (hs ++ h ∷ [])
