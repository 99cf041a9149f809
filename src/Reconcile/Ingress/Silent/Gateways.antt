-- ===== src/Reconcile/Ingress/Silent/Gateways.antt =====
-- The marks of `reconcileTLS` and `reconcileGatewayListeners` in
-- pkg/reconciler/ingress/reconcile_resources.go.
use net_gateway_api.Base.{◌≡◌, refl, List, [], ◌∷◌, if◌then◌else◌, failed}
use net_gateway_api.Config.{external_gateway}
use net_gateway_api.Model.Names.{NamespacedName, deep_equal}
use net_gateway_api.Model.Gateway.{
  GatewayObject, Listener, ReferenceGrant, ReferenceGrantSpec-discrete,
}
use net_gateway_api.Model.Ingress.{Ingress, IngressTls}
use net_gateway_api.Reconcile.World.{
  Env, ◌>>=◌, ◌>>◌, return, fail, call, record_event, Lookup, found, missing, failure, warning,
}
use net_gateway_api.Reconcile.Quiet.{
  lift-Quiet, call-then-Quiet, readies, Quiet, >>=-Quiet, call-Quiet, if-Quiet,
}
use net_gateway_api.Reconcile.Route.{ActE, merged}
use net_gateway_api.Reconcile.Listeners.{merge_listeners, reconcile_gateway_listeners}
use net_gateway_api.Reconcile.Tls.{
  secret_metadata, gateway_metadata, find_or_create_grant, update_grant, reconcile_tls,
}
use net_gateway_api.Reconcile.Ingress.{reconcile_tls_blocks, update_listeners}
use net_gateway_api.Resources.Grant.{make_reference_grant}

module _ (E : Env) where
  find_or_create_grant-Quiet : (desired : ReferenceGrant) → Quiet (find_or_create_grant E desired)
  unfolding find_or_create_grant
  find_or_create_grant-Quiet desired w =
      by_lookup (E.cluster.get_grant desired.namespace desired.name w.cluster)
    where
      by_lookup :
          (o : Lookup ReferenceGrant)
          → readies
              ((elim o as (λ o. ActE E ReferenceGrant) [
                | missing ↦
                    call
                      (E.cluster.create_grant desired)
                      "CreationFailed"
                      "failed to create ReferenceGrant"
                | failure e ↦ fail e
                | found rp ↦ return rp
              ])
                w).0.marks
            ≡ readies w.marks
      by_lookup missing =
          call-Quiet (E.cluster.create_grant desired) "CreationFailed"
            "failed to create ReferenceGrant" w
      by_lookup (failure e) = refl
      by_lookup (found rp) = refl

  update_grant-Quiet : (rp desired : ReferenceGrant) → Quiet (update_grant E rp desired)
  unfolding update_grant
  update_grant-Quiet rp desired =
      if-Quiet (deep_equal ReferenceGrantSpec-discrete rp.spec desired.spec) _ _ (λ w. refl)
        (call-then-Quiet (E.cluster.update_grant (record rp { spec = desired.spec })) "UpdateFailed"
          "failed to update ReferenceGrant" _ (λ g w. refl))

  reconcile_tls-Quiet : (tls : IngressTls) (ing : Ingress) → Quiet (reconcile_tls E tls ing)
  unfolding reconcile_tls
  reconcile_tls-Quiet tls ing = lift-Quiet (external_gateway E.plugin) _ (λ gw.
      lift-Quiet (make_reference_grant E.kmeta ing (secret_metadata tls) (gateway_metadata gw)) _
        (λ desired.
          >>=-Quiet (find_or_create_grant E desired) _ (find_or_create_grant-Quiet desired) (λ rp.
            >>=-Quiet
              (if E.kmeta.is_controlled_by rp.owner_references ing
                then update_grant E rp desired
                else record_event (warning "NotOwned") >> fail (failed "ReferenceGrant not owned"))
              _
              (if-Quiet (E.kmeta.is_controlled_by rp.owner_references ing) _ _
                (update_grant-Quiet rp desired) (λ w. refl))
              (λ u w. refl))))

  pub reconcile_tls_blocks-Quiet :
      (ing : Ingress) (blocks : List IngressTls) → Quiet (reconcile_tls_blocks E ing blocks)
  unfolding reconcile_tls_blocks
  reconcile_tls_blocks-Quiet ing [] = λ w. refl
  reconcile_tls_blocks-Quiet ing (tls ∷ blocks) =
      >>=-Quiet (reconcile_tls E tls ing) _ (reconcile_tls-Quiet tls ing) (λ l.
        >>=-Quiet (reconcile_tls_blocks E ing blocks) _ (reconcile_tls_blocks-Quiet ing blocks)
          (λ ls w. refl))

  reconcile_gateway_listeners-Quiet :
      (ls : List Listener) (name : NamespacedName) → Quiet (reconcile_gateway_listeners E ls name)
  unfolding reconcile_gateway_listeners
  reconcile_gateway_listeners-Quiet ls name w =
      by_lookup (E.cluster.get_gateway name.namespace name.name w.cluster)
    where
      by_lookup :
          (o : Lookup GatewayObject)
          → readies
              ((elim o as (λ o. ActE E (Unit {0})) [
                | missing ↦
                    (record_event (warning "GatewayMissing")
                      >> fail (failed "Gateway does not exist"))
                | failure e ↦ fail e
                | found gw ↦
                    let (merged, updated) = merge_listeners gw.listeners ls in
                    if updated
                    then (call
                          (E.cluster.update_gateway (record gw { listeners = merged }))
                          "GatewayUpdateFailed"
                          "failed to update Gateway"
                        >>= λ _. return tt)
                    else return tt
              ])
                w).0.marks
            ≡ readies w.marks
      by_lookup missing = refl
      by_lookup (failure e) = refl
      by_lookup (found gw) =
          let (merged, updated) = merge_listeners gw.listeners ls in
          if-Quiet updated _ _
            (call-then-Quiet (E.cluster.update_gateway (record gw { listeners = merged }))
              "GatewayUpdateFailed" "failed to update Gateway" _ (λ g w. refl))
            (λ w. refl) w

  pub update_listeners-Quiet : (ls : List Listener) → Quiet (update_listeners E ls)
  unfolding update_listeners
  update_listeners-Quiet [] = λ w. refl
  update_listeners-Quiet (l ∷ ls) =
      lift-Quiet (external_gateway E.plugin) _
        (λ gw. reconcile_gateway_listeners-Quiet (l ∷ ls) gw.namespaced_name)
