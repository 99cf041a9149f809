-- ===== src/Reconcile/Ingress/Settled/Kind.antt =====
-- `ReconcileKind` of pkg/reconciler/ingress/ingress.go for an Ingress whose rollouts have ended.
use mathlib.Core.Path.{subst}
use mathlib.Core.List.{append_assoc}
use net_gateway_api.Base.{ℕ, String, ◌≡◌, refl, sym, ap, ◌∙◌, true, List, [], ◌∷◌, ◌++◌, map, ok}
use net_gateway_api.Config.{Gateway, external_gateway, local_gateway}
use net_gateway_api.Model.Ingress.{Ingress, external_ip}
use net_gateway_api.Reconcile.World.{
  Env, follow, ◌>>=◌, ◌>>◌, Mark, network_configured, initialize_conditions, load_balancer_ready,
  LoadBalancerIngressStatus,
}
use net_gateway_api.Reconcile.Route.{ActE}
use net_gateway_api.Reconcile.Route.Phases.{IsPlain}
use net_gateway_api.Reconcile.Ingress.{
  WorldE, look_up_load_balancers, reconcile_rules, reconcile_tls_blocks, update_listeners,
  sort_hosts, with_load_balancers, finish_ingress, insert_probe, reconcile_ingress, with_readiness,
  reconcile_kind,
}
use net_gateway_api.Reconcile.Ingress.Ready.{after_rules}
use net_gateway_api.Reconcile.Ingress.Settled.{
  Steady, AreSettled, SameAnswers, AreSettled-same, reconcile_rules-settled,
}
use net_gateway_api.Reconcile.Ingress.Settled.Addresses.{HasAddress, look_up-HasAddress}

module _ (E : Env) where
  after_rules-ready :
      (ing probed : Ingress) (external internal : List LoadBalancerIngressStatus) (w : WorldE E)
      → E.ingress_tls_for_visibility (sort_hosts probed) external_ip ≡ []
      → look_up_load_balancers E w ≡ (w, ok (external, internal))
      → after_rules E ing probed true w
        ≡ (record w { marks = w.marks ++ (load_balancer_ready external internal ∷ []) }, ok tt)
  unfolding reconcile_tls_blocks update_listeners finish_ingress with_load_balancers
  after_rules-ready ing probed external internal w t looked =
      ap
        (λ blocks.
          follow (reconcile_tls_blocks E probed blocks w)
            (λ listeners. update_listeners E listeners >> finish_ingress E true))
        t
      ∙ ap (with_load_balancers E) looked

  abbrev after_probe : ℕ → String × Ingress → ActE E (Unit {0})
  after_probe now (hash, probed) =
      reconcile_rules E now hash probed probed.rules true >>= after_rules E probed probed

  -- The marks of a reconciliation in which all is ready.
  abbrev pub ready_marks :
      Ingress → List LoadBalancerIngressStatus → List LoadBalancerIngressStatus → List Mark
  ready_marks probed external internal =
      initialize_conditions
      ∷ (map (λ rule. network_configured) probed.rules
          ++ (load_balancer_ready external internal ∷ []))

  -- For a prober that says again what is ready: where the probe paths are inserted with a hash that
  -- no prefix starts, no TLS is asked for, both Gateways have an address, and for each rule the
  -- lister has an admitted route that can be probed and the hash is the version that is probed and
  -- ready, `ReconcileKind` returns without an error and marks the network as configured for each
  -- rule and the load balancers as ready with these addresses; the cluster and the answers of the
  -- prober stay as they are, so the next reconciliation finds the same.
  pub reconcile_kind-settled :
      (steady : Steady E.manager) (now : ℕ) (hash : String) (ing probed : Ingress)
      (ext loc : Gateway) (external internal : List LoadBalancerIngressStatus) (w : WorldE E)
      → insert_probe E ing ≡ ok (hash, probed)
      → IsPlain hash
      → E.ingress_tls_for_visibility (sort_hosts probed) external_ip ≡ []
      → external_gateway E.plugin ≡ ok ext
      → local_gateway E.plugin ≡ ok loc
      → HasAddress E ext external w.cluster
      → HasAddress E loc internal w.cluster
      → AreSettled E hash probed probed.rules w
      → (w' : WorldE E) × ((reconcile_kind E now ing w ≡ (w', ok tt))
          × ((w'.marks ≡ w.marks ++ ready_marks probed external internal)
              × (SameAnswers E hash probed w w' × AreSettled E hash probed probed.rules w')))
  unfolding reconcile_kind reconcile_ingress reconcile_tls_blocks update_listeners finish_ingress
      with_load_balancers with_readiness
  reconcile_kind-settled steady now hash ing probed ext loc external internal w i plain t e l he hl
        h =
      let w0 : WorldE E = record w { marks = w.marks ++ (initialize_conditions ∷ []) } in
      let (w1, (o, ((c, a), m))) =
        reconcile_rules-settled E hash probed steady plain now probed.rules w0
          (AreSettled-same E hash probed probed.rules w w0 (refl, λ k. refl) h) in
      let same : SameAnswers E hash probed w w1 = (c, a) in
      let looked =
        look_up-HasAddress E ext loc external internal w1 e l
          (subst (HasAddress E ext external) (sym c) he)
          (subst (HasAddress E loc internal) (sym c) hl) in
      let w2 : WorldE E = record w1 {
        marks = w1.marks ++ (load_balancer_ready external internal ∷ []);
      } in
      let outcome : reconcile_ingress E now ing w ≡ (w2, ok tt) =
        ap (λ r. follow (w0, r) (after_probe now)) i
        ∙ ap (λ p. follow p (after_rules E ing probed)) o
        ∙ after_rules-ready ing probed external internal w1 t looked in
      (
        w2,
        (
          ap (with_readiness E) outcome,
          (
            ap (λ ms. ms ++ (load_balancer_ready external internal ∷ [])) m
                ∙ append_assoc (w.marks ++ (initialize_conditions ∷ [])) _ _
                ∙ append_assoc w.marks (initialize_conditions ∷ []) _,
            (same, AreSettled-same E hash probed probed.rules w w2 same h),
          ),
        ),
      )
