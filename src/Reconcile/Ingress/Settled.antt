-- ===== src/Reconcile/Ingress/Settled.antt =====
-- The loop of `reconcileIngress` of pkg/reconciler/ingress/ingress.go for rules whose rollouts have
-- ended.
pub mod Addresses
pub mod Kind
pub mod Probed
pub mod Rollout
use mathlib.Core.Path.{subst}
use mathlib.Core.List.{append-nil, append_assoc}
use net_gateway_api.Base.{
  ℕ, String, ◌≡◌, refl, sym, ap, ◌∙◌, Bool, true, false, ◌&&◌, Option, none, some, List, [], ◌∷◌,
  ◌++◌, map, Result, ok, inl, inr, Option-cases, if◌then◌else◌,
}
use net_gateway_api.Base.Text.{◌=s◌, =s_refl}
use net_gateway_api.Config.{Gateway, external_gateway, local_gateway}
use net_gateway_api.Model.Names.{NamespacedName}
use net_gateway_api.Model.Gateway.{HttpRoute, GatewayObject}
use net_gateway_api.Model.Ingress.{Ingress, IngressRule, external_ip}
use net_gateway_api.Resources.Host.{longest_host}
use net_gateway_api.Reconcile.Backends.{compute_backends}
use net_gateway_api.Status.Types.{Backends, ProbeState, Manager}
use net_gateway_api.Reconcile.World.{
  Env, World, follow, lift, ◌>>=◌, ◌>>◌, return, mark, get, found, >>=-ok, Mark, network_configured,
  initialize_conditions, load_balancer_ready, LoadBalancerIngressStatus, domain_internal,
}
use net_gateway_api.Reconcile.Route.{ActE, wait, phase_of, run_phase, reconcile_http_route}
use net_gateway_api.Reconcile.Route.Phases.{IsPlain, state, final, start, phase_of-stage}
use net_gateway_api.Reconcile.Route.Progress.{
  key, sorted_rule, Holds, reconcile_found, run_phase-wait,
}
use net_gateway_api.Reconcile.Ingress.{
  WorldE, is_http_route_ready, gateway_address, collect_lb_ingress_status, look_up_load_balancers,
  do_probes, reconcile_rule, reconcile_rules, reconcile_tls_blocks, update_listeners, sort_hosts,
  with_load_balancers, finish_ingress, insert_probe, reconcile_ingress, with_readiness,
  reconcile_kind,
}
use net_gateway_api.Reconcile.Ingress.Ready.{follow_route, after_rules}

-- A prober that is asked again for a version that is ready says so, and its answers stay.
pub record Steady (M : Manager) : Type 0 where
  pub do_probes :
      (now : ℕ) (b : Backends) (p : M.State)
      → (M.is_probe_active b.key p).0 ≡ state b.version true
      → (p' : M.State) × ((M.do_probes now b p ≡ (p', ok (state b.version true)))
          × ((k : NamespacedName) → M.is_probe_active k p' ≡ M.is_probe_active k p))

module _ (E : Env) (hash : String) (ing : Ingress) where
  -- The lister has the route of a rule, which its Gateways have admitted, and the hash is the
  -- version that is probed for it, and ready.
  abbrev pub IsSettled : IngressRule → WorldE E → Type 0
  IsSettled rule w =
      (host : String) × (sorted : List String) × (r : HttpRoute) × (taken : longest_host rule.hosts
        ≡ ok (host, sorted))
      × (Holds E ing rule host sorted taken w r
          × ((is_http_route_ready r ≡ true)
              × ((E.manager.is_probe_active (key E ing rule host sorted taken) w.prober).0
                  ≡ state hash true)))

  abbrev pub AreSettled : List IngressRule → WorldE E → Type 0
  AreSettled [] w = Unit
  AreSettled (rule ∷ rules) w = IsSettled rule w × AreSettled rules w

  -- The same cluster, and the same answers of the prober.
  abbrev pub SameAnswers : WorldE E → WorldE E → Type 0
  SameAnswers w w' =
      (w'.cluster ≡ w.cluster)
      × ((k : NamespacedName)
          → E.manager.is_probe_active k w'.prober ≡ E.manager.is_probe_active k w.prober)

  IsSettled-same :
      (rule : IngressRule) (w w' : WorldE E)
      → SameAnswers w w'
      → IsSettled rule w
      → IsSettled rule w'
  IsSettled-same rule w w' (c, a) (host, sorted, r, taken, ((g, rest), (ready, active))) = (
    host,
    sorted,
    r,
    taken,
    (
      (ap (E.cluster.get_route ing.namespace host) c ∙ g, rest),
      (ready, ap (λ p. p.0) (a (key E ing rule host sorted taken)) ∙ active),
    ),
  )

  pub AreSettled-same :
      (rules : List IngressRule) (w w' : WorldE E)
      → SameAnswers w w'
      → AreSettled rules w
      → AreSettled rules w'
  AreSettled-same [] w w' s h = tt
  AreSettled-same (rule ∷ rules) w w' s (h, hs) =
      (IsSettled-same rule w w' s h, AreSettled-same rules w w' s hs)

  module _ (steady : Steady E.manager) (plain : IsPlain hash) (now : ℕ) where
    abbrev answer : Backends → Bool → ActE E Bool
    answer = follow_route E now hash ing

    do_probes-steady :
        (b : Backends) (w : WorldE E) (p' : E.manager.State)
        → E.manager.do_probes now b w.prober ≡ (p', ok (state b.version true))
        → do_probes E now b w ≡ (record w { prober = p' }, ok (state b.version true))
    unfolding do_probes
    do_probes-steady b w p' e =
        rw (do_probes, e) (ap (λ q. (record w { prober = q.0 }, ok (state b.version true))) e)

    -- A rule of which all is done is found ready, and nothing but the conditions changes.
    reconcile_rule-settled :
        (rule : IngressRule) (w : WorldE E)
        → IsSettled rule w
        → (w' : WorldE E) × ((reconcile_rule E now hash ing rule w ≡ (w', ok true))
            × (SameAnswers w w' × (w'.marks ≡ w.marks ++ (network_configured ∷ []))))
    unfolding reconcile_rule
    reconcile_rule-settled rule w (host, sorted, r, taken, (h, (ready, active))) =
        let (b, (o, (k, v))) =
          run_phase-wait E ing rule host sorted taken hash r w (state hash true) h in
        let R = sorted_rule E ing rule host sorted taken in
        let due : phase_of hash (state hash true) (compute_backends r R).0 ≡ wait =
          phase_of-stage hash hash final true (compute_backends r R).0 plain
          ∙ ap (λ b. if b then wait else start (compute_backends r R).0) (=s_refl hash) in
        let outcome : reconcile_http_route E hash ing rule w ≡ (w, ok (r, b)) =
          reconcile_found E ing rule host sorted taken hash r w h
          ∙ ap
              (λ (q : ProbeState).
                run_phase E (phase_of hash q (compute_backends r R).0) q hash ing R r w)
              active
          ∙ ap (λ t. run_phase E t (state hash true) hash ing R r w) due
          ∙ o in
        let asked : (E.manager.is_probe_active b.key w.prober).0 ≡ state b.version true =
          ap (λ k. (E.manager.is_probe_active k w.prober).0) k
          ∙ active
          ∙ ap (λ v. state v true) (sym v) in
        let (p', (probed, same)) = steady.do_probes now b w.prober asked in
        let w1 : WorldE E = record w { marks = w.marks ++ (network_configured ∷ []) } in
        (
          record w1 { prober = p' },
          (
            ap (λ p. follow p (λ (route, targets). answer targets (is_http_route_ready route)))
                  outcome
                ∙ ap (λ ready. answer b ready w) ready
                ∙ ap (λ p. follow p (λ state. return state.ready))
                    (do_probes-steady b w1 p' probed),
            ((refl, same), refl),
          ),
        )

    -- And so are several, one after the other.
    pub reconcile_rules-settled :
        (rules : List IngressRule) (w : WorldE E)
        → AreSettled rules w
        → (w' : WorldE E) × ((reconcile_rules E now hash ing rules true w ≡ (w', ok true))
            × (SameAnswers w w' × (w'.marks ≡ w.marks ++ map (λ rule. network_configured) rules)))
    unfolding reconcile_rules
    reconcile_rules-settled [] w h = (w, (refl, ((refl, λ k. refl), sym (append-nil w.marks))))
    reconcile_rules-settled (rule ∷ rules) w (h, hs) =
        let (w1, (o1, ((c1, a1), m1))) = reconcile_rule-settled rule w h in
        let (w2, (o2, ((c2, a2), m2))) =
          reconcile_rules-settled rules w1 (AreSettled-same rules w w1 (c1, a1) hs) in
        (
          w2,
          (
            ap (λ p. follow p (λ ready. reconcile_rules E now hash ing rules (true && ready))) o1
                ∙ o2,
            (
              (c2 ∙ c1, λ k. a2 k ∙ a1 k),
              m2
                  ∙ ap (λ ms. ms ++ map (λ rule. network_configured) rules) m1
                  ∙ append_assoc w.marks (network_configured ∷ []) _,
            ),
          ),
        )
