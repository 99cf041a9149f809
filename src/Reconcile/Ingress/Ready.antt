-- ===== src/Reconcile/Ingress/Ready.antt =====
-- When `ReconcileKind` of pkg/reconciler/ingress/ingress.go marks a load balancer as ready.
use net_gateway_api.Base.{
  and_true, ℕ, String, ◌≡◌, ◌≢◌, refl, ap, ◌∙◌, Bool, true, false, ◌&&◌, List, [], ◌∷◌, ◌++◌,
  if◌then◌else◌, Result, ok, err, panic, ◌⊎◌, inl, inr, Result-cases, ok-injective,
}
use net_gateway_api.Model.Gateway.{HttpRoute}
use net_gateway_api.Model.Ingress.{Ingress, IngressRule, external_ip}
use net_gateway_api.Status.Types.{Backends, ProbeState}
use net_gateway_api.Reconcile.World.{
  Env, World, Act, follow, ◌>>=◌, ◌>>◌, return, mark, network_configured, ingress_not_ready,
  initialize_conditions, load_balancer_not_ready,
}
use net_gateway_api.Reconcile.Quiet.{readies, Quiet, >>=-Quiet, mark-Quiet}
use net_gateway_api.Reconcile.Route.{ActE, reconcile_http_route}
use net_gateway_api.Reconcile.Ingress.{
  WorldE, is_http_route_ready, do_probes, reconcile_rule, reconcile_rules, sort_hosts, insert_probe,
  reconcile_tls_blocks, update_listeners, finish_ingress, reconcile_ingress, with_readiness,
  reconcile_kind,
}
use net_gateway_api.Reconcile.Ingress.Silent.Rules.{reconcile_rules-Quiet}
use net_gateway_api.Reconcile.Ingress.Silent.Gateways.{
  reconcile_tls_blocks-Quiet, update_listeners-Quiet,
}

-- An action that gave a value.
follow-ok :
    {S P A B : Type 0} (k : A → Act S P B) (p : World S P × Result A) (w : World S P) (b : B)
    → follow p k ≡ (w, ok b)
    → (w1 : World S P) × (a : A) × ((p ≡ (w1, ok a)) × (k a w1 ≡ (w, ok b)))
follow-ok k (w1, ok a) w b h = (w1, a, (refl, h))
follow-ok k (w1, err e) w b h = cc (ap (λ p. p.1) h)
follow-ok k (w1, panic m) w b h = cc (ap (λ p. p.1) h)

module _ (E : Env) (now : ℕ) (hash : String) (ing : Ingress) where
  -- The rule's route is accepted by its Gateways, and `DoProbes` answers that the targets of the
  -- route are ready.
  abbrev pub RuleReady : IngressRule → WorldE E → WorldE E → Type 0
  RuleReady rule w w' =
      (route : HttpRoute) × (targets : Backends) × (w1 : WorldE E) × (state : ProbeState)
      × (((reconcile_http_route E hash ing rule w ≡ (w1, ok (route, targets)))
            × (is_http_route_ready route ≡ true))
          × ((do_probes E now targets (record w1 { marks = w1.marks ++ (network_configured ∷ []) })
                ≡ (w', ok state))
              × (state.ready ≡ true)))

  -- Each rule is ready, in its turn.
  abbrev pub RulesReady : List IngressRule → WorldE E → Type 0
  RulesReady [] w = Unit
  RulesReady (rule ∷ rules) w = (w' : WorldE E) × (RuleReady rule w w' × RulesReady rules w')

  -- What follows a route, ready or not.
  abbrev pub follow_route : Backends → Bool → ActE E Bool
  follow_route targets ready =
      if ready
      then (mark network_configured >> do_probes E now targets >>= λ state. return state.ready)
      else (mark (ingress_not_ready "HTTPRouteNotReady" "Waiting for HTTPRoute becomes Ready.")
          >> return false)

  follow_route-ready :
      (targets : Backends) (ready : Bool) (w w' : WorldE E)
      → follow_route targets ready w ≡ (w', ok true)
      → (state : ProbeState) × ((ready ≡ true)
          × ((do_probes E now targets (record w { marks = w.marks ++ (network_configured ∷ []) })
                ≡ (w', ok state))
              × (state.ready ≡ true)))
  follow_route-ready targets false w w' h = absurd (never (ok-injective (ap (λ p. p.1) h)))
    where
      never : false ≡ true → ⊥
      never h = cc h
  follow_route-ready targets true w w' h =
      let (w2, state, (p, q)) =
        follow-ok (λ state. return state.ready)
          (do_probes E now targets (record w { marks = w.marks ++ (network_configured ∷ []) })) w'
          true h in
      (
        state,
        (refl, (p ∙ ap (λ w. (w, ok state)) (ap (λ r. r.0) q), ok-injective (ap (λ r. r.1) q))),
      )

  reconcile_rule-RuleReady :
      (rule : IngressRule) (w w' : WorldE E)
      → reconcile_rule E now hash ing rule w ≡ (w', ok true)
      → RuleReady rule w w'
  unfolding reconcile_rule
  reconcile_rule-RuleReady rule w w' h =
      let (w1, made, (e, f)) =
        follow-ok (λ (route, targets). follow_route targets (is_http_route_ready route))
          (reconcile_http_route E hash ing rule w) w' true h in
      let (state, (r, d)) = follow_route-ready made.1 (is_http_route_ready made.0) w1 w' f in
      (made.0, made.1, w1, state, ((e, r), d))

  rules_ready :
      (rules : List IngressRule) (ready : Bool) (w w' : WorldE E)
      → reconcile_rules E now hash ing rules ready w ≡ (w', ok true)
      → (ready ≡ true) × RulesReady rules w
  unfolding reconcile_rules
  rules_ready [] ready w w' h = (ok-injective (ap (λ p. p.1) h), tt)
  rules_ready (rule ∷ rules) ready w w' h =
      let (w1, b, (e, f)) =
        follow-ok (λ b. reconcile_rules E now hash ing rules (ready && b))
          (reconcile_rule E now hash ing rule w) w' true h in
      let (both, rest) = rules_ready rules (ready && b) w1 w' f in
      let (a, c) = and_true ready b both in
      (a, (w1, (reconcile_rule-RuleReady rule w w1 (e ∙ ap (λ b. (w1, ok b)) c), rest)))

module _ (E : Env) (ing : Ingress) where
  -- What follows the loop over the rules.
  abbrev pub after_rules : Ingress → Bool → ActE E (Unit {0})
  after_rules probed ready = do
    listeners ←
        reconcile_tls_blocks E probed (E.ingress_tls_for_visibility (sort_hosts probed) external_ip)
    update_listeners E listeners
    finish_ingress E ready

  after_rules-Quiet : (probed : Ingress) → Quiet (after_rules probed false)
  unfolding finish_ingress
  after_rules-Quiet probed =
      >>=-Quiet
        (reconcile_tls_blocks E probed
          (E.ingress_tls_for_visibility (sort_hosts probed) external_ip))
        _ (reconcile_tls_blocks-Quiet E probed _)
        (λ ls.
          >>=-Quiet (update_listeners E ls) _ (update_listeners-Quiet E ls)
            (λ u. mark-Quiet load_balancer_not_ready refl))

  -- The loop gave that all are ready, or the marks are as many as before.
  loop_cases :
      (probed : Ingress) (n : ℕ) (p : WorldE E × Result Bool)
      → readies p.0.marks ≡ n
      → (readies (follow p (after_rules probed)).0.marks ≡ n) ⊎ (p ≡ (p.0, ok true))
  loop_cases probed n (w, ok true) h = inr refl
  loop_cases probed n (w, ok false) h = inl (after_rules-Quiet probed w ∙ h)
  loop_cases probed n (w, err e) h = inl h
  loop_cases probed n (w, panic m) h = inl h

  -- All rules of the Ingress with its probe paths are ready, from its first mark on.
  abbrev pub IngressReady : Result (String × Ingress) → ℕ → WorldE E → Type 0
  IngressReady inserted now w =
      (hash : String) × (probed : Ingress) × ((inserted ≡ ok (hash, probed))
        × RulesReady E now hash probed probed.rules
            (record w { marks = w.marks ++ (initialize_conditions ∷ []) }))

  reconcile_ingress-cases :
      (now : ℕ) (w : WorldE E)
      → (readies (reconcile_ingress E now ing w).0.marks ≡ readies w.marks)
        ⊎ IngressReady (insert_probe E ing) now w
  unfolding reconcile_ingress
  reconcile_ingress-cases now w = elim (Result-cases (insert_probe E ing)) [
    | inl ((hash, probed), e) ↦ rw e (by_loop hash probed)
    | inr (inl (x, e)) ↦ rw e (inl (mark-Quiet initialize_conditions refl w))
    | inr (inr (x, e)) ↦ rw e (inl (mark-Quiet initialize_conditions refl w))
  ]
    where
      by_loop :
          (hash : String) (probed : Ingress)
          → (readies
                (follow
                  (reconcile_rules E now hash probed probed.rules true
                    (record w { marks = w.marks ++ (initialize_conditions ∷ []) }))
                  (after_rules probed)).0.marks
              ≡ readies w.marks)
            ⊎ IngressReady (ok (hash, probed)) now w
      by_loop hash probed =
          let w0 : WorldE E = record w { marks = w.marks ++ (initialize_conditions ∷ []) } in
          let p = reconcile_rules E now hash probed probed.rules true w0 in
          elim (loop_cases probed (readies w.marks) p (
            reconcile_rules-Quiet E now hash probed probed.rules true w0
            ∙ mark-Quiet initialize_conditions refl w)) [
              | inl q ↦ inl q
              | inr q ↦ inr (
                hash,
                probed,
                (refl, (rules_ready E now hash probed probed.rules true w0 p.0 q).1),
              )
            ]

  with_readiness-Quiet :
      (n : ℕ) (p : WorldE E × Result (Unit {0}))
      → readies p.0.marks ≡ n
      → readies (with_readiness E p).0.marks ≡ n
  unfolding with_readiness
  with_readiness-Quiet n (w, ok u) h = h
  with_readiness-Quiet n (w, err e) h =
      mark-Quiet (ingress_not_ready "ReconcileIngressFailed" "Ingress reconciliation failed") refl w
      ∙ h
  with_readiness-Quiet n (w, panic m) h = h

  -- `ReconcileKind` marks a load balancer as ready only where all is ready: the probe paths were
  -- inserted, and for each rule in its turn the route was reconciled, each of its parents had
  -- admitted it, and `DoProbes` answered for the targets of this route that they are ready.
  pub reconcile_kind-IngressReady :
      (now : ℕ) (w : WorldE E)
      → readies (reconcile_kind E now ing w).0.marks ≢ readies w.marks
      → IngressReady (insert_probe E ing) now w
  unfolding reconcile_kind
  reconcile_kind-IngressReady now w h = elim (reconcile_ingress-cases now w) [
    | inl q ↦ absurd (h (with_readiness-Quiet (readies w.marks) (reconcile_ingress E now ing w) q))
    | inr r ↦ r
  ]
