-- ===== src/Reconcile/Route/Round.antt =====
-- One reconciliation of a rule by `reconcileHTTPRoute` and `DoProbes`, as the loop of
-- `reconcileIngress` of pkg/reconciler/ingress/ingress.go calls them, with the work of the prober that
-- follows.
use mathlib.Core.Path.{subst}
use net_gateway_api.Base.{any, ◌++◌}
use net_gateway_api.Reconcile.Backends.Requests.{visibility_of}
use net_gateway_api.Reconcile.Backends.Listing.{Lists}
use net_gateway_api.Reconcile.Route.Probable.{asks_probe}
use net_gateway_api.Reconcile.Route.Progress.{HoldsProbed}
use net_gateway_api.Reconcile.World.{return, network_configured}
use net_gateway_api.Reconcile.Ingress.{is_http_route_ready, do_probes, reconcile_rule}
use net_gateway_api.Reconcile.Ingress.Ready.{follow_route}
use net_gateway_api.Base.{
  ℕ, zero, suc, String, ◌≡◌, refl, sym, ap, ◌∙◌, Bool, true, List, [], ◌∷◌, ok,
}
use net_gateway_api.Model.Names.{NamespacedName}
use net_gateway_api.Model.Gateway.{HttpRoute}
use net_gateway_api.Model.Ingress.{Ingress, IngressRule}
use net_gateway_api.Resources.Host.{longest_host}
use net_gateway_api.Resources.Host.Greatest.{longest_host_again}
use net_gateway_api.Resources.Make.{make_http_route}
use net_gateway_api.Reconcile.Backends.{compute_backends}
use net_gateway_api.Reconcile.World.{Env, follow}
use net_gateway_api.Reconcile.Route.{
  ActE, Phase, Desired, desired_of, phase_of, run_phase, reconcile_http_route,
}
use net_gateway_api.Reconcile.Route.Effects.{Worlds}
use net_gateway_api.Reconcile.Route.Phases.{IsPlain, state}
use net_gateway_api.Reconcile.Route.Progress.{
  Accepts, SameContent, asked, key, sorted_rule, run_phase-Runs, reconcile_found,
}
use net_gateway_api.Status.Types.{Backends, ProbeState, Manager}

-- A prober that works between two calls of `DoProbes`, in the states that it may have: a call with
-- backends that list some URL under a visibility gives a state, and after the work the version that
-- was asked for is ready.
pub record Settling (M : Manager) (v : String) : Type 1 where
  pub Holds : M.State → Type 0
  pub work : M.State → M.State
  pub settles :
      (now : ℕ) (b : Backends) (p : M.State)
      → Lists v b
      → Holds p
      → (p' : M.State) × (s : ProbeState) × ((M.do_probes now b p ≡ (p', ok s))
          × (Holds (work p') × ((M.is_probe_active b.key (work p')).0 ≡ state b.version true)))

module _ (E : Env) (rule : IngressRule) (S : Settling E.manager (visibility_of rule)) (now : ℕ)
    (hash : String) (ing : Ingress) where
  -- A reconciliation of the rule, the work of the prober, and so on.
  abbrev pub rounds : ℕ → ActE E (Unit {0})
  rounds zero w = (w, ok tt)
  rounds (suc n) w =
      follow (reconcile_rule E now hash ing rule w)
        (λ ready w'. rounds n (record w' { prober = S.work w'.prober }))

module _ (E : Env) (accepts : Accepts E.cluster) (rule : IngressRule)
    (S : Settling E.manager (visibility_of rule)) (now : ℕ) (hash : String) (ing : Ingress)
    (host : String) (sorted : List String) (taken : longest_host rule.hosts ≡ ok (host, sorted))
    (plain : IsPlain hash) (made : HttpRoute)
    (e : make_http_route E.kmeta E.plugin ing rule ≡ ok made)
    (probes : any asks_probe rule.paths ≡ true) where
  abbrev K : NamespacedName
  K = key E ing rule host sorted taken

  abbrev R : IngressRule
  R = sorted_rule E ing rule host sorted taken

  pub make_sorted : make_http_route E.kmeta E.plugin ing R ≡ ok made
  unfolding make_http_route
  make_sorted =
      rw (longest_host_again rule.hosts taken, make_http_route)
        (sym (rw (taken, make_http_route) refl) ∙ e)

  -- The prober answers with this state for the rule's key, and the lister has this route, which can
  -- be probed and which its Gateways have admitted.
  abbrev pub At : ProbeState → Worlds E → HttpRoute → Type 0
  At probe w r =
      S.Holds w.prober
      × (((E.manager.is_probe_active K w.prober).0 ≡ probe)
          × (HoldsProbed E ing rule host sorted taken w r × (is_http_route_ready r ≡ true)))

  -- One round from a world where a branch is due.
  abbrev pub Next : Worlds E → HttpRoute → Phase → ProbeState → Type 0
  Next w r p probe =
      (w' : Worlds E) × (r' : HttpRoute) × (d : Desired) × ((desired_of E.kmeta E.plugin p hash ing
            R r
          ≡ ok d)
        × (SameContent r' d.route
            × (At (state (asked p hash probe) true) w' r'
                × ((n : ℕ)
                    → rounds E rule S now hash ing (suc n) w ≡ rounds E rule S now hash ing n w'))))

  ready_same :
      (q r : HttpRoute) → q.parents ≡ r.parents → is_http_route_ready q ≡ is_http_route_ready r
  unfolding is_http_route_ready
  ready_same q r h = rw h refl

  abbrev answer : Backends → Bool → ActE E Bool
  answer = follow_route E now hash ing

  -- What a reconciliation of the rule does after its route.
  reconcile_rule-probes :
      (w w1 : Worlds E) (x : HttpRoute) (b : Backends) (p' : E.manager.State) (s : ProbeState)
      → reconcile_http_route E hash ing rule w ≡ (w1, ok (x, b))
      → is_http_route_ready x ≡ true
      → E.manager.do_probes now b w1.prober ≡ (p', ok s)
      → reconcile_rule E now hash ing rule w
        ≡ (record w1 { marks = w1.marks ++ (network_configured ∷ []); prober = p' }, ok s.ready)
  unfolding reconcile_rule do_probes
  reconcile_rule-probes w w1 x b p' s outcome ready probed =
      ap (λ p. follow p (λ (route, targets). answer targets (is_http_route_ready route))) outcome
      ∙ ap (λ ready. answer b ready w1) ready
      ∙ ap (λ p. follow p (λ state. return state.ready))
          (probes_with (record w1 { marks = w1.marks ++ (network_configured ∷ []) }) probed)
    where
      probes_with :
          (u : Worlds E)
          → E.manager.do_probes now b u.prober ≡ (p', ok s)
          → do_probes E now b u ≡ (record u { prober = p' }, ok s)
      probes_with u f = rw (do_probes, f) (ap (λ q. (record u { prober = q.0 }, ok s)) f)

  pub round :
      (w : Worlds E) (r : HttpRoute) (probe : ProbeState) (p : Phase)
      → At probe w r
      → phase_of hash probe (compute_backends r R).0 ≡ p
      → Next w r p probe
  round w r probe p (inv, (a, (h, ready))) due =
      let (d, (wanted, (w1, x, b, r', (o, ((asks, lists), (same, ((h', content), (px, pr)))))))) =
        run_phase-Runs E ing rule host sorted taken accepts hash r made w make_sorted probes h p
          probe in
      let outcome : reconcile_http_route E hash ing rule w ≡ (w1, ok (x, b)) =
        reconcile_found E ing rule host sorted taken hash r w h.0
        ∙ ap
            (λ (q : ProbeState).
              run_phase E (phase_of hash q (compute_backends r R).0) q hash ing R r w)
            a
        ∙ ap (λ t. run_phase E t probe hash ing R r w) due
        ∙ o in
      let (p', s, (probed, (inv', active))) =
        S.settles now b w1.prober lists (subst S.Holds (sym same) inv) in
      let w2 : Worlds E = record w1 {
        marks = w1.marks ++ (network_configured ∷ []);
        prober = S.work p';
      } in
      (
        w2,
        r',
        d,
        (
          wanted,
          (
            content,
            (
              (
                inv',
                (
                  ap (λ k. (E.manager.is_probe_active k (S.work p')).0) (sym asks.0)
                      ∙ active
                      ∙ ap (λ v. state v true) asks.1,
                  (h', ready_same r' r pr ∙ ready),
                ),
              ),
              λ n.
                  ap
                    (λ p. follow p (λ ready w'.
                      rounds E rule S now hash ing n (record w' { prober = S.work w'.prober })))
                    (reconcile_rule-probes w w1 x b p' s outcome (ready_same x r px ∙ ready)
                      probed),
            ),
          ),
        ),
      )
