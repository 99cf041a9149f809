-- ===== src/Reconcile/Route/Rounds.antt =====
-- The rollout of a rule's route by `reconcileHTTPRoute` and `DoProbes`, as the loop of
-- `reconcileIngress` of pkg/reconciler/ingress/ingress.go calls them, from one reconciliation to the
-- next.
use mathlib.Core.Path.{subst}
use net_gateway_api.Base.{any}
use net_gateway_api.Reconcile.Backends.Requests.{visibility_of}
use net_gateway_api.Reconcile.Route.Probable.{asks_probe}
use net_gateway_api.Base.{
  ℕ, zero, suc, String, ◌≡◌, refl, sym, ap, ◌∙◌, Bool, true, false, List, [], ◌∷◌, ok,
  if◌then◌else◌, ok-injective,
}
use net_gateway_api.Base.Text.{◌=s◌, =s_refl}
use net_gateway_api.Model.Gateway.{HttpRoute}
use net_gateway_api.Model.Ingress.{IngressBackendSplit, Ingress, IngressRule}
use net_gateway_api.Resources.Host.{longest_host}
use net_gateway_api.Resources.Make.{make_http_route}
use net_gateway_api.Reconcile.Backends.{compute_backends}
use net_gateway_api.Reconcile.World.{Env}
use net_gateway_api.Reconcile.Route.{
  Phase, finish, transition, wait, endpoints, replace, Desired, desired_of, phase_of,
}
use net_gateway_api.Reconcile.Route.Effects.{Worlds}
use net_gateway_api.Reconcile.Route.Phases.{
  IsPlain, state, Stage, final, probing, moving, version, start, advance, phase_of-stage,
}
use net_gateway_api.Reconcile.Route.Progress.{Accepts, SameContent, sorted_rule}
use net_gateway_api.Status.Types.{ProbeState}
use net_gateway_api.Reconcile.Route.Round.{Settling, rounds, At, Next, round, make_sorted}

module _ (E : Env) (accepts : Accepts E.cluster) (rule : IngressRule)
    (S : Settling E.manager (visibility_of rule)) (now : ℕ) (hash : String) (ing : Ingress)
    (host : String) (sorted : List String) (taken : longest_host rule.hosts ≡ ok (host, sorted))
    (plain : IsPlain hash) (made : HttpRoute)
    (e : make_http_route E.kmeta E.plugin ing rule ≡ ok made)
    (probes : any asks_probe rule.paths ≡ true) where
  abbrev R : IngressRule
  R = sorted_rule E ing rule host sorted taken

  abbrev pub Here : ProbeState → Worlds E → HttpRoute → Type 0
  Here = At E accepts rule S now hash ing host sorted taken plain made e probes

  one_round :
      (w : Worlds E) (r : HttpRoute) (probe : ProbeState) (p : Phase)
      → Here probe w r
      → phase_of hash probe (compute_backends r R).0 ≡ p
      → Next E accepts rule S now hash ing host sorted taken plain made e probes w r p probe
  one_round = round E accepts rule S now hash ing host sorted taken plain made e probes

  sorted_made : make_http_route E.kmeta E.plugin ing R ≡ ok made
  sorted_made = make_sorted E accepts rule S now hash ing host sorted taken plain made e probes

  -- The route of the rule is probed and ready, and the lister has it as `MakeHTTPRoute` makes it.
  abbrev pub Finished : Worlds E → Type 0
  Finished w = (r : HttpRoute) × (SameContent r made × Here (state hash true) w r)

  abbrev pub Ends : ℕ → Worlds E → Type 0
  Ends n w = (w' : Worlds E) × ((rounds E rule S now hash ing n w ≡ (w', ok tt)) × Finished w')

  prepend :
      (n : ℕ) (w w' : Worlds E)
      → rounds E rule S now hash ing (suc n) w ≡ rounds E rule S now hash ing n w'
      → Ends n w'
      → Ends (suc n) w
  prepend n w w' q (w'', (o, f)) = (w'', (q ∙ o, f))

  due_for :
      (s : Stage) (new : List IngressBackendSplit)
      → phase_of hash (state (version s hash) true) new ≡ advance s true
  due_for s new =
      phase_of-stage hash hash s true new plain
      ∙ ap (λ b. if b then advance s true else start new) (=s_refl hash)

  waiting-Ends : (n : ℕ) (w : Worlds E) → Finished w → Ends n w
  unfolding desired_of
  waiting-Ends zero w f = (w, (refl, f))
  waiting-Ends (suc n) w (r, ((cs, (ca, cl)), at)) =
      let (w', r', d, (wanted, ((ds, (da, dl)), (at', next)))) =
        one_round w r (state hash true) wait at (due_for final (compute_backends r R).0) in
      let same : r ≡ d.route = ap Desired.route (ok-injective wanted) in
      prepend n w w' (next n) (
        waiting-Ends n w' (
          r',
          (
            (
              ds ∙ ap (λ q. q.spec) (sym same) ∙ cs,
              (
                da ∙ ap (λ q. q.annotations) (sym same) ∙ ca,
                dl ∙ ap (λ q. q.labels) (sym same) ∙ cl,
              ),
            ),
            at',
          ),
        ))

  -- A branch that desires the made route, and the waiting that follows.
  made-Ends :
      (n : ℕ) (w w' : Worlds E) (r' : HttpRoute) (d : Desired)
      → SameContent r' d.route
      → d.route ≡ made
      → Here (state hash true) w' r'
      → rounds E rule S now hash ing (suc n) w ≡ rounds E rule S now hash ing n w'
      → Ends (suc n) w
  made-Ends n w w' r' d content same at next =
      prepend n w w' next (waiting-Ends n w' (r', (subst (SameContent r') same content, at)))

  moving-Ends :
      (n : ℕ) (w : Worlds E) (r : HttpRoute)
      → Here (state (version moving hash) true) w r
      → Ends (suc n) w
  unfolding desired_of
  moving-Ends n w r at =
      let (w', r', d, (wanted, (content, (at', next)))) =
        one_round w r _ finish at (due_for moving (compute_backends r R).0) in
      let wanted' = rw sorted_made at wanted in
      made-Ends n w w' r' d content (ap Desired.route (sym (ok-injective wanted'))) at' (next n)

  probing-Ends :
      (n : ℕ) (w : Worlds E) (r : HttpRoute)
      → Here (state (version probing hash) true) w r
      → Ends (suc (suc n)) w
  probing-Ends n w r at =
      let (w', r', d, (wanted, (content, (at', next)))) =
        one_round w r _ transition at (due_for probing (compute_backends r R).0) in
      prepend (suc n) w w' (next (suc n)) (moving-Ends n w' r' at')

  started-Ends :
      (n : ℕ) (w : Worlds E) (r : HttpRoute) (probe : ProbeState) (new : List IngressBackendSplit)
      → Here probe w r
      → phase_of hash probe (compute_backends r R).0 ≡ start new
      → Ends (suc (suc (suc n))) w
  unfolding desired_of
  started-Ends n w r probe [] at due =
      let (w', r', d, (wanted, (content, (at', next)))) = one_round w r probe replace at due in
      let wanted' = rw sorted_made at wanted in
      made-Ends (suc (suc n)) w w' r' d content (ap Desired.route (sym (ok-injective wanted'))) at'
        (next (suc (suc n)))
  started-Ends n w r probe (split ∷ splits) at due =
      let (w', r', d, (wanted, (content, (at', next)))) = one_round w r probe endpoints at due in
      prepend (suc (suc n)) w w' (next (suc (suc n))) (probing-Ends n w' r' at')

  -- For an API server that accepts updates, and a prober that gives a state for backends that list
  -- a URL of the rule's visibility and whose work makes their version ready: if the lister has a
  -- route of the rule that can be probed and that the Gateways have admitted, and a stage of another
  -- hash is probed for it (the empty version of a route that is not probed included), then three
  -- reconciliations of its rule, with the work of the prober after each, or any number from there
  -- on, return without an error; the lister has the route with the spec, labels and annotations that
  -- `MakeHTTPRoute` makes; and the hash of the Ingress is the version that is probed, and ready. The
  -- two hashes start with no prefix of a stage, `MakeHTTPRoute` makes a route, and a path of the
  -- rule asks for a probe.
  pub rounds-Finished :
      (n : ℕ) (w : Worlds E) (r : HttpRoute) (old : String) (s : Stage) (ready : Bool)
      → IsPlain old
      → (old =s hash) ≡ false
      → Here (state (version s old) ready) w r
      → Ends (suc (suc (suc n))) w
  rounds-Finished n w r old s ready p differs at =
      started-Ends n w r (state (version s old) ready) (compute_backends r R).0 at (
        phase_of-stage hash old s ready (compute_backends r R).0 p
        ∙ ap (λ b. if b then advance s ready else start (compute_backends r R).0) differs)
