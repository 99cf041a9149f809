-- ===== src/Reconcile/Ingress/Settled/Rollout.antt =====
-- `ReconcileKind` of pkg/reconciler/ingress/ingress.go after the rollout of the Ingress's rule.
use mathlib.Core.Path.{subst}
use net_gateway_api.Base.{any}
use net_gateway_api.Reconcile.Backends.Requests.{visibility_of}
use net_gateway_api.Reconcile.Route.Probable.{asks_probe}
use net_gateway_api.Base.{ℕ, suc, String, ◌≡◌, sym, ap, Bool, true, false, List, [], ◌∷◌, ◌++◌, ok}
use net_gateway_api.Base.Text.{◌=s◌}
use net_gateway_api.Config.{Gateway, external_gateway, local_gateway}
use net_gateway_api.Model.Gateway.{HttpRoute}
use net_gateway_api.Model.Ingress.{Ingress, IngressRule, external_ip}
use net_gateway_api.Resources.Host.{longest_host}
use net_gateway_api.Resources.Make.{make_http_route}
use net_gateway_api.Reconcile.World.{Env, LoadBalancerIngressStatus}
use net_gateway_api.Reconcile.Route.Phases.{IsPlain, state, Stage, version}
use net_gateway_api.Reconcile.Route.Progress.{Accepts}
use net_gateway_api.Reconcile.Route.Round.{Settling, rounds, At}
use net_gateway_api.Reconcile.Route.Rounds.{Finished, rounds-Finished}
use net_gateway_api.Reconcile.Ingress.{WorldE, insert_probe, sort_hosts, reconcile_kind}
use net_gateway_api.Reconcile.Ingress.Settled.{Steady, IsSettled, AreSettled}
use net_gateway_api.Reconcile.Ingress.Settled.Addresses.{HasAddress}
use net_gateway_api.Reconcile.Ingress.Settled.Kind.{ready_marks, reconcile_kind-settled}

module _ (E : Env) (accepts : Accepts E.cluster) (rule : IngressRule)
    (S : Settling E.manager (visibility_of rule)) (now : ℕ) (hash : String) (probed : Ingress)
    (host : String) (sorted : List String) (taken : longest_host rule.hosts ≡ ok (host, sorted))
    (plain : IsPlain hash) (made : HttpRoute)
    (e : make_http_route E.kmeta E.plugin probed rule ≡ ok made)
    (probes : any asks_probe rule.paths ≡ true) where
  -- A rule whose rollout is finished is settled.
  Finished-IsSettled :
      (w : WorldE E)
      → Finished E accepts rule S now hash probed host sorted taken plain made e probes w
      → IsSettled E hash probed rule w
  Finished-IsSettled w (q, (content, (inv, (active, (h, ready))))) =
      (host, sorted, q, taken, (h.0, (ready, active)))

  -- The world after three reconciliations of the rule and some more.
  abbrev pub rolled_out : ℕ → WorldE E → WorldE E
  rolled_out n w = (rounds E rule S now hash probed (suc (suc (suc n))) w).0

  -- For an Ingress of one rule, with whose hash the probe paths are inserted: an API server that
  -- accepts updates, and a prober that says again what is ready, that gives a state for backends
  -- that list a URL of the rule's visibility, and whose work makes their version ready. If the
  -- lister has a route of the rule that can be probed and that the Gateways have admitted, and a
  -- stage of another hash is probed for it, then after three reconciliations of the rule, with the
  -- work of the prober after each, or any number from there on, once the Gateways have addresses,
  -- and where no TLS is asked for, `ReconcileKind` returns without an error and marks the network as
  -- configured and the load balancers as ready with these addresses. The two hashes start with no
  -- prefix of a stage, `MakeHTTPRoute` makes a route, and a path of the rule asks for a probe.
  pub reconcile_kind-rolled_out :
      (steady : Steady E.manager) (n : ℕ) (ing : Ingress) (ext loc : Gateway)
      (external internal : List LoadBalancerIngressStatus) (w : WorldE E) (r : HttpRoute)
      (old : String) (s : Stage) (ready : Bool)
      → IsPlain old
      → (old =s hash) ≡ false
      → At E accepts rule S now hash probed host sorted taken plain made e probes
          (state (version s old) ready)
          w
          r
      → insert_probe E ing ≡ ok (hash, probed)
      → probed.rules ≡ rule ∷ []
      → E.ingress_tls_for_visibility (sort_hosts probed) external_ip ≡ []
      → external_gateway E.plugin ≡ ok ext
      → local_gateway E.plugin ≡ ok loc
      → HasAddress E ext external (rolled_out n w).cluster
      → HasAddress E loc internal (rolled_out n w).cluster
      → (w' : WorldE E) × ((reconcile_kind E now ing (rolled_out n w) ≡ (w', ok tt))
          × (w'.marks ≡ (rolled_out n w).marks ++ ready_marks E probed external internal))
  reconcile_kind-rolled_out steady n ing ext loc external internal w r old s ready p differs at i
        one t el ll he hl =
      let (w', (o, done)) =
        rounds-Finished E accepts rule S now hash probed host sorted taken plain made e probes n w r
          old s ready p differs at in
      let settled : IsSettled E hash probed rule (rolled_out n w) =
        Finished-IsSettled (rolled_out n w) (
          subst (Finished E accepts rule S now hash probed host sorted taken plain made e probes)
            (sym (ap (λ p. p.0) o)) done) in
      let (w'', (outcome, (marks, _))) =
        reconcile_kind-settled E steady now hash ing probed ext loc external internal
          (rolled_out n w) i plain t el ll he hl
          (subst (λ rules. AreSettled E hash probed rules (rolled_out n w)) (sym one)
            (settled, tt)) in
      (w'', (outcome, marks))
