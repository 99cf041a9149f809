-- ===== src/Reconcile/Route/Progress.antt =====
-- A reconciliation by `reconcileHTTPRoute` of a route that exists, where the API server accepts
-- the update.
use mathlib.Core.Path.{subst}
use net_gateway_api.Base.{any}
use net_gateway_api.Reconcile.Backends.Requests.{visibility_of}
use net_gateway_api.Reconcile.Backends.Listing.{Lists, probe_targets-Lists}
use net_gateway_api.Base.{
  String, ◌≡◌, refl, sym, ap, ◌∙◌, true, List, Result, ok, inl, inr, Bool-cases, arith,
}
use net_gateway_api.Model.Names.{NamespacedName, deep_equal_iff}
use net_gateway_api.Model.Gateway.{HttpRoute, HttpRouteSpec-discrete, StringMap-discrete}
use net_gateway_api.Model.Ingress.{Ingress, IngressRule}
use net_gateway_api.Resources.Host.{longest_host}
use net_gateway_api.Resources.Host.Greatest.{longest_host_again}
use net_gateway_api.Resources.Make.{make_http_route, http_route_key}
use net_gateway_api.Reconcile.Backends.{compute_backends, probe_targets}
use net_gateway_api.Reconcile.Backends.Paths.{
  is_probed, IsProbed, IsProbable, AsksFor, probe_targets-Asks,
}
use net_gateway_api.Reconcile.World.{return, Cluster, Env, found, lift, ◌>>=◌}
use net_gateway_api.Reconcile.Route.{
  Phase, finish, transition, wait, endpoints, replace, Desired, desired_of, same_route, merged,
  phase_of, apply_desired, run_phase, reconcile_http_route_update, reconcile_http_route,
}
use net_gateway_api.Reconcile.Route.Effects.{Worlds, pair}
use net_gateway_api.Reconcile.Route.Phases.{version, stage_of, desired_of-hash}
use net_gateway_api.Reconcile.Route.Probable.{desired_of-IsProbed, asks_probe}
use net_gateway_api.Status.Types.{Backends, ProbeState}

-- The API server accepts an update of a route that exists, and the lister has the answer.
pub record Accepts (C : Cluster) : Type 0 where
  pub update_route :
      (r q : HttpRoute) (s : C.State)
      → C.get_route r.namespace r.name s ≡ found q
      → (s' : C.State) × ((C.update_route r s ≡ (s', ok r))
          × (C.get_route r.namespace r.name s' ≡ found r))

-- The parts of a route that the controller writes.
abbrev pub SameContent : HttpRoute → HttpRoute → Type 0
SameContent r q = (r.spec ≡ q.spec) × ((r.annotations ≡ q.annotations) × (r.labels ≡ q.labels))

same_route-SameContent : (r q : HttpRoute) → same_route r q ≡ true → SameContent r q
unfolding same_route
same_route-SameContent r q h =
    let spec = deep_equal_iff HttpRouteSpec-discrete r.spec q.spec in
    let annotations = deep_equal_iff StringMap-discrete r.annotations q.annotations in
    let labels = deep_equal_iff StringMap-discrete r.labels q.labels in ground arith

-- The version that a branch asks to probe.
abbrev pub asked : Phase → String → ProbeState → String
asked finish hash probe = version (stage_of finish) hash
asked transition hash probe = version (stage_of transition) hash
asked wait hash probe = probe.version
asked endpoints hash probe = version (stage_of endpoints) hash
asked replace hash probe = version (stage_of replace) hash

module _ (E : Env) (ing : Ingress) (rule : IngressRule) (host : String) (sorted : List String)
    (taken : longest_host rule.hosts ≡ ok (host, sorted)) where
  abbrev pub key : NamespacedName
  key = record { namespace = ing.namespace; name = host }

  abbrev pub sorted_rule : IngressRule
  sorted_rule = record rule { hosts = sorted }

  -- The lister has this route under the rule's name, and the route can be probed.
  abbrev pub Holds : Worlds E → HttpRoute → Type 0
  Holds w r =
      (E.cluster.get_route ing.namespace host w.cluster ≡ found r)
      × ((r.namespace ≡ ing.namespace) × ((r.name ≡ host) × IsProbable r.spec))

  -- And one of its rules may be asked for.
  abbrev pub HoldsProbed : Worlds E → HttpRoute → Type 0
  HoldsProbed w r = Holds w r × (any is_probed r.spec.rules ≡ true)

  -- A request for a version of the rule that lists some URL.
  abbrev pub Wants : String → Backends → Type 0
  Wants v b = AsksFor key v b × Lists (visibility_of rule) b

  -- An outcome: a request for a version, and a route with the content of another one and the status
  -- of the one that was found.
  abbrev pub Done :
      HttpRoute → String → HttpRoute → Worlds E → Worlds E × Result (HttpRoute × Backends) → Type 0
  Done old v content w o =
      (w' : Worlds E) × (x : HttpRoute) × (b : Backends) × (r : HttpRoute) × ((o ≡ (w', ok (x, b)))
        × (Wants v b
            × ((w'.prober ≡ w.prober)
                × ((HoldsProbed w' r × SameContent r content)
                    × ((x.parents ≡ old.parents) × (r.parents ≡ old.parents))))))

  key_of_sorted : http_route_key ing sorted_rule ≡ ok key
  unfolding http_route_key
  key_of_sorted = rw (http_route_key, longest_host_again rule.hosts taken) refl

  named :
      (r : HttpRoute) (s : E.cluster.State)
      → r.namespace ≡ ing.namespace
      → r.name ≡ host
      → E.cluster.get_route r.namespace r.name s ≡ E.cluster.get_route ing.namespace host s
  named r s n m =
      ap (λ t. E.cluster.get_route t r.name s) n ∙ ap (λ t. E.cluster.get_route ing.namespace t s) m

  reconcile_by_key :
      (hash : String) (r : HttpRoute) (w : Worlds E) (k : NamespacedName)
      → record { namespace = r.namespace; name = r.name } ≡ k
      → reconcile_http_route_update E hash ing sorted_rule r w
        ≡ run_phase E
            (phase_of hash
              (E.manager.is_probe_active k w.prober).0
              (compute_backends r sorted_rule).0)
            (E.manager.is_probe_active k w.prober).0
            hash
            ing
            sorted_rule
            r
            w
  unfolding reconcile_http_route_update
  reconcile_by_key hash r w k e =
      ap
        (λ (k : NamespacedName).
          let probe = (E.manager.is_probe_active k w.prober).0 in
          run_phase E (phase_of hash probe (compute_backends r sorted_rule).0) probe hash ing
            sorted_rule r w)
        e

  -- `reconcileHTTPRoute`, where the lister has the route.
  pub reconcile_found :
      (hash : String) (r : HttpRoute) (w : Worlds E)
      → Holds w r
      → reconcile_http_route E hash ing rule w
        ≡ run_phase E
            (phase_of hash
              (E.manager.is_probe_active key w.prober).0
              (compute_backends r sorted_rule).0)
            (E.manager.is_probe_active key w.prober).0
            hash
            ing
            sorted_rule
            r
            w
  unfolding reconcile_http_route
  reconcile_found hash r w (g, (n, (m, p))) =
      rw (taken, reconcile_http_route, g) (reconcile_by_key hash r w key (cc (n, m)))

  -- The branch that waits asks to probe the version that it found, and changes nothing.
  pub run_phase-wait :
      (hash : String) (r : HttpRoute) (w : Worlds E) (probe : ProbeState)
      → Holds w r
      → (b : Backends) × ((run_phase E wait probe hash ing sorted_rule r w ≡ (w, ok (r, b)))
          × AsksFor key probe.version b)
  unfolding run_phase
  run_phase-wait hash r w probe (g, (n, (m, p))) =
      let (b, (t, a)) = probe_targets-Asks probe.version ing sorted_rule r key key_of_sorted p in
      (b, (ap (λ t. (lift t >>= λ targets. return (pair E r targets)) w) t, a))

  probe_targets-Wants :
      (hash : String) (r : HttpRoute)
      → IsProbed r.spec
      → (b : Backends) × ((probe_targets hash ing sorted_rule r ≡ ok b) × Wants hash b)
  probe_targets-Wants hash r p =
      let (b, (t, a)) = probe_targets-Asks hash ing sorted_rule r key key_of_sorted p.0 in
      (b, (t, (a, probe_targets-Lists hash ing sorted_rule r b p t)))

  module _ (accepts : Accepts E.cluster) where
    apply_desired-Done :
        (r : HttpRoute) (d : Desired) (w : Worlds E)
        → HoldsProbed w r
        → IsProbed d.route.spec
        → IsProbed d.current.spec
        → d.current.parents ≡ r.parents
        → Done r d.hash d.route w (apply_desired E ing sorted_rule r d w)
    unfolding apply_desired merged
    apply_desired-Done r d w h pr pc q =
        let ((g, (n, (m, p))), probed) = h in
        elim (Bool-cases (same_route r d.route)) [
          | inl e ↦
              let (b, (t, a)) = probe_targets-Wants d.hash d.current pc in
              rw (e, t)
                (
                  w,
                  d.current,
                  b,
                  r,
                  (refl, (a, (refl, ((h, same_route-SameContent r d.route e), (q, refl))))),
                )
          | inr e ↦
              let new : HttpRoute = merged r d.route in
              let (b, (t, a)) = probe_targets-Wants d.hash new pr in
              let (s, (u, v)) = accepts.update_route new r w.cluster (named r w.cluster n m ∙ g) in
              rw (e, u, t)
                (
                  record w { cluster = s },
                  new,
                  b,
                  new,
                  (
                    refl,
                    (
                      a,
                      (
                        refl,
                        (
                          (((sym (named r s n m) ∙ v, (n, (m, pr.0))), pr.1), (refl, (refl, refl))),
                          (refl, refl),
                        ),
                      ),
                    ),
                  ),
                )
        ]

    module _ (hash : String) (r made : HttpRoute) (w : Worlds E)
        (e : make_http_route E.kmeta E.plugin ing sorted_rule ≡ ok made)
        (probes : any asks_probe rule.paths ≡ true) (h : HoldsProbed w r) where
      abbrev Runs : Phase → ProbeState → Type 0
      Runs p probe =
          (d : Desired) × ((desired_of E.kmeta E.plugin p hash ing sorted_rule r ≡ ok d)
            × Done r (asked p hash probe) d.route w (run_phase E p probe hash ing sorted_rule r w))

      current-IsProbed : IsProbed r.spec
      current-IsProbed = let ((g, (n, (m, p))), probed) = h in (p, probed)

      desired-Done :
          (p : Phase)
          → (d : Desired) × ((desired_of E.kmeta E.plugin p hash ing sorted_rule r ≡ ok d)
              × Done r (version (stage_of p) hash) d.route w (
                  (lift (desired_of E.kmeta E.plugin p hash ing sorted_rule r) >>= λ d.
                  apply_desired E ing sorted_rule r d)
                    w))
      desired-Done p =
          let (d, (wanted, (pr, (pc, q)))) =
            desired_of-IsProbed E.kmeta E.plugin ing sorted_rule probes p hash r made e
              current-IsProbed in
          (
            d,
            (
              wanted,
              subst
                  (λ t.
                    Done r (version (stage_of p) hash) d.route w
                      ((lift t >>= λ d. apply_desired E ing sorted_rule r d) w))
                  (sym wanted)
                  (subst (λ v. Done r v d.route w (apply_desired E ing sorted_rule r d w))
                    (desired_of-hash E.kmeta E.plugin p hash ing sorted_rule r d wanted)
                    (apply_desired-Done r d w h pr pc q)),
            ),
          )

      -- Where the route can be made, a branch asks to probe its version, and the lister then has a
      -- route with the content that the branch desires.
      pub run_phase-Runs : (p : Phase) (probe : ProbeState) → Runs p probe
      unfolding run_phase desired_of
      run_phase-Runs finish probe = desired-Done finish
      run_phase-Runs transition probe = desired-Done transition
      run_phase-Runs endpoints probe = desired-Done endpoints
      run_phase-Runs replace probe = desired-Done replace
      run_phase-Runs wait probe =
          let (b, (t, a)) = probe_targets-Wants probe.version r current-IsProbed in
          (
            record { hash = hash; route = r; current = r },
            (
              refl,
              (
                w,
                r,
                b,
                r,
                (
                  ap (λ t. (lift t >>= λ targets. return (pair E r targets)) w) t,
                  (a, (refl, ((h, (refl, (refl, refl))), (refl, refl)))),
                ),
              ),
            ),
          )
