-- ===== src/Reconcile/Route/Effects.antt =====
-- What `reconcileHTTPRouteUpdate` may do to the cluster, the prober and the status.
use net_gateway_api.Base.{
  String, ◌≡◌, refl, ap, false, Result, ok, err, panic, ◌⊎◌, inl, inr, Bool-cases,
}
use net_gateway_api.Model.Gateway.{HttpRoute}
use net_gateway_api.Model.Ingress.{Ingress, IngressRule}
use net_gateway_api.Reconcile.Backends.{probe_targets}
use net_gateway_api.Reconcile.World.{Env, World, Act, answer, follow, lift, return, ◌>>=◌}
use net_gateway_api.Reconcile.Route.{
  Phase, finish, transition, wait, endpoints, replace, Desired, desired_of, same_route, merged,
  apply_desired, run_phase, reconcile_http_route_update,
}
use net_gateway_api.Status.Types.{ProbeState, Backends}

module _ (E : Env) where
  abbrev pub Worlds : Type 0
  Worlds = World E.cluster.State E.manager.State

  -- `w'` comes from `w` by nothing, or by one update of `r` to the spec, labels and annotations of
  -- some route, and perhaps an event.
  abbrev pub Updates : HttpRoute → Worlds → Worlds → Type 0
  Updates r w w' =
      (w'.prober ≡ w.prober)
      × (w'.marks ≡ w.marks)
      × ((w' ≡ w)
          ⊎ ((desired : HttpRoute) × (same_route r desired ≡ false)
              × (w'.cluster ≡ (E.cluster.update_route (merged r desired) w.cluster).0)))

  -- What follows a value that reads nothing.
  lift-return :
      {A B : Type 0} (t : Result A) (f : A → B) (w : Worlds)
      → ((lift t >>= λ a. return (f a)) w).0 ≡ w
  lift-return (ok a) f w = refl
  lift-return (err e) f w = refl
  lift-return (panic m) f w = refl

  -- An answer of the client leaves the prober and the marks, and so does what follows it if it
  -- changes nothing.
  follow-answer :
      {A B : Type 0} (reason message : String) (w : Worlds) (p : E.cluster.State × Result A)
      (k : A → Act E.cluster.State E.manager.State B)
      → ((a : A) (w' : Worlds) → (k a w').0 ≡ w')
      → let w' : Worlds = (follow (answer reason message w p) k).0 in
        (w'.prober ≡ w.prober) × (w'.marks ≡ w.marks) × (w'.cluster ≡ p.0)
  follow-answer reason message w (s, ok a) k h =
      let e = h a (record w { cluster = s }) in
      (ap World.prober e, ap World.marks e, ap World.cluster e)
  follow-answer reason message w (s, err e) k h = (refl, refl, refl)
  follow-answer reason message w (s, panic m) k h = (refl, refl, refl)

  unchanged : (r : HttpRoute) (w w' : Worlds) → w' ≡ w → Updates r w w'
  unchanged r w w' e = (ap World.prober e, ap World.marks e, inl e)

  abbrev pub pair : HttpRoute → Backends → HttpRoute × Backends
  pair r b = (r, b)

  apply_desired-Updates :
      (ing : Ingress) (rule : IngressRule) (r : HttpRoute) (d : Desired) (w : Worlds)
      → Updates r w (apply_desired E ing rule r d w).0
  unfolding apply_desired
  apply_desired-Updates ing rule r d w = elim (Bool-cases (same_route r d.route)) [
    | inl e ↦ rw e (
        unchanged r w _
          (lift-return (probe_targets d.hash ing rule d.current) (λ t. pair d.current t) w))
    | inr e ↦
        let (p, m, c) =
          follow-answer "UpdateFailed" "failed to update HTTPRoute" w
            (E.cluster.update_route (merged r d.route) w.cluster)
            (λ updated.
              lift (probe_targets d.hash ing rule updated) >>= λ t. return (pair updated t))
            (λ updated.
              lift-return (probe_targets d.hash ing rule updated) (λ t. pair updated t)) in
        rw e (p, m, inr (d.route, e, c))
  ]

  lifted-Updates :
      (t : Result Desired) (ing : Ingress) (rule : IngressRule) (r : HttpRoute) (w : Worlds)
      → Updates r w ((lift t >>= λ d. apply_desired E ing rule r d) w).0
  lifted-Updates (ok d) ing rule r w = apply_desired-Updates ing rule r d w
  lifted-Updates (err e) ing rule r w = (refl, refl, inl refl)
  lifted-Updates (panic m) ing rule r w = (refl, refl, inl refl)

  run_phase-Updates :
      (p : Phase) (probe : ProbeState) (hash : String) (ing : Ingress) (rule : IngressRule)
      (r : HttpRoute) (w : Worlds)
      → Updates r w (run_phase E p probe hash ing rule r w).0
  unfolding run_phase
  run_phase-Updates wait probe hash ing rule r w =
      unchanged r w _ (lift-return (probe_targets probe.version ing rule r) (pair r) w)
  run_phase-Updates finish probe hash ing rule r w =
      lifted-Updates (desired_of E.kmeta E.plugin finish hash ing rule r) ing rule r w
  run_phase-Updates transition probe hash ing rule r w =
      lifted-Updates (desired_of E.kmeta E.plugin transition hash ing rule r) ing rule r w
  run_phase-Updates endpoints probe hash ing rule r w =
      lifted-Updates (desired_of E.kmeta E.plugin endpoints hash ing rule r) ing rule r w
  run_phase-Updates replace probe hash ing rule r w =
      lifted-Updates (desired_of E.kmeta E.plugin replace hash ing rule r) ing rule r w

  -- However it ends, `reconcileHTTPRouteUpdate` starts no probe and sets no condition, and it
  -- leaves the world as it is or makes one update of the route, to the spec, labels and annotations
  -- of a desired route that differs in one of these.
  pub reconcile_http_route_update-Updates :
      (hash : String) (ing : Ingress) (rule : IngressRule) (r : HttpRoute) (w : Worlds)
      → Updates r w (reconcile_http_route_update E hash ing rule r w).0
  unfolding reconcile_http_route_update
  reconcile_http_route_update-Updates hash ing rule r w = run_phase-Updates _ _ hash ing rule r w
