-- ===== src/Status/Contract/Requests.antt =====
-- `DoProbes` of pkg/status/status.go, as its callers see it.
use net_gateway_api.Base.{
  ℕ, zero, suc, ◌≡◌, ◌≢◌, refl, sym, ap, ◌∙◌, false, none, some, List, [], ◌∷◌, ◌++◌, length,
  get_elem?, ◌==◌, inl, inr, Bool-cases, Option-cases, Result, Result-cases,
}
use net_gateway_api.Model.Names.{NamespacedName}
use net_gateway_api.Status.Types.{ProbeTarget, Backends}
use net_gateway_api.Status.Prober.{
  RouteState, Prober, lookup, delete, current_state, do_probes, new_route, group_targets,
  probe_request,
}
use net_gateway_api.Status.Contract.Puts.{becomes, Becomes-twice}
use net_gateway_api.Status.Contract.{view, Becomes, state, Outdated, Requested}
use net_gateway_api.Status.Contract.Keyed.{IsKeyed, probe_request-routes}
use net_gateway_api.Status.Contract.Keyed.Steps.{current_state-IsKeyed}
use net_gateway_api.Status.Contract.Views.{shown, at, view-at}
use net_gateway_api.Model.Names.{NamespacedName-discrete, deep_equal, deep_equal_iff}
use net_gateway_api.Status.Answers.{probe_request-active}
use net_gateway_api.Status.Store.{lookup-delete, lookup-tail}
use net_gateway_api.Status.Contract.Keyed.{HasKey}
use net_gateway_api.Status.Contract.Locked.{current_state-Locked}

-- A new route state shows for no older one.
snoc-shown :
    (k : NamespacedName) (rs : List RouteState) (r : RouteState) (id : ℕ)
    → HasKey k (get_elem? rs id)
    → shown (get_elem? (rs ++ r ∷ []) id) ≡ shown (get_elem? rs id)
snoc-shown k [] r id h = absurd h
snoc-shown k (x ∷ rs) r zero h = refl
snoc-shown k (x ∷ rs) r (suc id) h = snoc-shown k rs r id h

snoc-at :
    (m : Prober) (r : RouteState) (k : NamespacedName)
    → IsKeyed m
    → at (m.routes ++ r ∷ []) (lookup k m.route_states) ≡ view m k
snoc-at m r k h = elim (Option-cases (lookup k m.route_states)) [
  | inl e ↦ rw e (sym (view-at m k ∙ rw e refl))
  | inr (id, e) ↦ rw e (snoc-shown k m.routes r id (h k id e) ∙ sym (view-at m k ∙ rw e refl))
]

probe_request-ready :
    (now : ℕ) (b : Backends) (ts : List ProbeTarget) (m : Prober)
    → (probe_request now b ts m).1 ≡ (length (group_targets ts []) == 0)
unfolding probe_request
probe_request-ready now b ts m = refl

probe_request-Becomes :
    (now : ℕ) (b : Backends) (ts : List ProbeTarget) (m : Prober)
    → IsKeyed m
    → Becomes b.key
        (some (state b.version (length (group_targets ts []) == 0)))
        (view m)
        (view (probe_request now b ts m).0)
probe_request-Becomes now b ts m h =
    becomes b.key (some (state b.version (length (group_targets ts []) == 0))) (view m)
      (view (probe_request now b ts m).0) own others
  where
    m' : Prober
    m' = (probe_request now b ts m).0

    own : view m' b.key ≡ some (state b.version (length (group_targets ts []) == 0))
    own =
        rw (probe_request-active now b ts m)
          (ap (λ r. some (state b.version r)) (probe_request-ready now b ts m))

    others : (k : NamespacedName) → k ≢ b.key → view m' k ≡ view m k
    others k d =
        let r : RouteState = new_route now b (length (group_targets ts [])) in
        let (e, f) = probe_request-routes now b ts m in
        view-at m' k
        ∙ rw (e, f)
            (ap (at (m.routes ++ r ∷ [])) (
              lookup-tail b.key k (length m.routes) (delete b.key m.route_states) (apart k d)
              ∙ lookup-delete k b.key m.route_states d))
        ∙ snoc-at m r k h
      where
        apart :
            (k : NamespacedName) → k ≢ b.key → deep_equal NamespacedName-discrete b.key k ≡ false
        apart k d = elim (Bool-cases (deep_equal NamespacedName-discrete b.key k)) [
          | inl e ↦ absurd (d (sym ((deep_equal_iff NamespacedName-discrete b.key k).0 e)))
          | inr e ↦ e
        ]

-- The targets of a version that is not active.
listed-Requested :
    (list_targets : Backends → Result (List ProbeTarget)) (now : ℕ) (b : Backends) (m : Prober)
    → IsKeyed m
    → (current_state now b m).1 ≡ none
    → Outdated b (view m)
    → Becomes b.key none (view m) (view (current_state now b m).0)
    → Requested list_targets b (view m) (view (do_probes list_targets now b m).0)
unfolding do_probes
listed-Requested list_targets now b m h e d c = elim (Result-cases (list_targets b)) [
  | inl (ts, t) ↦
      rw (do_probes, e, t)
        (inr (
          inl (
            d,
            (
              ts,
              (
                refl,
                Becomes-twice b.key none _ (view m) (view (current_state now b m).0) _ c (
                    probe_request-Becomes now b ts (current_state now b m).0
                      (current_state-IsKeyed now b m h)),
              ),
            ),
          )))
  | inr (inl (x, t)) ↦ rw (do_probes, e, t) (inr (inr (d, (refl, c))))
  | inr (inr (x, t)) ↦ rw (do_probes, e, t) (inr (inr (d, (refl, c))))
]

pub do_probes-Requested :
    (list_targets : Backends → Result (List ProbeTarget)) (now : ℕ) (b : Backends) (m : Prober)
    → IsKeyed m
    → Requested list_targets b (view m) (view (do_probes list_targets now b m).0)
unfolding do_probes
do_probes-Requested list_targets now b m h = elim (current_state-Locked now b m) [
  | inl (ready, (a, (e, c))) ↦ rw (do_probes, e) (inl (ready, (a, c)))
  | inr (d, (e, c)) ↦ listed-Requested list_targets now b m h e d c
]
