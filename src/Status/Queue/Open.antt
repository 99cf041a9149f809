-- ===== src/Status/Queue/Open.antt =====
-- `DoProbes` of pkg/status/status.go and the queue, which it leaves open.
use net_gateway_api.Base.{
  ℕ, String, ◌≡◌, refl, ◌∙◌, Option, none, some, List, [], ◌∷◌, ◌++◌, inl, inr, Bool-cases,
  Option-cases, Result-cases, Result, length,
}
use net_gateway_api.Base.Text.{◌=s◌}
use net_gateway_api.Status.Types.{ProbeTarget, ProbeState, Backends}
use net_gateway_api.Status.Prober.{
  Prober, Grouped, lookup_ip, ip_context, add_pod, add_pods, started, new_route, group_targets,
  probe_request, current_state, route_at, do_probes,
}
use net_gateway_api.Status.Events.{probes, step}

ip_context-shut_down : (ip : String) (m : Prober) → (ip_context ip m).1.shut_down ≡ m.shut_down
unfolding ip_context
ip_context-shut_down ip m = elim (Option-cases (lookup_ip ip m.pod_contexts)) [
  | inl e ↦ rw (e, ip_context) refl
  | inr (c, e) ↦ rw (e, ip_context) refl
]

add_pods-shut_down :
    (route : ℕ) (groups : Grouped) (m : Prober) → (add_pods route groups m).shut_down ≡ m.shut_down
unfolding add_pods add_pod
add_pods-shut_down route [] m = refl
add_pods-shut_down route ((ip, items) ∷ rest) m =
    add_pods-shut_down route rest (add_pod route ip items m) ∙ ip_context-shut_down ip m

started-shut_down :
    (now : ℕ) (b : Backends) (groups : Grouped) (m : Prober)
    → (started now b groups m).shut_down ≡ m.shut_down
unfolding started
started-shut_down now b groups m =
    add_pods-shut_down (length m.routes) groups
      (record m { routes = m.routes ++ new_route now b (length groups) ∷ [] })

probe_request-shut_down :
    (now : ℕ) (b : Backends) (ts : List ProbeTarget) (m : Prober)
    → (probe_request now b ts m).0.shut_down ≡ m.shut_down
unfolding probe_request
probe_request-shut_down now b ts m = started-shut_down now b (group_targets ts []) m

current_state-shut_down :
    (now : ℕ) (b : Backends) (m : Prober) → (current_state now b m).0.shut_down ≡ m.shut_down
unfolding current_state
current_state-shut_down now b m = elim (Option-cases (route_at m b.key)) [
  | inl e ↦ rw (e, current_state) refl
  | inr ((id, r), e) ↦ elim (Bool-cases (r.version =s b.version)) [
    | inl f ↦ rw (e, current_state, f) refl
    | inr f ↦ rw (e, current_state, f) refl
  ]
]

module _ (list_targets : Backends → Result (List ProbeTarget)) (now : ℕ) (b : Backends) where
  listed-shut_down :
      (m : Prober) (current : Option ProbeState)
      → (current_state now b m).1 ≡ current
      → (do_probes list_targets now b m).0.shut_down ≡ m.shut_down
  unfolding do_probes
  listed-shut_down m (some s) e = rw (do_probes, e) (current_state-shut_down now b m)
  listed-shut_down m none e = elim (Result-cases (list_targets b)) [
    | inl (ts, t) ↦
        rw (do_probes, e, t)
          (probe_request-shut_down now b ts (current_state now b m).0
            ∙ current_state-shut_down now b m)
    | inr (inl (x, t)) ↦ rw (do_probes, e, t) (current_state-shut_down now b m)
    | inr (inr (x, t)) ↦ rw (do_probes, e, t) (current_state-shut_down now b m)
  ]

  pub do_probes-shut_down :
      (m : Prober) → (step (probes list_targets now b) m).shut_down ≡ m.shut_down
  unfolding step
  do_probes-shut_down m = listed-shut_down m (current_state now b m).1 refl
