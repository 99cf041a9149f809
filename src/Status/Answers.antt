-- ===== src/Status/Answers.antt =====
-- What `DoProbes` and `IsProbeActive` of pkg/status/status.go answer.
use mathlib.Core.Path.{subst}
use net_gateway_api.Base.{
  ℕ, suc, zero, String, ◌≡◌, refl, ap, ◌∙◌, true, false, none, some, List, [], ◌∷◌, ◌++◌, length,
  get_elem?, ◌==◌, arith, ◌⊎◌, inl, inr, Bool-cases, Option-cases, Result-cases, Result, ok, err,
  panic,
}
use net_gateway_api.Base.Int.{pos, is_zero}
use net_gateway_api.Base.Text.{◌=s◌, =s_iff}
use net_gateway_api.Model.Names.{NamespacedName}
use net_gateway_api.Status.Types.{ProbeTarget, ProbeState, Backends}
use net_gateway_api.Status.Prober.{
  RouteState, Prober, delete, current_state, route_at, is_probe_active, state_of, Grouped,
  new_route, started, touch, group_targets, ip_context, add_pod, add_pods, probe_request, do_probes,
}
use net_gateway_api.Status.Keys.{Holds, route_at-inv, route_at-Holds, is_probe_active-at}
use net_gateway_api.Status.Store.{get_elem?-modify, get_elem?-last, lookup-cons}

ip_context-routes : (ip : String) (m : Prober) → (ip_context ip m).1.routes ≡ m.routes
unfolding ip_context
ip_context-routes ip m = ground arith

pub add_pods-routes : (id : ℕ) (g : Grouped) (m : Prober) → (add_pods id g m).routes ≡ m.routes
unfolding add_pods add_pod
add_pods-routes id [] m = refl
add_pods-routes id ((ip, items) ∷ g) m =
    add_pods-routes id g (add_pod id ip items m) ∙ ip_context-routes ip m

is_zero-pos : (n : ℕ) → is_zero (pos n) ≡ (n == 0)
is_zero-pos zero = refl
is_zero-pos (suc n) = ground arith

started-route :
    (now : ℕ) (b : Backends) (g : Grouped) (m : Prober)
    → get_elem? (started now b g m).routes (length m.routes) ≡ some (new_route now b (length g))
unfolding started
started-route now b g m =
    ap (λ rs. get_elem? rs (length m.routes))
      (add_pods-routes (length m.routes) g
        (record m { routes = m.routes ++ new_route now b (length g) ∷ [] }))
    ∙ get_elem?-last m.routes (new_route now b (length g))

-- A probe request is active at once, with the answer that it gives.
pub probe_request-active :
    (now : ℕ) (b : Backends) (targets : List ProbeTarget) (m : Prober)
    → let (m', ready) = probe_request now b targets m in
      is_probe_active b.key m' ≡ (record { version = b.version; ready = ready }, true)
unfolding probe_request
probe_request-active now b targets m =
    let g : Grouped = group_targets targets [] in
    is_probe_active-at b.key _ (length m.routes) (new_route now b (length g)) (
      route_at-Holds b.key _ (length m.routes) (new_route now b (length g)) (
        lookup-cons b.key (length m.routes) (delete b.key (started now b g m).route_states),
        started-route now b g m,
      ))
    ∙ ap (λ r. (record { version = b.version; ready = r }, true)) (is_zero-pos (length g))

touch-Holds :
    (now : ℕ) (k : NamespacedName) (id : ℕ) (r : RouteState) (m : Prober)
    → Holds k id r m
    → Holds k id (record r { last_accessed = now }) (touch now id m)
unfolding touch
touch-Holds now k id r m (h, g) =
    (h, get_elem?-modify m.routes id id (λ r. record r { last_accessed = now }) ∙ ground (arith, g))

pub current_state-same :
    (now : ℕ) (b : Backends) (m : Prober) (id : ℕ) (r : RouteState)
    → route_at m b.key ≡ some (id, r)
    → (r.version =s b.version) ≡ true
    → current_state now b m ≡ (touch now id m, some (state_of r))
unfolding current_state
current_state-same now b m id r h e = rw (h, current_state, e)

current_state-other :
    (now : ℕ) (b : Backends) (m : Prober) (id : ℕ) (r : RouteState)
    → route_at m b.key ≡ some (id, r)
    → (r.version =s b.version) ≡ false
    → (current_state now b m).1 ≡ none
unfolding current_state
current_state-other now b m id r h e = rw (h, current_state, e)

current_state-new :
    (now : ℕ) (b : Backends) (m : Prober)
    → route_at m b.key ≡ none
    → (current_state now b m).1 ≡ none
unfolding current_state
current_state-new now b m h = rw (h, current_state)

-- What `DoProbes` finds under the lock.
current_state-cases :
    (now : ℕ) (b : Backends) (m : Prober)
    → ((current_state now b m).1 ≡ none)
      ⊎ ((id : ℕ) × (r : RouteState) × (route_at m b.key ≡ some (id, r))
          × ((r.version =s b.version) ≡ true))
current_state-cases now b m = elim (Option-cases (route_at m b.key)) [
  | inl e ↦ inl (current_state-new now b m e)
  | inr ((id, r), e) ↦ elim (Bool-cases (r.version =s b.version)) [
    | inl v ↦ inr (id, r, e, v)
    | inr v ↦ inl (current_state-other now b m id r e v)
  ]
]

-- Where a probe of the version is active, `DoProbes` answers with its state, ready or not, without
-- asking for targets, and changes nothing but the time of the last access.
pub do_probes-same :
    (list_targets : Backends → Result (List ProbeTarget)) (now : ℕ) (b : Backends) (m : Prober)
    (id : ℕ) (r : RouteState)
    → route_at m b.key ≡ some (id, r)
    → r.version ≡ b.version
    → do_probes list_targets now b m ≡ (touch now id m, ok (state_of r))
unfolding do_probes
do_probes-same list_targets now b m id r h e =
    let c : current_state now b m ≡ (touch now id m, some (state_of r)) =
      current_state-same now b m id r h ((=s_iff r.version b.version).1 e) in
    rw (do_probes, c) (ap (λ p. (p.0, ok (state_of r))) c)

Agrees : Backends → Prober × Result ProbeState → Type 0
Agrees b (m', ok s) = (is_probe_active b.key m' ≡ (s, true)) × (s.version ≡ b.version)
Agrees b (m', err e) = Unit
Agrees b (m', panic e) = Unit

do_probes-new :
    (list_targets : Backends → Result (List ProbeTarget)) (now : ℕ) (b : Backends) (m : Prober)
    → (current_state now b m).1 ≡ none
    → Agrees b (do_probes list_targets now b m)
unfolding do_probes Agrees
do_probes-new list_targets now b m e = elim (Result-cases (list_targets b)) [
  | inl (ts, t) ↦
      rw (do_probes, e, t) (probe_request-active now b ts (current_state now b m).0, refl)
  | inr (inl (x, t)) ↦ rw (do_probes, e, t) tt
  | inr (inr (x, t)) ↦ rw (do_probes, e, t) tt
]

do_probes-Agrees :
    (list_targets : Backends → Result (List ProbeTarget)) (now : ℕ) (b : Backends) (m : Prober)
    → Agrees b (do_probes list_targets now b m)
unfolding Agrees
do_probes-Agrees list_targets now b m = elim (current_state-cases now b m) [
  | inl e ↦ do_probes-new list_targets now b m e
  | inr (id, r, h, v) ↦
      let e : r.version ≡ b.version = (=s_iff r.version b.version).0 v in
      rw (do_probes-same list_targets now b m id r h e) (
        is_probe_active-at b.key (touch now id m) id (record r { last_accessed = now })
            (route_at-Holds b.key (touch now id m) id (record r { last_accessed = now })
              (touch-Holds now b.key id r m (route_at-inv b.key m id r h))),
        e,
      )
]

-- A state that `DoProbes` gives has the version of the backends, and it is what `IsProbeActive`
-- answers for their key right after the call.
pub do_probes-is_probe_active :
    (list_targets : Backends → Result (List ProbeTarget)) (now : ℕ) (b : Backends) (m m' : Prober)
    (s : ProbeState)
    → do_probes list_targets now b m ≡ (m', ok s)
    → (is_probe_active b.key m' ≡ (s, true)) × (s.version ≡ b.version)
unfolding Agrees
do_probes-is_probe_active list_targets now b m m' s h =
    subst (Agrees b) h (do_probes-Agrees list_targets now b m)

-- Where the targets can be listed, `DoProbes` gives a state.
pub do_probes-ok :
    (list_targets : Backends → Result (List ProbeTarget)) (now : ℕ) (b : Backends) (m : Prober)
    (ts : List ProbeTarget)
    → list_targets b ≡ ok ts
    → (m' : Prober) × (s : ProbeState) × (do_probes list_targets now b m ≡ (m', ok s))
unfolding do_probes
do_probes-ok list_targets now b m ts t = elim (current_state-cases now b m) [
  | inl e ↦ rw (do_probes, e, t) (_, _, refl)
  | inr (id, r, h, v) ↦ (
    touch now id m,
    state_of r,
    do_probes-same list_targets now b m id r h ((=s_iff r.version b.version).0 v),
  )
]
