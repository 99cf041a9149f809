-- ===== src/Status/Contract/Keyed.antt =====
-- The keys of the route states that the map of pkg/status/status.go holds.
pub mod Steps
use mathlib.Core.Option.{some-injective}
use mathlib.Core.Path.{subst}
use net_gateway_api.Base.{
  ℕ, zero, suc, String, ◌≡◌, ◌≢◌, refl, sym, ap, ◌∙◌, true, false, ◌&&◌, Option, none, some, List,
  [], ◌∷◌, ◌++◌, length, get_elem?, ◌==◌, if◌then◌else◌, arith, inl, inr, Bool-cases, Option-cases,
  is_some, Result, Result-cases,
}
use net_gateway_api.Base.Int.{ℤ, pos, decrement, is_zero, is_positive}
use net_gateway_api.Base.Text.{◌=s◌}
use net_gateway_api.Model.Names.{
  NamespacedName, NamespacedName-discrete, deep_equal, deep_equal_iff,
}
use net_gateway_api.Status.Types.{ProbeTarget, Backends, Url}
use net_gateway_api.Status.Prober.{
  RouteState, WorkItem, Prober, Grouped, new_prober, modify, lookup, delete, lookup_ip,
  cancel_route, touch, current_state, do_probes, route_at, ip_context, add_pod, add_pods, new_route,
  started, group_targets, probe_request, enqueue,
}
use net_gateway_api.Status.Events.{
  calls_back, cancel_entry, cancel_round, cancel_loop, cancel_ingress_probing_by_key,
  cancel_pod_probing, finish_pod, on_probing_success, on_probing_cancellation, pod_done, join,
  notice, Transport, passes, process_item, process_work_item, Event, probes, cancel_ingress,
  cancel_pod, works, joins, notices, shuts_down, step, run,
}
use net_gateway_api.Status.Answers.{add_pods-routes}
use net_gateway_api.Status.Store.{
  get_elem?-snoc, get_elem?-last, get_elem?_end, lookup-delete, lookup-head, lookup-tail,
}
use net_gateway_api.Status.Contract.Views.{lookup-delete_own}

abbrev pub HasKey : NamespacedName → Option RouteState → Type 0
HasKey k none = ⊥
HasKey k (some r) = r.key ≡ k

abbrev pub KeyedIn : List RouteState → List (NamespacedName × ℕ) → Type 0
KeyedIn rs es = (k : NamespacedName) (id : ℕ) → lookup k es ≡ some id → HasKey k (get_elem? rs id)

-- Each entry of the map names a route state with its key.
abbrev pub IsKeyed : Prober → Type 0
IsKeyed m = KeyedIn m.routes m.route_states

modify-HasKey :
    (k : NamespacedName) (rs : List RouteState) (i : ℕ) (f : RouteState → RouteState)
    → ((r : RouteState) → (f r).key ≡ r.key)
    → (id : ℕ) → HasKey k (get_elem? rs id)
    → HasKey k (get_elem? (modify rs i f) id)
unfolding modify
modify-HasKey k [] i f e id h = h
modify-HasKey k (r ∷ rs) zero f e zero h = e r ∙ h
modify-HasKey k (r ∷ rs) zero f e (suc id) h = h
modify-HasKey k (r ∷ rs) (suc i) f e zero h = h
modify-HasKey k (r ∷ rs) (suc i) f e (suc id) h = modify-HasKey k rs i f e id h

-- A write that leaves the key of its route state.
pub modify-IsKeyed :
    (m : Prober) (i : ℕ) (f : RouteState → RouteState)
    → ((r : RouteState) → (f r).key ≡ r.key)
    → IsKeyed m
    → IsKeyed (record m { routes = modify m.routes i f })
modify-IsKeyed m i f e h k id l = modify-HasKey k m.routes i f e id (h k id l)

-- A deleted entry.
pub delete-KeyedIn :
    (key : NamespacedName) (rs : List RouteState) (es : List (NamespacedName × ℕ))
    → KeyedIn rs es
    → KeyedIn rs (delete key es)
delete-KeyedIn key rs es h k id l = elim (Bool-cases (deep_equal NamespacedName-discrete k key)) [
  | inl e ↦ absurd (gone ((deep_equal_iff NamespacedName-discrete k key).0 e))
  | inr e ↦ h k id (sym (lookup-delete k key es (apart e)) ∙ l)
]
  where
    gone : k ≡ key → ⊥
    gone e = cc (e, l, lookup-delete_own key es)

    apart : deep_equal NamespacedName-discrete k key ≡ false → k ≢ key
    apart e q = cc (e, (deep_equal_iff NamespacedName-discrete k key).1 q)

snoc-HasKey :
    (k : NamespacedName) (rs : List RouteState) (r : RouteState) (id : ℕ)
    → HasKey k (get_elem? rs id)
    → HasKey k (get_elem? (rs ++ r ∷ []) id)
snoc-HasKey k [] r id h = absurd h
snoc-HasKey k (x ∷ rs) r zero h = h
snoc-HasKey k (x ∷ rs) r (suc id) h = snoc-HasKey k rs r id h

-- A new route state with its entry.
cons-KeyedIn :
    (r : RouteState) (rs : List RouteState) (es : List (NamespacedName × ℕ))
    → KeyedIn rs es
    → KeyedIn (rs ++ r ∷ []) ((r.key, length rs) ∷ delete r.key es)
cons-KeyedIn r rs es h k id l = elim (Bool-cases (deep_equal NamespacedName-discrete r.key k)) [
  | inl e ↦
      let n : length rs ≡ id =
        some-injective (length rs) id
          (sym (lookup-head r.key k (length rs) (delete r.key es) e) ∙ l) in
      subst (λ i. HasKey k (get_elem? (rs ++ r ∷ []) i)) n
        (rw (get_elem?-last rs r) ((deep_equal_iff NamespacedName-discrete r.key k).0 e))
  | inr e ↦ snoc-HasKey k rs r id (
      delete-KeyedIn r.key rs es h k id
        (sym (lookup-tail r.key k (length rs) (delete r.key es) e) ∙ l))
]

ip_context-route_states :
    (ip : String) (m : Prober) → (ip_context ip m).1.route_states ≡ m.route_states
unfolding ip_context
ip_context-route_states ip m = ground arith

pub add_pods-route_states :
    (id : ℕ) (g : Grouped) (m : Prober) → (add_pods id g m).route_states ≡ m.route_states
unfolding add_pods add_pod
add_pods-route_states id [] m = refl
add_pods-route_states id ((ip, items) ∷ g) m =
    add_pods-route_states id g (add_pod id ip items m) ∙ ip_context-route_states ip m

-- The route states and their map after `probeRequest`.
pub probe_request-routes :
    (now : ℕ) (b : Backends) (targets : List ProbeTarget) (m : Prober)
    → let r : RouteState = new_route now b (length (group_targets targets [])) in
      let m' : Prober = (probe_request now b targets m).0 in
      (m'.routes ≡ m.routes ++ r ∷ [])
      × (m'.route_states ≡ (b.key, length m.routes) ∷ delete b.key m.route_states)
unfolding probe_request started
probe_request-routes now b targets m =
    let g : Grouped = group_targets targets [] in
    let m' : Prober = record m { routes = m.routes ++ new_route now b (length g) ∷ [] } in
    (
      add_pods-routes (length m.routes) g m',
      ap (λ es. (b.key, length m.routes) ∷ delete b.key es)
          (add_pods-route_states (length m.routes) g m'),
    )

pub probe_request-IsKeyed :
    (now : ℕ) (b : Backends) (targets : List ProbeTarget) (m : Prober)
    → IsKeyed m
    → IsKeyed (probe_request now b targets m).0
probe_request-IsKeyed now b targets m h =
    let r : RouteState = new_route now b (length (group_targets targets [])) in
    let (e, f) = probe_request-routes now b targets m in
    rw (e, f) (cons-KeyedIn r m.routes m.route_states h)
