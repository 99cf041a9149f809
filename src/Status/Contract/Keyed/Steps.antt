-- ===== src/Status/Contract/Keyed/Steps.antt =====
-- The keys of the route states of pkg/status/status.go after each event.
use net_gateway_api.Base.{
  ℕ, String, ◌≡◌, refl, true, false, ◌&&◌, List, [], ◌∷◌, get_elem?, inl, inr, Bool-cases,
  Option-cases, is_some, Result, Result-cases,
}
use net_gateway_api.Base.Int.{decrement, is_zero, is_positive}
use net_gateway_api.Base.Text.{◌=s◌}
use net_gateway_api.Model.Names.{NamespacedName}
use net_gateway_api.Status.Types.{ProbeTarget, Backends}
use net_gateway_api.Status.Prober.{
  WorkItem, Prober, new_prober, lookup, lookup_ip, cancel_route, touch, current_state, do_probes,
  route_at,
}
use net_gateway_api.Status.Events.{
  calls_back, cancel_entry, cancel_round, cancel_loop, cancel_ingress_probing_by_key,
  cancel_pod_probing, finish_pod, on_probing_success, on_probing_cancellation, pod_done, join,
  notice, Transport, passes, process_item, process_work_item, Event, probes, cancel_ingress,
  cancel_pod, works, joins, notices, shuts_down, step, run,
}
use net_gateway_api.Status.Contract.Keyed.{
  IsKeyed, modify-IsKeyed, delete-KeyedIn, probe_request-IsKeyed,
}

finish_pod-IsKeyed : (id : ℕ) (m : Prober) → IsKeyed m → IsKeyed (finish_pod id m)
unfolding finish_pod
finish_pod-IsKeyed id m h = elim (Option-cases (get_elem? m.routes id)) [
  | inl e ↦ rw (e, finish_pod) h
  | inr (r, e) ↦ rw (e, finish_pod) (modify-IsKeyed m id _ (λ r. refl) h)
]

on_probing_success-IsKeyed : (p : ℕ) (m : Prober) → IsKeyed m → IsKeyed (on_probing_success p m)
unfolding on_probing_success
on_probing_success-IsKeyed p m h = elim (Option-cases (get_elem? m.pods p)) [
  | inl e ↦ rw (e, on_probing_success) h
  | inr (pod, e) ↦ elim (Bool-cases (is_zero (decrement pod.pending_count))) [
    | inl z ↦ rw (e, on_probing_success, z) (finish_pod-IsKeyed pod.route _ h)
    | inr z ↦ rw (e, on_probing_success, z) h
  ]
]

on_probing_cancellation-IsKeyed :
    (p : ℕ) (m : Prober) → IsKeyed m → IsKeyed (on_probing_cancellation p m)
unfolding on_probing_cancellation
on_probing_cancellation-IsKeyed p m h = elim (Option-cases (get_elem? m.pods p)) [
  | inl e ↦ rw (e, on_probing_cancellation) h
  | inr (pod, e) ↦ elim (Bool-cases (is_positive pod.pending_count)) [
    | inl z ↦ rw (e, on_probing_cancellation, z) (finish_pod-IsKeyed pod.route _ h)
    | inr z ↦ rw (e, on_probing_cancellation, z) h
  ]
]

cancel_round-IsKeyed :
    (key k : NamespacedName) (id : ℕ) (m : Prober) → IsKeyed m → IsKeyed (cancel_round key k id m)
unfolding cancel_round cancel_entry cancel_route
cancel_round-IsKeyed key k id m h =
    elim (Bool-cases (is_some (lookup k m.route_states) && calls_back key id m)) [
      | inl e ↦ rw e (delete-KeyedIn key _ m.route_states (modify-IsKeyed m id _ (λ r. refl) h))
      | inr e ↦ rw e h
    ]

cancel_loop-IsKeyed :
    (key : NamespacedName) (es : List (NamespacedName × ℕ)) (m : Prober)
    → IsKeyed m
    → IsKeyed (cancel_loop key es m)
unfolding cancel_loop
cancel_loop-IsKeyed key [] m h = h
cancel_loop-IsKeyed key ((k, id) ∷ es) m h =
    cancel_loop-IsKeyed key es (cancel_round key k id m) (cancel_round-IsKeyed key k id m h)

-- Neither the pods nor the contexts of IPs matter.
pub join-routes :
    (p : ℕ) (m : Prober)
    → ((join p m).routes ≡ m.routes) × ((join p m).route_states ≡ m.route_states)
unfolding join
join-routes p m = elim (Option-cases (get_elem? m.pods p)) [
  | inl e ↦ rw (e, join) (refl, refl)
  | inr (pod, e) ↦ elim (Option-cases (get_elem? m.contexts pod.ip_context)) [
    | inl f ↦ rw (e, join, f) (refl, refl)
    | inr (true, f) ↦ rw (e, join, f) (refl, refl)
    | inr (false, f) ↦ rw (e, join, f) (refl, refl)
  ]
]

pub cancel_pod_probing-routes :
    (ip : String) (m : Prober)
    → ((cancel_pod_probing ip m).routes ≡ m.routes)
      × ((cancel_pod_probing ip m).route_states ≡ m.route_states)
unfolding cancel_pod_probing
cancel_pod_probing-routes ip m = elim (Option-cases (lookup_ip ip m.pod_contexts)) [
  | inl e ↦ rw (e, cancel_pod_probing) (refl, refl)
  | inr (c, e) ↦ rw (e, cancel_pod_probing) (refl, refl)
]

pub current_state-IsKeyed :
    (now : ℕ) (b : Backends) (m : Prober) → IsKeyed m → IsKeyed (current_state now b m).0
unfolding current_state touch cancel_route
current_state-IsKeyed now b m h = elim (Option-cases (route_at m b.key)) [
  | inl e ↦ rw (e, current_state) h
  | inr ((id, r), e) ↦ elim (Bool-cases (r.version =s b.version)) [
    | inl v ↦ rw (e, current_state, v) (modify-IsKeyed m id _ (λ r. refl) h)
    | inr v ↦
        rw (e, current_state, v)
          (delete-KeyedIn b.key _ m.route_states (modify-IsKeyed m id _ (λ r. refl) h))
  ]
]

do_probes-IsKeyed :
    (list_targets : Backends → Result (List ProbeTarget)) (now : ℕ) (b : Backends) (m : Prober)
    → IsKeyed m
    → IsKeyed (do_probes list_targets now b m).0
unfolding do_probes
do_probes-IsKeyed list_targets now b m h =
    let k = current_state-IsKeyed now b m h in
    elim (Option-cases (current_state now b m).1) [
      | inr (s, e) ↦ rw (do_probes, e) k
      | inl e ↦ elim (Result-cases (list_targets b)) [
        | inl (ts, t) ↦
            rw (do_probes, e, t) (probe_request-IsKeyed now b ts (current_state now b m).0 k)
        | inr (inl (x, t)) ↦ rw (do_probes, e, t) k
        | inr (inr (x, t)) ↦ rw (do_probes, e, t) k
      ]
    ]

process_item-IsKeyed :
    (T : Transport) (item : WorkItem) (m : Prober) → IsKeyed m → IsKeyed (process_item T item m)
unfolding process_item
process_item-IsKeyed T item m h = elim (Bool-cases (pod_done item.pod m)) [
  | inl e ↦ rw e h
  | inr e ↦ elim (Bool-cases (passes T item m)) [
    | inl f ↦ rw (e, f) (on_probing_success-IsKeyed item.pod m h)
    | inr f ↦ rw (e, f) h
  ]
]

work-IsKeyed :
    (T : Transport) (m : Prober) (items : List WorkItem)
    → m.work_queue ≡ items
    → IsKeyed m
    → IsKeyed (process_work_item T m).0
unfolding process_work_item
work-IsKeyed T m [] e h = rw (e, process_work_item) h
work-IsKeyed T m (item ∷ rest) e h =
    rw (e, process_work_item) (process_item-IsKeyed T item (record m { work_queue = rest }) h)

notice-IsKeyed : (p : ℕ) (m : Prober) → IsKeyed m → IsKeyed (notice p m)
unfolding notice
notice-IsKeyed p m h = elim (Bool-cases (pod_done p m)) [
  | inl e ↦ rw e (on_probing_cancellation-IsKeyed p m h)
  | inr e ↦ rw e h
]

same-IsKeyed :
    (m m' : Prober)
    → (m'.routes ≡ m.routes) × (m'.route_states ≡ m.route_states)
    → IsKeyed m
    → IsKeyed m'
same-IsKeyed m m' (e, f) h = rw (e, f) h

pub step-IsKeyed : (e : Event) (m : Prober) → IsKeyed m → IsKeyed (step e m)
unfolding step cancel_ingress_probing_by_key
step-IsKeyed (probes list_targets now b) m h = do_probes-IsKeyed list_targets now b m h
step-IsKeyed (cancel_ingress key) m h = cancel_loop-IsKeyed key m.route_states m h
step-IsKeyed (cancel_pod ip) m h =
    same-IsKeyed m (cancel_pod_probing ip m) (cancel_pod_probing-routes ip m) h
step-IsKeyed (works T) m h = work-IsKeyed T m m.work_queue refl h
step-IsKeyed (joins p) m h = same-IsKeyed m (join p m) (join-routes p m) h
step-IsKeyed (notices p) m h = notice-IsKeyed p m h
step-IsKeyed shuts_down m h = h

run_from-IsKeyed : (es : List Event) (m : Prober) → IsKeyed m → IsKeyed (run es m)
unfolding run
run_from-IsKeyed [] m h = h
run_from-IsKeyed (e ∷ es) m h = run_from-IsKeyed es (step e m) (step-IsKeyed e m h)

-- After any events the map holds route states under their own keys.
pub run-IsKeyed : (es : List Event) → IsKeyed (run es new_prober)
unfolding new_prober lookup
run-IsKeyed es = run_from-IsKeyed es new_prober (λ k id h. cc h)
