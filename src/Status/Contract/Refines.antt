-- ===== src/Status/Contract/Refines.antt =====
-- The events of pkg/status/status.go against the contract of the prober.
use net_gateway_api.Base.{
  ℕ, ◌≡◌, refl, ◌∙◌, true, ◌&&◌, none, List, [], ◌∷◌, ◌⊎◌, inl, inr, Bool-cases, is_some,
}
use net_gateway_api.Model.Names.{NamespacedName}
use net_gateway_api.Status.Prober.{
  WorkItem, Prober, new_prober, lookup, cancel_route, is_probe_active, route_at,
}
use net_gateway_api.Status.Events.{
  calls_back, join, cancel_pod_probing, cancel_entry, cancel_round, cancel_loop,
  cancel_ingress_probing_by_key, pod_done, notice, Transport, passes, process_item,
  process_work_item, Event, probes, cancel_ingress, cancel_pod, works, joins, notices, shuts_down,
  step, run,
}
use net_gateway_api.Status.Counters.{IsCounted}
use net_gateway_api.Status.Counters.Runs.{run-CountsOf}
use net_gateway_api.Status.Contract.Puts.{becomes, Becomes-own, Becomes-other, Becomes-twice}
use net_gateway_api.Status.Contract.{view, Stays, Becomes, GetsReady, Spec}
use net_gateway_api.Status.Contract.Keyed.{IsKeyed}
use net_gateway_api.Status.Contract.Keyed.Steps.{
  join-routes, cancel_pod_probing-routes, run-IsKeyed,
}
use net_gateway_api.Status.Contract.Views.{at-modify, same-Stays, delete-Becomes}
use net_gateway_api.Status.Contract.Requests.{do_probes-Requested}
use net_gateway_api.Status.Contract.Ends.{
  Ends, Announces-GetsReady, on_probing_success-Ends, on_probing_cancellation-Ends,
}

process_item-Ends :
    (T : Transport) (item : WorkItem) (m : Prober)
    → IsCounted m
    → IsKeyed m
    → Ends m (process_item T item m)
unfolding process_item is_probe_active route_at
process_item-Ends T item m c h = elim (Bool-cases (pod_done item.pod m)) [
  | inl e ↦ rw e (inl (λ k. refl))
  | inr e ↦ elim (Bool-cases (passes T item m)) [
    | inl f ↦ rw (e, f) (on_probing_success-Ends item.pod m c h)
    | inr f ↦ rw (e, f) (inl (λ k. refl))
  ]
]

work-Ends :
    (T : Transport) (m : Prober) (items : List WorkItem)
    → m.work_queue ≡ items
    → IsCounted m
    → IsKeyed m
    → Ends m (process_work_item T m).0
unfolding process_work_item is_probe_active route_at
work-Ends T m [] e c h = rw (e, process_work_item) (inl (λ k. refl))
work-Ends T m (item ∷ rest) e c h =
    rw (e, process_work_item) (process_item-Ends T item (record m { work_queue = rest }) c h)

notice-Ends : (p : ℕ) (m : Prober) → IsCounted m → IsKeyed m → Ends m (notice p m)
unfolding notice is_probe_active route_at
notice-Ends p m c h = elim (Bool-cases (pod_done p m)) [
  | inl e ↦ rw e (on_probing_cancellation-Ends p m c h)
  | inr e ↦ rw e (inl (λ k. refl))
]

-- A key that is forgotten, at once or later.
Forgets : NamespacedName → Prober → Prober → Type 0
Forgets key m m' = Stays (view m) (view m') ⊎ Becomes key none (view m) (view m')

Forgets-step :
    (key : NamespacedName) (m m' m'' : Prober)
    → Forgets key m m'
    → Forgets key m' m''
    → Forgets key m m''
unfolding Forgets
Forgets-step key m m' m'' (inl a) (inl b) = inl (λ k. b k ∙ a k)
Forgets-step key m m' m'' (inl a) (inr b) = inr (
    becomes key none (view m) (view m'') (Becomes-own key none (view m') (view m'') b)
      (λ k d. Becomes-other key none (view m') (view m'') b k d ∙ a k))
Forgets-step key m m' m'' (inr a) (inl b) = inr (λ k. b k ∙ a k)
Forgets-step key m m' m'' (inr a) (inr b) =
    inr (Becomes-twice key none none (view m) (view m') (view m'') a b)

cancel_round-Forgets :
    (key k : NamespacedName) (id : ℕ) (m : Prober) → Forgets key m (cancel_round key k id m)
unfolding Forgets cancel_round cancel_entry cancel_route is_probe_active
cancel_round-Forgets key k id m =
    elim (Bool-cases (is_some (lookup k m.route_states) && calls_back key id m)) [
      | inl e ↦ rw e (
          inr (
            delete-Becomes m (cancel_entry key id m) key
              (at-modify m.routes id (λ r. record r { cancelled = true }) (λ r g. refl)) refl))
      | inr e ↦ rw e (inl (λ k. refl))
    ]

cancel_loop-Forgets :
    (key : NamespacedName) (es : List (NamespacedName × ℕ)) (m : Prober)
    → Forgets key m (cancel_loop key es m)
unfolding Forgets cancel_loop
cancel_loop-Forgets key [] m = inl (λ k. refl)
cancel_loop-Forgets key ((k, id) ∷ es) m =
    Forgets-step key m (cancel_round key k id m) (cancel_loop key es (cancel_round key k id m))
      (cancel_round-Forgets key k id m) (cancel_loop-Forgets key es (cancel_round key k id m))

pub works-Ends : (T : Transport) (m : Prober) → IsCounted m → IsKeyed m → Ends m (step (works T) m)
unfolding step
works-Ends T m c h = work-Ends T m m.work_queue refl c h

pub notices-Ends : (p : ℕ) (m : Prober) → IsCounted m → IsKeyed m → Ends m (step (notices p) m)
unfolding step
notices-Ends p m c h = notice-Ends p m c h

-- What the callers see of it.
forget : (m m' : Prober) → Ends m m' → Stays (view m) (view m') ⊎ GetsReady (view m) (view m')
forget m m' (inl s) = inl s
forget m m' (inr a) = inr (Announces-GetsReady m m' a)

pub step-Spec :
    (e : Event) (m : Prober) → IsCounted m → IsKeyed m → Spec e (view m) (view (step e m))
unfolding step cancel_ingress_probing_by_key Forgets is_probe_active
step-Spec (probes list_targets now b) m c h = do_probes-Requested list_targets now b m h
step-Spec (cancel_ingress key) m c h = cancel_loop-Forgets key m.route_states m
step-Spec (cancel_pod ip) m c h =
    let (e, f) = cancel_pod_probing-routes ip m in same-Stays m (cancel_pod_probing ip m) e f
step-Spec (works T) m c h = forget m (process_work_item T m).0 (work-Ends T m m.work_queue refl c h)
step-Spec (joins p) m c h = let (e, f) = join-routes p m in same-Stays m (join p m) e f
step-Spec (notices p) m c h = forget m (notice p m) (notice-Ends p m c h)
step-Spec shuts_down m c h = λ k. refl

-- The prober refines its contract: whatever happened since it was made, each further event changes
-- the answers of `IsProbeActive` only as promised. A call of `DoProbes` leaves them where its
-- version is active, and otherwise makes it active for its key, ready at once exactly if there is
-- no IP to probe, or forgets the key where the targets cannot be listed. A worker or a goroutine of
-- a pod makes at most one key ready, which keeps its version. The cancellation of an Ingress
-- forgets at most its own key. No other event shows.
pub run-Spec :
    (es : List Event) (e : Event)
    → Spec e (view (run es new_prober)) (view (step e (run es new_prober)))
run-Spec es e = step-Spec e (run es new_prober) (run-CountsOf es) (run-IsKeyed es)
