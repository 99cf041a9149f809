-- ===== src/Status/Queue/Steps.antt =====
-- The work queue of pkg/status/status.go after each event.
use mathlib.Core.Path.{subst}
use net_gateway_api.Base.{
  ℕ, String, ◌≡◌, refl, sym, ◌∙◌, true, false, ◌&&◌, some, List, [], ◌∷◌, get_elem?, ◌==◌, inl, inr,
  Bool-cases, Option-cases, is_some, Result, Result-cases,
}
use net_gateway_api.Base.Int.{pos, is_positive}
use net_gateway_api.Base.Text.{◌=s◌}
use net_gateway_api.Model.Names.{NamespacedName}
use net_gateway_api.Status.Types.{ProbeTarget, Backends}
use net_gateway_api.Status.Prober.{
  PodState, Prober, new_prober, modify, lookup, lookup_ip, cancel_route, touch, current_state,
  do_probes, route_at,
}
use net_gateway_api.Status.Events.{
  calls_back, cancel_entry, cancel_round, cancel_loop, cancel_ingress_probing_by_key,
  cancel_pod_probing, on_probing_cancellation, pod_done, join, notice, Event, probes,
  cancel_ingress, cancel_pod, works, joins, notices, shuts_down, step, run,
}
use net_gateway_api.Status.Store.{get_elem?-modify_own, get_elem?-modify_other}
use net_gateway_api.Status.Queue.{
  items_of, Counts, cancelled_in, QueuedAt, IsQueued, modify_routes-IsQueued, cancel_pods-IsQueued,
  pod_done-at,
}
use net_gateway_api.Status.Queue.Pods.{probe_request-IsQueued}
use net_gateway_api.Status.Queue.Work.{equals, finish_pod-IsQueued, work-IsQueued}

-- A write to a pod state that is done after it.
over_pods-IsQueued :
    (m : Prober) (q : ℕ) (f : PodState → PodState) (pod : PodState)
    → get_elem? m.pods q ≡ some pod
    → Counts (cancelled_in m.routes) (some (f pod)) (items_of q m.work_queue)
    → IsQueued m
    → IsQueued (record m { pods = modify m.pods q f })
over_pods-IsQueued m q f pod e own h s p = elim (Bool-cases (q == p)) [
  | inl b ↦
      subst (QueuedAt (record m { pods = modify m.pods q f })) (equals q p b)
        (rw (get_elem?-modify_own m.pods q f pod e) own)
  | inr b ↦ rw (get_elem?-modify_other m.pods q p f b) (h s p)
]

-- A pod state that is done takes no part in the count.
on_probing_cancellation-IsQueued :
    (q : ℕ) (m : Prober) → pod_done q m ≡ true → IsQueued m → IsQueued (on_probing_cancellation q m)
unfolding on_probing_cancellation
on_probing_cancellation-IsQueued q m d h = elim (Option-cases (get_elem? m.pods q)) [
  | inl e ↦ rw (e, on_probing_cancellation) h
  | inr (pod, e) ↦ elim (Bool-cases (is_positive pod.pending_count)) [
    | inl z ↦
        rw (e, on_probing_cancellation, z)
          (finish_pod-IsQueued pod.route _
            (over_pods-IsQueued m q _ pod e (λ c. cc (c, sym (pod_done-at q m pod e) ∙ d)) h))
    | inr z ↦ rw (e, on_probing_cancellation, z) h
  ]
]

notice-IsQueued : (p : ℕ) (m : Prober) → IsQueued m → IsQueued (notice p m)
unfolding notice
notice-IsQueued p m h = elim (Bool-cases (pod_done p m)) [
  | inl e ↦ rw e (on_probing_cancellation-IsQueued p m e h)
  | inr e ↦ rw e h
]

join-IsQueued : (p : ℕ) (m : Prober) → IsQueued m → IsQueued (join p m)
unfolding join
join-IsQueued p m h = elim (Option-cases (get_elem? m.pods p)) [
  | inl e ↦ rw (e, join) h
  | inr (pod, e) ↦ elim (Option-cases (get_elem? m.contexts pod.ip_context)) [
    | inl f ↦ rw (e, join, f) h
    | inr (true, f) ↦ rw (e, join, f) (cancel_pods-IsQueued m p _ (λ r. refl) h)
    | inr (false, f) ↦ rw (e, join, f) h
  ]
]

cancel_round-IsQueued :
    (key k : NamespacedName) (id : ℕ) (m : Prober) → IsQueued m → IsQueued (cancel_round key k id m)
unfolding cancel_round cancel_entry cancel_route
cancel_round-IsQueued key k id m h =
    elim (Bool-cases (is_some (lookup k m.route_states) && calls_back key id m)) [
      | inl e ↦ rw e (modify_routes-IsQueued m id _ (λ r c. refl) h)
      | inr e ↦ rw e h
    ]

cancel_loop-IsQueued :
    (key : NamespacedName) (es : List (NamespacedName × ℕ)) (m : Prober)
    → IsQueued m
    → IsQueued (cancel_loop key es m)
unfolding cancel_loop
cancel_loop-IsQueued key [] m h = h
cancel_loop-IsQueued key ((k, id) ∷ es) m h =
    cancel_loop-IsQueued key es (cancel_round key k id m) (cancel_round-IsQueued key k id m h)

cancel_pod_probing-IsQueued :
    (ip : String) (m : Prober) → IsQueued m → IsQueued (cancel_pod_probing ip m)
unfolding cancel_pod_probing
cancel_pod_probing-IsQueued ip m h = elim (Option-cases (lookup_ip ip m.pod_contexts)) [
  | inl e ↦ rw (e, cancel_pod_probing) h
  | inr (c, e) ↦ rw (e, cancel_pod_probing) h
]

current_state-IsQueued :
    (now : ℕ) (b : Backends) (m : Prober) → IsQueued m → IsQueued (current_state now b m).0
unfolding current_state touch cancel_route
current_state-IsQueued now b m h = elim (Option-cases (route_at m b.key)) [
  | inl e ↦ rw (e, current_state) h
  | inr ((id, r), e) ↦ elim (Bool-cases (r.version =s b.version)) [
    | inl v ↦ rw (e, current_state, v) (modify_routes-IsQueued m id _ (λ r c. c) h)
    | inr v ↦ rw (e, current_state, v) (modify_routes-IsQueued m id _ (λ r c. refl) h)
  ]
]

do_probes-IsQueued :
    (list_targets : Backends → Result (List ProbeTarget)) (now : ℕ) (b : Backends) (m : Prober)
    → IsQueued m
    → IsQueued (do_probes list_targets now b m).0
unfolding do_probes
do_probes-IsQueued list_targets now b m h =
    let k = current_state-IsQueued now b m h in
    elim (Option-cases (current_state now b m).1) [
      | inr (s, e) ↦ rw (do_probes, e) k
      | inl e ↦ elim (Result-cases (list_targets b)) [
        | inl (ts, t) ↦
            rw (do_probes, e, t) (probe_request-IsQueued now b ts (current_state now b m).0 k)
        | inr (inl (x, t)) ↦ rw (do_probes, e, t) k
        | inr (inr (x, t)) ↦ rw (do_probes, e, t) k
      ]
    ]

pub step-IsQueued : (e : Event) (m : Prober) → IsQueued m → IsQueued (step e m)
unfolding step cancel_ingress_probing_by_key
step-IsQueued (probes list_targets now b) m h = do_probes-IsQueued list_targets now b m h
step-IsQueued (cancel_ingress key) m h = cancel_loop-IsQueued key m.route_states m h
step-IsQueued (cancel_pod ip) m h = cancel_pod_probing-IsQueued ip m h
step-IsQueued (works T) m h = work-IsQueued T m m.work_queue refl h
step-IsQueued (joins p) m h = join-IsQueued p m h
step-IsQueued (notices p) m h = notice-IsQueued p m h
step-IsQueued shuts_down m h = λ s. absurd (never s)
  where
    never : true ≡ false → ⊥
    never s = cc

pub run_from-IsQueued : (es : List Event) (m : Prober) → IsQueued m → IsQueued (run es m)
unfolding run
run_from-IsQueued [] m h = h
run_from-IsQueued (e ∷ es) m h = run_from-IsQueued es (step e m) (step-IsQueued e m h)

pub new_prober-IsQueued : IsQueued new_prober
unfolding new_prober
new_prober-IsQueued s p = refl

-- Whatever happens from a new prober on, in any order: as long as the queue is not shut down, the
-- pending count of a pod state whose context is not done is the number of its work items that the
-- queue holds.
pub run-pending_count :
    (es : List Event) (p : ℕ) (pod : PodState)
    → (run es new_prober).shut_down ≡ false
    → get_elem? (run es new_prober).pods p ≡ some pod
    → pod_done p (run es new_prober) ≡ false
    → pod.pending_count ≡ pos (items_of p (run es new_prober).work_queue)
run-pending_count es p pod s e d =
    let m : Prober = run es new_prober in
    let own : Counts (cancelled_in m.routes) (some pod) (items_of p m.work_queue) =
      subst (λ o. Counts (cancelled_in m.routes) o (items_of p m.work_queue)) e
        (run_from-IsQueued es new_prober new_prober-IsQueued s p) in
    own (sym (pod_done-at p m pod e) ∙ d)
