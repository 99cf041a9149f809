-- ===== src/Status/Counters/Steps.antt =====
-- The counts of pkg/status/status.go after each event.
use net_gateway_api.Base.{
  ℕ, zero, suc, String, ◌≡◌, refl, ◌&&◌, true, false, some, List, [], ◌∷◌, get_elem?, ◌==◌,
  if◌then◌else◌, arith, inl, inr, Bool-cases, Option-cases, is_some, Result, Result-cases,
}
use net_gateway_api.Base.Int.{ℤ, pos, negsuc, decrement, is_zero, is_positive}
use net_gateway_api.Base.Text.{◌=s◌}
use net_gateway_api.Model.Names.{NamespacedName}
use net_gateway_api.Status.Types.{ProbeTarget, Backends}
use net_gateway_api.Status.Prober.{
  PodState, Prober, modify, lookup, lookup_ip, cancel_route, touch, current_state, do_probes,
  route_at,
}
use net_gateway_api.Status.Events.{
  calls_back, cancel_entry, cancel_round, cancel_loop, cancel_pod_probing, on_probing_success,
  on_probing_cancellation, pod_done, join, notice,
}
use net_gateway_api.Status.Counters.{
  weight, active, one_more, IsCounted, Owes, active-modify, modify-IsCounted, finish_pod-IsCounted,
}
use net_gateway_api.Status.Counters.Pods.{probe_request-IsCounted}

pub last-is_positive : (z : ℤ) → is_zero (decrement z) ≡ true → is_positive z ≡ true
last-is_positive (pos zero) h = cc
last-is_positive (pos (suc n)) h = refl
last-is_positive (negsuc n) h = cc

pub zero-is_positive : (z : ℤ) → is_zero z ≡ true → is_positive z ≡ false
zero-is_positive (pos zero) h = refl
zero-is_positive (pos (suc n)) h = cc
zero-is_positive (negsuc n) h = refl

-- A count that does not come to 0 is as positive as before.
decrement-is_positive :
    (z : ℤ) → is_zero (decrement z) ≡ false → is_positive (decrement z) ≡ is_positive z
decrement-is_positive (pos zero) h = refl
decrement-is_positive (pos (suc zero)) h = cc
decrement-is_positive (pos (suc (suc n))) h = refl
decrement-is_positive (negsuc n) h = refl

-- A write to a pod state that leaves its weight.
modify_pods-IsCounted :
    (m : Prober) (p : ℕ) (f : PodState → PodState) (pod : PodState)
    → get_elem? m.pods p ≡ some pod
    → ((id : ℕ) → weight id (f pod) ≡ weight id pod)
    → IsCounted m
    → IsCounted (record m { pods = modify m.pods p f })
modify_pods-IsCounted m p f pod g e h id = rw (equal_weights id) (h id)
  where
    equal_weights : (id : ℕ) → active id (modify m.pods p f) ≡ active id m.pods
    equal_weights id = omega (arith, active-modify id p f m.pods pod g, e id)

-- A write to a pod state that ends its probing.
pub modify_pods-Owes :
    (m : Prober) (p : ℕ) (f : PodState → PodState) (pod : PodState)
    → get_elem? m.pods p ≡ some pod
    → ((id : ℕ) → weight id pod ≡ (if pod.route == id then 1 else 0))
    → ((id : ℕ) → weight id (f pod) ≡ 0)
    → IsCounted m
    → Owes pod.route (record m { pods = modify m.pods p f })
modify_pods-Owes m p f pod g e z h id = rw (one_less id) (h id)
  where
    one_less :
        (id : ℕ) → one_more (pod.route == id) (active id (modify m.pods p f)) ≡ active id m.pods
    one_less id = ground (arith, active-modify id p f m.pods pod g, e id, z id)

pub on_probing_success-IsCounted :
    (p : ℕ) (m : Prober) → IsCounted m → IsCounted (on_probing_success p m)
unfolding on_probing_success
on_probing_success-IsCounted p m h = elim (Option-cases (get_elem? m.pods p)) [
  | inl e ↦ rw (e, on_probing_success) h
  | inr (pod, e) ↦ elim (Bool-cases (is_zero (decrement pod.pending_count))) [
    | inl z ↦
        rw (e, on_probing_success, z)
          (finish_pod-IsCounted pod.route _ (
            modify_pods-Owes m p _ pod e
              (λ id. ground (arith, last-is_positive pod.pending_count z))
              (λ id. ground (arith, zero-is_positive (decrement pod.pending_count) z)) h))
    | inr z ↦
        rw (e, on_probing_success, z)
          (modify_pods-IsCounted m p _ pod e
            (λ id. ground (arith, decrement-is_positive pod.pending_count z)) h)
  ]
]

pub on_probing_cancellation-IsCounted :
    (p : ℕ) (m : Prober) → IsCounted m → IsCounted (on_probing_cancellation p m)
unfolding on_probing_cancellation
on_probing_cancellation-IsCounted p m h = elim (Option-cases (get_elem? m.pods p)) [
  | inl e ↦ rw (e, on_probing_cancellation) h
  | inr (pod, e) ↦ elim (Bool-cases (is_positive pod.pending_count)) [
    | inl z ↦
        rw (e, on_probing_cancellation, z)
          (finish_pod-IsCounted pod.route _
            (modify_pods-Owes m p _ pod e (λ id. ground (arith, z)) (λ id. ground arith) h))
    | inr z ↦ rw (e, on_probing_cancellation, z) h
  ]
]

cancel_round-IsCounted :
    (key k : NamespacedName) (id : ℕ) (m : Prober)
    → IsCounted m
    → IsCounted (cancel_round key k id m)
unfolding cancel_round cancel_entry cancel_route
cancel_round-IsCounted key k id m h =
    elim (Bool-cases (is_some (lookup k m.route_states) && calls_back key id m)) [
      | inl e ↦ rw e (modify-IsCounted m id _ (λ r. refl) h)
      | inr e ↦ rw e h
    ]

pub cancel_loop-IsCounted :
    (key : NamespacedName) (es : List (NamespacedName × ℕ)) (m : Prober)
    → IsCounted m
    → IsCounted (cancel_loop key es m)
unfolding cancel_loop
cancel_loop-IsCounted key [] m h = h
cancel_loop-IsCounted key ((k, id) ∷ es) m h =
    cancel_loop-IsCounted key es (cancel_round key k id m) (cancel_round-IsCounted key k id m h)

pub cancel_pod_probing-IsCounted :
    (ip : String) (m : Prober) → IsCounted m → IsCounted (cancel_pod_probing ip m)
unfolding cancel_pod_probing
cancel_pod_probing-IsCounted ip m h = elim (Option-cases (lookup_ip ip m.pod_contexts)) [
  | inl e ↦ rw (e, cancel_pod_probing) h
  | inr (c, e) ↦ rw (e, cancel_pod_probing) h
]

pub join-IsCounted : (p : ℕ) (m : Prober) → IsCounted m → IsCounted (join p m)
unfolding join
join-IsCounted p m h = elim (Option-cases (get_elem? m.pods p)) [
  | inl e ↦ rw (e, join) h
  | inr (pod, e) ↦ elim (Option-cases (get_elem? m.contexts pod.ip_context)) [
    | inl f ↦ rw (e, join, f) h
    | inr (true, f) ↦ rw (e, join, f) (modify_pods-IsCounted m p _ pod e (λ id. refl) h)
    | inr (false, f) ↦ rw (e, join, f) h
  ]
]

pub notice-IsCounted : (p : ℕ) (m : Prober) → IsCounted m → IsCounted (notice p m)
unfolding notice
notice-IsCounted p m h = elim (Bool-cases (pod_done p m)) [
  | inl e ↦ rw e (on_probing_cancellation-IsCounted p m h)
  | inr e ↦ rw e h
]

current_state-IsCounted :
    (now : ℕ) (b : Backends) (m : Prober) → IsCounted m → IsCounted (current_state now b m).0
unfolding current_state touch cancel_route
current_state-IsCounted now b m h = elim (Option-cases (route_at m b.key)) [
  | inl e ↦ rw (e, current_state) h
  | inr ((id, r), e) ↦ elim (Bool-cases (r.version =s b.version)) [
    | inl v ↦ rw (e, current_state, v) (modify-IsCounted m id _ (λ r. refl) h)
    | inr v ↦ rw (e, current_state, v) (modify-IsCounted m id _ (λ r. refl) h)
  ]
]

pub do_probes-IsCounted :
    (list_targets : Backends → Result (List ProbeTarget)) (now : ℕ) (b : Backends) (m : Prober)
    → IsCounted m
    → IsCounted (do_probes list_targets now b m).0
unfolding do_probes
do_probes-IsCounted list_targets now b m h =
    let k = current_state-IsCounted now b m h in
    elim (Option-cases (current_state now b m).1) [
      | inr (s, e) ↦ rw (do_probes, e) k
      | inl e ↦ elim (Result-cases (list_targets b)) [
        | inl (ts, t) ↦
            rw (do_probes, e, t) (probe_request-IsCounted now b ts (current_state now b m).0 k)
        | inr (inl (x, t)) ↦ rw (do_probes, e, t) k
        | inr (inr (x, t)) ↦ rw (do_probes, e, t) k
      ]
    ]
