-- ===== src/Status/Events.antt =====
-- The rest of pkg/status/status.go: cancellation, the workers, and the events that interleave.
use net_gateway_api.Base.{
  ℕ, String, Bool, true, false, not, ◌&&◌, ◌||◌, none, some, List, [], ◌∷◌, ◌++◌, get_elem?,
  is_some, ◌==◌, if◌then◌else◌, failed, Result, ok, err, panic,
}
use net_gateway_api.Base.Text.{◌=s◌}
use net_gateway_api.Base.Int.{pos, decrement, is_zero, is_positive}
use net_gateway_api.Model.Names.{NamespacedName, NamespacedName-discrete, deep_equal}
use net_gateway_api.Status.Types.{Url, ProbeTarget, Backends, Manager}
use net_gateway_api.Status.Prober.{
  WorkItem, Prober, modify, lookup, delete, lookup_ip, delete_ip, cancel_route, is_probe_active,
  do_probes, enqueue,
}

-- Whether the loop variable's route state has this callback key.
unfoldable pub calls_back : NamespacedName → ℕ → Prober → Bool
unfolding NamespacedName-discrete
calls_back key id m = elim (get_elem? m.routes id) [
  | none ↦ false
  | some r ↦ deep_equal NamespacedName-discrete r.callback_key key
]

-- The body of the loop, for an entry that the map still holds: the route state is cancelled, and
-- the entry of `key` is deleted.
unfoldable pub cancel_entry : NamespacedName → ℕ → Prober → Prober
unfolding cancel_route delete
cancel_entry key id m = record (cancel_route id m) { route_states = delete key m.route_states }

-- A round of `for _, v := range m.routeStates` for the entry of `k`: one that an earlier round
-- deleted is not visited.
unfoldable pub cancel_round : NamespacedName → NamespacedName → ℕ → Prober → Prober
unfolding calls_back cancel_entry lookup
cancel_round key k id m =
    if is_some (lookup k m.route_states) && calls_back key id m then cancel_entry key id m else m

unfoldable pub cancel_loop : NamespacedName → List (NamespacedName × ℕ) → Prober → Prober
unfolding cancel_round
cancel_loop key [] m = m
cancel_loop key ((k, id) ∷ rest) m = cancel_loop key rest (cancel_round key k id m)

-- `CancelIngressProbingByKey`; `CancelIngressProbing` calls it with the key of the Ingress.
unfoldable pub cancel_ingress_probing_by_key : NamespacedName → Prober → Prober
unfolding cancel_loop
cancel_ingress_probing_by_key key m = cancel_loop key m.route_states m

-- `CancelPodProbing`
unfoldable pub cancel_pod_probing : String → Prober → Prober
unfolding lookup_ip delete_ip modify
cancel_pod_probing ip m = elim (lookup_ip ip m.pod_contexts) [
  | none ↦ m
  | some c ↦ record m {
    contexts = modify m.contexts c (λ _. true);
    pod_contexts = delete_ip ip m.pod_contexts;
  }
]

-- `routeState.pendingCount.Add(-1) == 0`, and the callback where it is.
unfoldable pub finish_pod : ℕ → Prober → Prober
unfolding modify
finish_pod id m = elim (get_elem? m.routes id) [
  | none ↦ m
  | some r ↦
      let count = decrement r.pending_count in
      record m {
        routes = modify m.routes id (λ r. record r { pending_count = count });
        callbacks =
            if is_zero count then m.callbacks ++ ((id, r.callback_key) ∷ []) else m.callbacks;
      }
]

-- `onProbingSuccess` for pod state `p`. The context of the pod is cancelled at the last probe.
unfoldable pub on_probing_success : ℕ → Prober → Prober
unfolding finish_pod modify
on_probing_success p m = elim (get_elem? m.pods p) [
  | none ↦ m
  | some pod ↦
      let count = decrement pod.pending_count in
      if is_zero count
      then finish_pod pod.route (record m {
        pods = modify m.pods p (λ pod. record pod { pending_count = count; cancelled = true });
      })
      else record m { pods = modify m.pods p (λ pod. record pod { pending_count = count }) }
]

-- `onProbingCancellation`: where the count is still positive it is set to 0.
unfoldable pub on_probing_cancellation : ℕ → Prober → Prober
unfolding finish_pod modify
on_probing_cancellation p m = elim (get_elem? m.pods p) [
  | none ↦ m
  | some pod ↦
      if is_positive pod.pending_count
      then finish_pod pod.route
          (record m { pods = modify m.pods p (λ pod. record pod { pending_count = pos 0 }) })
      else m
]

unfoldable pub route_cancelled : ℕ → Prober → Bool
route_cancelled id m = elim (get_elem? m.routes id) [ none ↦ false | some r ↦ r.cancelled ]

-- `podCtx` is done: it or its parent, the route's context, is cancelled.
unfoldable pub pod_done : ℕ → Prober → Bool
unfolding route_cancelled
pod_done p m = elim (get_elem? m.pods p) [
  | none ↦ false
  | some pod ↦ pod.cancelled || route_cancelled pod.route m
]

-- The goroutine that cancels the pod's context once the context of its IP is done.
unfoldable pub join : ℕ → Prober → Prober
unfolding modify
join p m = elim (get_elem? m.pods p) [
  | none ↦ m
  | some pod ↦ elim (get_elem? m.contexts pod.ip_context) [
    | none ↦ m
    | some done ↦
        if done
        then record m { pods = modify m.pods p (λ pod. record pod { cancelled = true }) }
        else m
  ]
]

-- The goroutine that waits for the pod's context: it acts once the context is done.
unfoldable pub notice : ℕ → Prober → Prober
unfolding pod_done on_probing_cancellation
notice p m = if pod_done p m then on_probing_cancellation p m else m

pub record HttpResponse : Type 0 where
  pub status_code : ℕ
  -- the value of the header `K-Network-Hash`, "" if it is missing
  pub hash : String

-- `probeVerifier`, for the version of the item's route state.
unfoldable pub probe_verifier : String → HttpResponse → Result Bool
unfolding ◌=s◌
probe_verifier version r =
    if r.status_code == 200
    then if r.hash =s ""
      then ok true
      else if r.hash =s version
      then ok true
      else err (failed "unexpected version")
    else if r.status_code == 404 || r.status_code == 503
    then err (failed "unexpected status code")
    else ok true

unfoldable pub version_of : ℕ → Prober → String
version_of id m = elim (get_elem? m.routes id) [ none ↦ "" | some r ↦ r.version ]

-- nethttp.HealthCheckPath, where the URL has no path.
unfoldable pub probe_url : String → Url → Url
unfolding ◌=s◌
probe_url health_check_path u = if u.path =s "" then record u { path = health_check_path } else u

-- `prober.Do` on an item: the URL and the verifier of the response; and the default path.
pub record Transport : Type 0 where
  pub probe : WorkItem → Url → (HttpResponse → Result Bool) → Result Bool
  pub health_check_path : String

abbrev succeeded : Result Bool → Bool
succeeded (ok b) = b
succeeded (err e) = false
succeeded (panic e) = false

module _ (T : Transport) where
  -- Whether the probe of an item succeeds.
  unfoldable pub passes : WorkItem → Prober → Bool
  unfolding probe_verifier version_of probe_url
  passes item m = succeeded (
      T.probe item (probe_url T.health_check_path item.url)
        (probe_verifier (version_of item.route m)))

  -- `processWorkItem` after `Get`: the probe, then one of three ends.
  unfoldable pub process_item : WorkItem → Prober → Prober
  unfolding passes pod_done on_probing_success enqueue
  process_item item m =
      if pod_done item.pod m
      then m
      else if passes item m
      then on_probing_success item.pod m
      else record m { work_queue = enqueue m (item ∷ []) }

  -- `processWorkItem`: `false` where the queue is shut down and empty. A worker that waits for an
  -- item changes nothing.
  unfoldable pub process_work_item : Prober → Prober × Bool
  unfolding process_item
  process_work_item m = elim m.work_queue [
    | [] ↦ (m, not m.shut_down)
    | item ∷ rest ↦ (process_item item (record m { work_queue = rest }), true)
  ]

-- The prober as a `Manager`.
abbrev pub manager : (Backends → Result (List ProbeTarget)) → Manager
manager list_targets = record {
  State = Prober;
  is_probe_active = is_probe_active;
  do_probes = do_probes list_targets;
}

-- What may happen next, in any order: calls of the reconciler, of the informers' handlers, and
-- the goroutines of the prober.
pub data Event : Type 0 where
  probes : (Backends → Result (List ProbeTarget)) → ℕ → Backends → Event
  cancel_ingress : NamespacedName → Event
  cancel_pod : String → Event
  works : Transport → Event
  joins : ℕ → Event
  notices : ℕ → Event
  shuts_down : Event

unfoldable pub step : Event → Prober → Prober
unfolding cancel_ingress_probing_by_key cancel_pod_probing process_work_item join notice do_probes
step (probes list_targets now b) m = (do_probes list_targets now b m).0
step (cancel_ingress key) m = cancel_ingress_probing_by_key key m
step (cancel_pod ip) m = cancel_pod_probing ip m
step (works T) m = (process_work_item T m).0
step (joins p) m = join p m
step (notices p) m = notice p m
step shuts_down m = record m { shut_down = true }

unfoldable pub run : List Event → Prober → Prober
unfolding step
run [] m = m
run (e ∷ es) m = run es (step e m)
