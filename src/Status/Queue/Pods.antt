-- ===== src/Status/Queue/Pods.antt =====
-- The work items that `probeRequest` of pkg/status/status.go queues for its pods.
use mathlib.Core.Path.{subst}
use net_gateway_api.Base.{
  ℕ, String, ◌≡◌, refl, ap, ◌∙◌, false, none, List, [], ◌∷◌, ◌++◌, length, get_elem?, ◌==◌,
  if◌then◌else◌, arith, inl, inr, Bool-cases, Option-cases,
}
use net_gateway_api.Base.Int.{pos}
use net_gateway_api.Status.Types.{Url, ProbeTarget, Backends}
use net_gateway_api.Status.Prober.{
  PodState, WorkItem, Prober, Grouped, lookup_ip, ip_context, queue_items, enqueue, add_pod,
  add_pods, new_route, started, group_targets, probe_request,
}
use net_gateway_api.Status.Queue.{
  items_of, items_of-append, Counts, cancelled_in, cancelled_in-append, QueuedAt, IsQueued,
  routes-IsQueued,
}
use net_gateway_api.Status.Store.{get_elem?-snoc, get_elem?_end}

items_of-queue_items :
    (p route pod : ℕ) (ip : String) (items : List (Url × String))
    → items_of p (queue_items route pod ip items) ≡ (if pod == p then length items else 0)
unfolding queue_items
items_of-queue_items p route pod ip [] = ground arith
items_of-queue_items p route pod ip (item ∷ items) =
    ground (arith, items_of-queue_items p route pod ip items)

ip_context-IsQueued : (ip : String) (m : Prober) → IsQueued m → IsQueued (ip_context ip m).1
unfolding ip_context
ip_context-IsQueued ip m h = elim (Option-cases (lookup_ip ip m.pod_contexts)) [
  | inl e ↦ rw (e, ip_context) h
  | inr (c, e) ↦ rw (e, ip_context) h
]

-- A new pod state with its items.
snoc-QueuedAt :
    (m : Prober) (pod : PodState) (items : List WorkItem) (n p : ℕ)
    → pod.pending_count ≡ pos n
    → items_of p items ≡ (if length m.pods == p then n else 0)
    → ((q : ℕ) → QueuedAt m q)
    → QueuedAt (record m { pods = m.pods ++ pod ∷ []; work_queue = m.work_queue ++ items }) p
snoc-QueuedAt m pod items n p c e h = elim (Bool-cases (length m.pods == p)) [
  | inl b ↦
      let last : length m.pods ≡ p = ground (arith, b) in
      let fresh : get_elem? m.pods p ≡ none =
        subst (λ i. get_elem? m.pods i ≡ none) last (get_elem?_end m.pods) in
      let old : items_of p m.work_queue ≡ 0 =
        subst (λ o. Counts (cancelled_in m.routes) o (items_of p m.work_queue)) fresh (h p) in
      rw (get_elem?-snoc m.pods pod p, items_of-append p m.work_queue items, e, b)
        (λ _. c ∙ ap pos (omega (arith, old)))
  | inr b ↦
      rw (get_elem?-snoc m.pods pod p, items_of-append p m.work_queue items, e, b)
        (subst (Counts (cancelled_in m.routes) (get_elem? m.pods p)) (omega arith) (h p))
]

add_pod-IsQueued :
    (route : ℕ) (ip : String) (items : List (Url × String)) (m : Prober)
    → IsQueued m
    → IsQueued (add_pod route ip items m)
unfolding add_pod enqueue
add_pod-IsQueued route ip items m h s p =
    let m' : Prober = (ip_context ip m).1 in
    let k : (q : ℕ) → QueuedAt m' q = ip_context-IsQueued ip m h s in
    let pod : PodState = record {
      route = route;
      ip_context = (ip_context ip m).0;
      pending_count = pos (length items);
      cancelled = false;
    } in
    rw s (
      snoc-QueuedAt m' pod (queue_items route (length m'.pods) ip items) (length items) p refl
        (items_of-queue_items p route (length m'.pods) ip items) k)

pub add_pods-IsQueued :
    (route : ℕ) (g : Grouped) (m : Prober) → IsQueued m → IsQueued (add_pods route g m)
unfolding add_pods
add_pods-IsQueued route [] m h = h
add_pods-IsQueued route ((ip, items) ∷ g) m h =
    add_pods-IsQueued route g (add_pod route ip items m) (add_pod-IsQueued route ip items m h)

-- `probeRequest` queues for each pod as many items as the pod counts.
pub probe_request-IsQueued :
    (now : ℕ) (b : Backends) (targets : List ProbeTarget) (m : Prober)
    → IsQueued m
    → IsQueued (probe_request now b targets m).0
unfolding probe_request started
probe_request-IsQueued now b targets m h =
    let g : Grouped = group_targets targets [] in
    let r = new_route now b (length g) in
    add_pods-IsQueued (length m.routes) g (record m { routes = m.routes ++ r ∷ [] })
      (routes-IsQueued m (m.routes ++ r ∷ []) (cancelled_in-append m.routes (r ∷ [])) h)
