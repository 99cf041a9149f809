-- ===== src/Status/Queue/Work.antt =====
-- The work queue of pkg/status/status.go after a worker took an item.
use mathlib.Core.Path.{subst}
use net_gateway_api.Base.{
  ℕ, suc, ◌+◌, ◌≡◌, sym, ap, ◌∙◌, true, false, some, none, List, [], ◌∷◌, get_elem?, ◌==◌,
  if◌then◌else◌, arith, inl, inr, Bool-cases, Option-cases,
}
use net_gateway_api.Base.Int.{pos, decrement, is_zero}
use net_gateway_api.Status.Prober.{PodState, WorkItem, Prober, modify, enqueue}
use net_gateway_api.Status.Events.{
  finish_pod, on_probing_success, pod_done, Transport, passes, process_item, process_work_item,
}
use net_gateway_api.Status.Store.{get_elem?-modify_own, get_elem?-modify_other}
use net_gateway_api.Status.Queue.{
  items_of, items_of-append, Counts, cancelled_in, QueuedAt, IsQueued, modify_routes-IsQueued,
  pod_done-at,
}

pub equals : (q p : ℕ) → (q == p) ≡ true → q ≡ p
equals q p h = ground (arith, h)

-- An item of pod state `q` was taken from the queue.
abbrev Taken : ℕ → Prober → Type 0
Taken q m =
    m.shut_down ≡ false
    → (p : ℕ)
    → Counts (cancelled_in m.routes) (get_elem? m.pods p)
        ((if q == p then 1 else 0) + items_of p m.work_queue)

-- A write to a pod state, where another pod state is `Taken`'s.
modify-QueuedAt :
    (m : Prober) (q p : ℕ) (f : PodState → PodState)
    → (q == p) ≡ false
    → Counts
        (cancelled_in m.routes)
        (get_elem? m.pods p)
        ((if q == p then 1 else 0) + items_of p m.work_queue)
    → QueuedAt (record m { pods = modify m.pods q f }) p
modify-QueuedAt m q p f b t =
    rw (get_elem?-modify_other m.pods q p f b)
      (subst (Counts (cancelled_in m.routes) (get_elem? m.pods p)) (ground (arith, b)) t)

modify_pods-IsQueued :
    (m : Prober) (q : ℕ) (f : PodState → PodState) (pod : PodState)
    → get_elem? m.pods q ≡ some pod
    → (m.shut_down ≡ false
        → Counts (cancelled_in m.routes) (some (f pod)) (items_of q m.work_queue))
    → Taken q m
    → IsQueued (record m { pods = modify m.pods q f })
modify_pods-IsQueued m q f pod e own t s p = elim (Bool-cases (q == p)) [
  | inl b ↦
      subst (QueuedAt (record m { pods = modify m.pods q f })) (equals q p b)
        (rw (get_elem?-modify_own m.pods q f pod e) (own s))
  | inr b ↦ modify-QueuedAt m q p f b (t s p)
]

-- The count of the pod state whose item was taken.
Taken-count :
    (m : Prober) (q : ℕ) (pod : PodState)
    → get_elem? m.pods q ≡ some pod
    → pod_done q m ≡ false
    → Taken q m
    → m.shut_down ≡ false
    → pod.pending_count ≡ pos (suc (items_of q m.work_queue))
Taken-count m q pod e d t s =
    let own : Counts (cancelled_in m.routes) (some pod)
        ((if q == q then 1 else 0) + items_of q m.work_queue) =
      subst
        (λ o.
          Counts (cancelled_in m.routes) o ((if q == q then 1 else 0) + items_of q m.work_queue))
        e (t s q) in
    own (sym (pod_done-at q m pod e) ∙ d) ∙ ap pos (ground arith)

pub finish_pod-IsQueued : (id : ℕ) (m : Prober) → IsQueued m → IsQueued (finish_pod id m)
unfolding finish_pod
finish_pod-IsQueued id m h = elim (Option-cases (get_elem? m.routes id)) [
  | inl e ↦ rw (e, finish_pod) h
  | inr (r, e) ↦ rw (e, finish_pod) (modify_routes-IsQueued m id _ (λ r c. c) h)
]

on_probing_success-IsQueued :
    (q : ℕ) (m : Prober) → pod_done q m ≡ false → Taken q m → IsQueued (on_probing_success q m)
unfolding on_probing_success
on_probing_success-IsQueued q m d t = elim (Option-cases (get_elem? m.pods q)) [
  | inl e ↦ rw (e, on_probing_success) (none_taken e)
  | inr (pod, e) ↦ elim (Bool-cases (is_zero (decrement pod.pending_count))) [
    | inl z ↦
        rw (e, on_probing_success, z)
          (finish_pod-IsQueued pod.route _ (modify_pods-IsQueued m q _ pod e (λ s c. cc) t))
    | inr z ↦
        rw (e, on_probing_success, z)
          (modify_pods-IsQueued m q _ pod e (λ s c. ap decrement (Taken-count m q pod e d t s)) t)
  ]
]
  where
    none_taken : get_elem? m.pods q ≡ none → IsQueued m
    none_taken e s p = absurd (
        ground (
          arith,
          subst
              (λ o.
                Counts (cancelled_in m.routes) o
                  ((if q == q then 1 else 0) + items_of q m.work_queue))
              e (t s q),
        ))

-- An item of a pod state that is done is dropped.
dropped-IsQueued : (q : ℕ) (m : Prober) → pod_done q m ≡ true → Taken q m → IsQueued m
unfolding pod_done
dropped-IsQueued q m d t s p = elim (Bool-cases (q == p)) [
  | inl b ↦ elim (Option-cases (get_elem? m.pods q)) [
    | inl e ↦ absurd (none_done e)
    | inr (pod, e) ↦
        subst (QueuedAt m) (equals q p b) (rw e (λ c. cc (c, sym (pod_done-at q m pod e) ∙ d)))
  ]
  | inr b ↦ subst (Counts (cancelled_in m.routes) (get_elem? m.pods p)) (ground (arith, b)) (t s p)
]
  where
    none_done : get_elem? m.pods q ≡ none → ⊥
    none_done e = ground (arith, d, e)

process_item-IsQueued :
    (T : Transport) (item : WorkItem) (m : Prober)
    → Taken item.pod m
    → IsQueued (process_item T item m)
unfolding process_item enqueue
process_item-IsQueued T item m t = elim (Bool-cases (pod_done item.pod m)) [
  | inl e ↦ rw e (dropped-IsQueued item.pod m e t)
  | inr e ↦ elim (Bool-cases (passes T item m)) [
    | inl f ↦ rw (e, f) (on_probing_success-IsQueued item.pod m e t)
    | inr f ↦
        rw (e, f)
          (λ s p.
            rw (s, items_of-append p m.work_queue (item ∷ []))
              (subst (Counts (cancelled_in m.routes) (get_elem? m.pods p)) (omega arith) (t s p)))
  ]
]

pub work-IsQueued :
    (T : Transport) (m : Prober) (items : List WorkItem)
    → m.work_queue ≡ items
    → IsQueued m
    → IsQueued (process_work_item T m).0
unfolding process_work_item
work-IsQueued T m [] e h = rw (e, process_work_item) h
work-IsQueued T m (item ∷ rest) e h =
    rw (e, process_work_item)
      (process_item-IsQueued T item (record m { work_queue = rest })
        (λ s p.
          subst (λ q. Counts (cancelled_in m.routes) (get_elem? m.pods p) (items_of p q)) e
            (h s p)))
