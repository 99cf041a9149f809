-- ===== src/Status/Queue/Drain.antt =====
-- The workers of pkg/status/status.go, until the queue is empty.
use net_gateway_api.Base.{
  ℕ, ◌≡◌, refl, ◌∙◌, true, List, [], ◌∷◌, get_elem?, inl, inr, Bool-cases, Option-cases,
}
use net_gateway_api.Base.Int.{decrement, is_zero, is_positive}
use net_gateway_api.Status.Prober.{WorkItem, Prober}
use net_gateway_api.Status.Events.{
  finish_pod, on_probing_success, on_probing_cancellation, pod_done, notice, Transport, passes,
  process_item, process_work_item, Event, works, step, run,
}

-- The part of a prober that the end of a pod's probing leaves.
abbrev pub Same : Prober → Prober → Type 0
Same m m' = (m'.work_queue ≡ m.work_queue) × (m'.shut_down ≡ m.shut_down)

finish_pod-Same : (id : ℕ) (m : Prober) → Same m (finish_pod id m)
unfolding finish_pod
finish_pod-Same id m = elim (Option-cases (get_elem? m.routes id)) [
  | inl e ↦ rw (e, finish_pod) (refl, refl)
  | inr (r, e) ↦ rw (e, finish_pod) (refl, refl)
]

on_probing_success-Same : (p : ℕ) (m : Prober) → Same m (on_probing_success p m)
unfolding on_probing_success
on_probing_success-Same p m = elim (Option-cases (get_elem? m.pods p)) [
  | inl e ↦ rw (e, on_probing_success) (refl, refl)
  | inr (pod, e) ↦ elim (Bool-cases (is_zero (decrement pod.pending_count))) [
    | inl z ↦ rw (e, on_probing_success, z) (finish_pod-Same pod.route _)
    | inr z ↦ rw (e, on_probing_success, z) (refl, refl)
  ]
]

on_probing_cancellation-Same : (p : ℕ) (m : Prober) → Same m (on_probing_cancellation p m)
unfolding on_probing_cancellation
on_probing_cancellation-Same p m = elim (Option-cases (get_elem? m.pods p)) [
  | inl e ↦ rw (e, on_probing_cancellation) (refl, refl)
  | inr (pod, e) ↦ elim (Bool-cases (is_positive pod.pending_count)) [
    | inl z ↦ rw (e, on_probing_cancellation, z) (finish_pod-Same pod.route _)
    | inr z ↦ rw (e, on_probing_cancellation, z) (refl, refl)
  ]
]

pub notice-Same : (p : ℕ) (m : Prober) → Same m (notice p m)
unfolding notice
notice-Same p m = elim (Bool-cases (pod_done p m)) [
  | inl e ↦ rw e (on_probing_cancellation-Same p m)
  | inr e ↦ rw e (refl, refl)
]

-- A worker for each item of a queue.
abbrev pub drain : Transport → List WorkItem → List Event
drain T [] = []
drain T (item ∷ items) = works T ∷ drain T items

module _ (T : Transport) (answers : (item : WorkItem) (m : Prober) → passes T item m ≡ true) where
  process_item-Same : (item : WorkItem) (m : Prober) → Same m (process_item T item m)
  unfolding process_item
  process_item-Same item m = elim (Bool-cases (pod_done item.pod m)) [
    | inl e ↦ rw e (refl, refl)
    | inr e ↦ rw (e, answers item m) (on_probing_success-Same item.pod m)
  ]

  works-Same :
      (m : Prober) (item : WorkItem) (rest : List WorkItem)
      → m.work_queue ≡ item ∷ rest
      → ((step (works T) m).work_queue ≡ rest) × ((step (works T) m).shut_down ≡ m.shut_down)
  unfolding step process_work_item
  works-Same m item rest e =
      rw (e, process_work_item) (process_item-Same item (record m { work_queue = rest }))

  pub run-drain :
      (items : List WorkItem) (m : Prober)
      → m.work_queue ≡ items
      → ((run (drain T items) m).work_queue ≡ [])
        × ((run (drain T items) m).shut_down ≡ m.shut_down)
  unfolding run
  run-drain [] m e = (e, refl)
  run-drain (item ∷ items) m e =
      let (q, s) = works-Same m item items e in
      let (q', s') = run-drain items (step (works T) m) q in (q', s' ∙ s)

  -- Where every probe passes, as many rounds of the workers as the queue has items empty it: none
  -- is put back.
  pub drain-work_queue : (m : Prober) → (run (drain T m.work_queue) m).work_queue ≡ []
  drain-work_queue m = (run-drain m.work_queue m refl).0
