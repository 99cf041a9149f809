-- ===== src/Status/Queue/Idle.antt =====
-- The goroutines of pkg/status/status.go that wait for the contexts of the pods.
use mathlib.Core.Path.{subst}
use net_gateway_api.Base.{
  ℕ, zero, suc, ◌<◌, ◌≡◌, refl, sym, ap, ◌∙◌, false, Option, some, none, List, [], ◌∷◌, get_elem?,
  ◌==◌, arith, ◌⊎◌, inl, inr, Bool-cases, Option-cases,
}
use net_gateway_api.Base.Int.{pos, is_positive}
use net_gateway_api.Status.Prober.{PodState, Prober, modify}
use net_gateway_api.Status.Events.{
  finish_pod, on_probing_cancellation, pod_done, notice, Event, notices, step, run,
}
use net_gateway_api.Status.Store.{get_elem?-modify_own, get_elem?-modify_other}
use net_gateway_api.Status.Queue.{items_of, Counts, cancelled_in, IsQueued, pod_done-at}
use net_gateway_api.Status.Queue.Work.{equals}
use net_gateway_api.Status.Queue.Steps.{step-IsQueued}
use net_gateway_api.Status.Queue.Drain.{notice-Same}

-- The goroutines that wait for the pods below an index.
abbrev pub notices_below : ℕ → List Event
notices_below zero = []
notices_below (suc n) = notices n ∷ notices_below n

abbrev pub IsIdle : Option PodState → Type 0
IsIdle none = Unit
IsIdle (some pod) = is_positive pod.pending_count ≡ false

-- A prober without work.
abbrev pub IsDrained : Prober → Type 0
IsDrained m = IsQueued m × ((m.work_queue ≡ []) × (m.shut_down ≡ false))

pub notice-IsDrained : (q : ℕ) (m : Prober) → IsDrained m → IsDrained (notice q m)
unfolding step
notice-IsDrained q m (h, (w, s)) =
    let (w', s') = notice-Same q m in (step-IsQueued (notices q) m h, (w' ∙ w, s' ∙ s))

finish_pod-pods : (id : ℕ) (m : Prober) → (finish_pod id m).pods ≡ m.pods
unfolding finish_pod
finish_pod-pods id m = elim (Option-cases (get_elem? m.routes id)) [
  | inl e ↦ rw (e, finish_pod) refl
  | inr (r, e) ↦ rw (e, finish_pod) refl
]

-- A pod state that is noticed is idle.
cancellation-IsIdle : (q : ℕ) (m : Prober) → IsIdle (get_elem? (on_probing_cancellation q m).pods q)
unfolding on_probing_cancellation
cancellation-IsIdle q m = elim (Option-cases (get_elem? m.pods q)) [
  | inl e ↦ rw (e, on_probing_cancellation) (rw e tt)
  | inr (pod, e) ↦ elim (Bool-cases (is_positive pod.pending_count)) [
    | inl z ↦
        rw (e, on_probing_cancellation, z)
          (rw
            (finish_pod-pods pod.route
              (record m { pods = modify m.pods q (λ pod. record pod { pending_count = pos 0 }) }))
            (rw (get_elem?-modify_own m.pods q (λ pod. record pod { pending_count = pos 0 }) pod e)
              refl))
    | inr z ↦ rw (e, on_probing_cancellation, z) (rw e z)
  ]
]

-- One that is not done has no item left.
waiting-IsIdle :
    (q : ℕ) (m : Prober) → IsDrained m → pod_done q m ≡ false → IsIdle (get_elem? m.pods q)
waiting-IsIdle q m (h, (w, s)) d = elim (Option-cases (get_elem? m.pods q)) [
  | inl e ↦ rw e tt
  | inr (pod, e) ↦ rw e (ap is_positive (no_items pod e))
]
  where
    no_items : (pod : PodState) → get_elem? m.pods q ≡ some pod → pod.pending_count ≡ pos 0
    no_items pod e =
        let own : Counts (cancelled_in m.routes) (some pod) (items_of q m.work_queue) =
          subst (λ o. Counts (cancelled_in m.routes) o (items_of q m.work_queue)) e (h s q) in
        own (sym (pod_done-at q m pod e) ∙ d) ∙ ap (λ items. pos (items_of q items)) w

notice-IsIdle_own : (q : ℕ) (m : Prober) → IsDrained m → IsIdle (get_elem? (notice q m).pods q)
unfolding notice
notice-IsIdle_own q m h = elim (Bool-cases (pod_done q m)) [
  | inl e ↦ rw e (cancellation-IsIdle q m)
  | inr e ↦ rw e (waiting-IsIdle q m h e)
]

cancellation-other :
    (q p : ℕ) (m : Prober)
    → (q == p) ≡ false
    → get_elem? (on_probing_cancellation q m).pods p ≡ get_elem? m.pods p
unfolding on_probing_cancellation
cancellation-other q p m b = elim (Option-cases (get_elem? m.pods q)) [
  | inl e ↦ rw (e, on_probing_cancellation) refl
  | inr (pod, e) ↦ elim (Bool-cases (is_positive pod.pending_count)) [
    | inl z ↦
        rw (e, on_probing_cancellation, z)
          (ap (λ pods. get_elem? pods p)
              (finish_pod-pods pod.route
                (record m { pods = modify m.pods q (λ pod. record pod { pending_count = pos 0 }) }))
            ∙ get_elem?-modify_other m.pods q p (λ pod. record pod { pending_count = pos 0 }) b)
    | inr z ↦ rw (e, on_probing_cancellation, z) refl
  ]
]

notice-IsIdle :
    (q p : ℕ) (m : Prober)
    → IsDrained m
    → IsIdle (get_elem? m.pods p)
    → IsIdle (get_elem? (notice q m).pods p)
unfolding notice
notice-IsIdle q p m h i = elim (Bool-cases (q == p)) [
  | inl b ↦
      subst (λ p. IsIdle (get_elem? (notice q m).pods p)) (equals q p b) (notice-IsIdle_own q m h)
  | inr b ↦ elim (Bool-cases (pod_done q m)) [
    | inl e ↦ rw e (rw (cancellation-other q p m b) i)
    | inr e ↦ rw e i
  ]
]

pub run_notices-IsIdle :
    (n p : ℕ) (m : Prober)
    → IsDrained m
    → (p < n) ⊎ IsIdle (get_elem? m.pods p)
    → IsIdle (get_elem? (run (notices_below n) m).pods p)
unfolding run step
run_notices-IsIdle zero p m h (inl b) = absurd (omega (arith, b))
run_notices-IsIdle zero p m h (inr i) = i
run_notices-IsIdle (suc n) p m h (inr i) =
    run_notices-IsIdle n p (notice n m) (notice-IsDrained n m h) (inr (notice-IsIdle n p m h i))
run_notices-IsIdle (suc n) p m h (inl b) = elim (Bool-cases (n == p)) [
  | inl e ↦ run_notices-IsIdle n p (notice n m) (notice-IsDrained n m h) (
      inr (
        subst (λ p. IsIdle (get_elem? (notice n m).pods p)) (equals n p e)
          (notice-IsIdle_own n m h)))
  | inr e ↦
      run_notices-IsIdle n p (notice n m) (notice-IsDrained n m h) (inl (ground (arith, e, b)))
]
