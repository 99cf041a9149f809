-- ===== src/Status/Queue/Settle.antt =====
-- The events that work off the queue of pkg/status/status.go, where every probe passes.
use mathlib.Core.Path.{subst}
use net_gateway_api.Base.{
  ℕ, zero, suc, ◌<◌, ◌≡◌, refl, sym, ap, ◌∙◌, true, false, some, List, [], ◌∷◌, ◌++◌, length,
  get_elem?, ◌==◌, arith, ◌⊎◌, inl, inr,
}
use net_gateway_api.Model.Names.{NamespacedName}
use net_gateway_api.Status.Prober.{
  RouteState, PodState, WorkItem, Prober, new_prober, route_at, is_probe_active,
}
use net_gateway_api.Status.Events.{notice, Transport, passes, Event, step, run}
use net_gateway_api.Status.Counters.{active}
use net_gateway_api.Status.Counters.Runs.{run-ready}
use net_gateway_api.Status.Queue.Steps.{run_from-IsQueued, new_prober-IsQueued}
use net_gateway_api.Status.Queue.Drain.{drain, run-drain}
use net_gateway_api.Status.Queue.Idle.{
  IsIdle, IsDrained, notices_below, notice-IsDrained, run_notices-IsIdle,
}

-- The queue's items are worked off, then each pod's goroutine looks at its context.
abbrev pub settle : Transport → Prober → List Event
settle T m = drain T m.work_queue ++ notices_below (length (run (drain T m.work_queue) m).pods)

pub run-append : (es fs : List Event) (m : Prober) → run (es ++ fs) m ≡ run fs (run es m)
unfolding run
run-append [] fs m = refl
run-append (e ∷ es) fs m = run-append es fs (step e m)

idle-active :
    (id : ℕ) (pods : List PodState) → ((p : ℕ) → IsIdle (get_elem? pods p)) → active id pods ≡ 0
idle-active id [] h = refl
idle-active id (pod ∷ pods) h = ground (arith, h 0, idle-active id pods (λ p. h (suc p)))

in_range : (pods : List PodState) (p : ℕ) → (p < length pods) ⊎ IsIdle (get_elem? pods p)
in_range [] p = inr tt
in_range (pod ∷ pods) zero = inl (omega arith)
in_range (pod ∷ pods) (suc p) = elim (in_range pods p) [
  | inl h ↦ inl (omega (arith, h))
  | inr i ↦ inr i
]

run_notices-IsDrained : (n : ℕ) (m : Prober) → IsDrained m → IsDrained (run (notices_below n) m)
unfolding run step
run_notices-IsDrained zero m h = h
run_notices-IsDrained (suc n) m h = run_notices-IsDrained n (notice n m) (notice-IsDrained n m h)

module _ (T : Transport) (answers : (item : WorkItem) (m : Prober) → passes T item m ≡ true) where
  drained :
      (es : List Event)
      → (run es new_prober).shut_down ≡ false
      → IsDrained (run (drain T (run es new_prober).work_queue) (run es new_prober))
  drained es s =
      let m : Prober = run es new_prober in
      let (w, s') = run-drain T answers m.work_queue m refl in
      (
        run_from-IsQueued (drain T m.work_queue) m
            (run_from-IsQueued es new_prober new_prober-IsQueued),
        (w, s' ∙ s),
      )

  -- The queue is open at the end.
  pub settle-shut_down :
      (es : List Event)
      → (run es new_prober).shut_down ≡ false
      → (run (settle T (run es new_prober)) (run es new_prober)).shut_down ≡ false
  settle-shut_down es s =
      let m : Prober = run es new_prober in
      let m1 : Prober = run (drain T m.work_queue) m in
      ap Prober.shut_down (run-append (drain T m.work_queue) (notices_below (length m1.pods)) m)
      ∙ (run_notices-IsDrained (length m1.pods) m1 (drained es s)).1.1

  -- Where every probe passes and the queue is not shut down, the workers and the goroutines of the
  -- pods come to an end from every prober that some events make: once the workers took each item
  -- that was queued and each pod's goroutine looked at its context, the queue is empty, and every
  -- route that is active is ready.
  pub settle-ready :
      (es : List Event) (k : NamespacedName) (id : ℕ) (r : RouteState)
      → (run es new_prober).shut_down ≡ false
      → route_at (run (es ++ settle T (run es new_prober)) new_prober) k ≡ some (id, r)
      → let m : Prober = run (es ++ settle T (run es new_prober)) new_prober in
        (m.work_queue ≡ [])
        × (is_probe_active k m ≡ (record { version = r.version; ready = true }, true))
  settle-ready es k id r s h =
      let m : Prober = run es new_prober in
      let m1 : Prober = run (drain T m.work_queue) m in
      let n : ℕ = length m1.pods in
      let m2 : Prober = run (es ++ settle T m) new_prober in
      let e : run (notices_below n) m1 ≡ m2 = sym (
        run-append es (settle T m) new_prober
        ∙ run-append (drain T m.work_queue) (notices_below n) m) in
      let idle : active id m2.pods ≡ 0 =
        subst (λ m. active id m.pods ≡ 0) e
          (idle-active id (run (notices_below n) m1).pods
            (λ p. run_notices-IsIdle n p m1 (drained es s) (in_range m1.pods p))) in
      (
        subst (λ m. m.work_queue ≡ []) e (run_notices-IsDrained n m1 (drained es s)).1.0,
        run-ready (es ++ settle T m) k id r h
            ∙ ap (λ a. (record { version = r.version; ready = a == 0 }, true)) idle,
      )
