-- ===== src/Status/Counters/Runs.antt =====
-- The counts of pkg/status/status.go after any sequence of events.
use mathlib.Core.Option.{some-injective}
use net_gateway_api.Base.{
  ℕ, zero, suc, ◌≡◌, refl, sym, ap, ◌∙◌, true, Option, none, some, List, [], ◌∷◌, get_elem?, ◌==◌,
  arith, inl, inr, Bool-cases,
}
use net_gateway_api.Base.Int.{ℤ, pos, is_zero}
use net_gateway_api.Model.Names.{NamespacedName}
use net_gateway_api.Status.Prober.{
  RouteState, WorkItem, Prober, new_prober, route_at, is_probe_active,
}
use net_gateway_api.Status.Events.{
  cancel_ingress_probing_by_key, pod_done, Transport, passes, process_item, process_work_item,
  Event, probes, cancel_ingress, cancel_pod, works, joins, notices, shuts_down, step, run,
}
use net_gateway_api.Status.Keys.{route_at-inv, is_probe_active-at}
use net_gateway_api.Status.Counters.{active, calls, Counted, CountsOf, IsCounted}
use net_gateway_api.Status.Counters.Steps.{
  on_probing_success-IsCounted, cancel_loop-IsCounted, cancel_pod_probing-IsCounted, join-IsCounted,
  notice-IsCounted, do_probes-IsCounted,
}

process_item-IsCounted :
    (T : Transport) (item : WorkItem) (m : Prober) → IsCounted m → IsCounted (process_item T item m)
unfolding process_item
process_item-IsCounted T item m h = elim (Bool-cases (pod_done item.pod m)) [
  | inl e ↦ rw e h
  | inr e ↦ elim (Bool-cases (passes T item m)) [
    | inl f ↦ rw (e, f) (on_probing_success-IsCounted item.pod m h)
    | inr f ↦ rw (e, f) h
  ]
]

work-IsCounted :
    (T : Transport) (m : Prober) (items : List WorkItem)
    → m.work_queue ≡ items
    → IsCounted m
    → IsCounted (process_work_item T m).0
unfolding process_work_item
work-IsCounted T m [] e h = rw (e, process_work_item) h
work-IsCounted T m (item ∷ rest) e h =
    rw (e, process_work_item) (process_item-IsCounted T item (record m { work_queue = rest }) h)

pub step-IsCounted : (e : Event) (m : Prober) → IsCounted m → IsCounted (step e m)
unfolding step cancel_ingress_probing_by_key
step-IsCounted (probes list_targets now b) m h = do_probes-IsCounted list_targets now b m h
step-IsCounted (cancel_ingress key) m h = cancel_loop-IsCounted key m.route_states m h
step-IsCounted (cancel_pod ip) m h = cancel_pod_probing-IsCounted ip m h
step-IsCounted (works T) m h = work-IsCounted T m m.work_queue refl h
step-IsCounted (joins p) m h = join-IsCounted p m h
step-IsCounted (notices p) m h = notice-IsCounted p m h
step-IsCounted shuts_down m h = h

pub run_from-IsCounted : (es : List Event) (m : Prober) → IsCounted m → IsCounted (run es m)
unfolding run
run_from-IsCounted [] m h = h
run_from-IsCounted (e ∷ es) m h = run_from-IsCounted es (step e m) (step-IsCounted e m h)

new_prober-IsCounted : IsCounted new_prober
unfolding new_prober
new_prober-IsCounted id = (refl, refl)

-- Whatever happens from a new prober on, in any order, for every route state: its pending count is
-- the number of its pods that are still probed, the callback was called at most once for it, and
-- not at all while one of its pods is still probed; an index without a route state has no pods and
-- no calls.
pub run-CountsOf : (es : List Event) (id : ℕ) → CountsOf (run es new_prober) id
run-CountsOf es = run_from-IsCounted es new_prober new_prober-IsCounted

zero_count : (z : ℤ) (n : ℕ) → z ≡ pos n → is_zero z ≡ (n == 0)
zero_count z zero h = rw h refl
zero_count z (suc n) h = rw h (ground arith)

some_count :
    (o : Option RouteState) (r : RouteState) (a c : ℕ)
    → o ≡ some r
    → Counted o a c
    → r.pending_count ≡ pos a
some_count none r a c e h = cc
some_count (some s) r a c e h = rw (sym (some-injective s r e)) h.0

-- After any events from a new prober on, `IsProbeActive` answers that a route is ready exactly if
-- none of the pods of its route state is still probed.
pub run-ready :
    (es : List Event) (k : NamespacedName) (id : ℕ) (r : RouteState)
    → route_at (run es new_prober) k ≡ some (id, r)
    → is_probe_active k (run es new_prober)
      ≡ (record { version = r.version; ready = active id (run es new_prober).pods == 0 }, true)
run-ready es k id r h =
    let m : Prober = run es new_prober in
    let g : get_elem? m.routes id ≡ some r = (route_at-inv k m id r h).1 in
    let p : r.pending_count ≡ pos (active id m.pods) =
      some_count (get_elem? m.routes id) r (active id m.pods) (calls id m.callbacks) g
        (run-CountsOf es id) in
    is_probe_active-at k m id r h
    ∙ ap (λ b. (record { version = r.version; ready = b }, true))
        (zero_count r.pending_count (active id m.pods) p)
