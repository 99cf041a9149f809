-- ===== src/Reconcile/Route/Probed.antt =====
-- The prober of pkg/status/status.go between two reconciliations, with the lister of
-- pkg/reconciler/ingress/lister.go: `DoProbes`, and then the workers.
use net_gateway_api.Base.{ℕ, ◌≡◌, sym, ap, ◌∙◌, true, false, List, ◌∷◌, ◌++◌, Result}
use net_gateway_api.Status.Types.{ProbeTarget, ProbeState, Backends}
use net_gateway_api.Status.Answers.{do_probes-ok}
use net_gateway_api.Reconcile.Lister.{PodTargetLister, backends_to_probe_targets}
use net_gateway_api.Reconcile.Lister.Pods.{HasPods, backends_to_probe_targets-HasPods}
use net_gateway_api.Reconcile.Backends.Listing.{Lists}
use net_gateway_api.Base.{String, ok}
use net_gateway_api.Status.Prober.{do_probes, WorkItem, Prober, new_prober, is_probe_active}
use net_gateway_api.Status.Events.{Transport, passes, Event, probes, step, run, manager}
use net_gateway_api.Status.Contract.{fails, state}
use net_gateway_api.Status.Queue.Settle.{settle, run-append}
use net_gateway_api.Status.Queue.Asked.{probes-settle}
use net_gateway_api.Reconcile.Route.Round.{Settling}

-- A prober that some events made and whose queue is open.
abbrev pub IsOpen : Prober → Type 0
IsOpen m = (es : List Event) × ((m ≡ run es new_prober) × (m.shut_down ≡ false))

module _ (L : PodTargetLister) (v : String) (pods : HasPods L v) (T : Transport)
    (answers : (item : WorkItem) (m : Prober) → passes T item m ≡ true) where
  abbrev list_targets : Backends → Result (List ProbeTarget)
  list_targets = backends_to_probe_targets L

  -- Each queued item is taken by a worker, and each pod's goroutine looks at its context.
  abbrev pub work_all : Prober → Prober
  work_all m = run (settle T m) m

  run-work_all :
      (now : ℕ) (es : List Event) (b : Backends)
      → let e = probes list_targets now b in
        run (es ++ e ∷ settle T (step e (run es new_prober))) new_prober
        ≡ work_all (step e (run es new_prober))
  unfolding run
  run-work_all now es b =
      let e = probes list_targets now b in
      run-append es (e ∷ settle T (step e (run es new_prober))) new_prober

  pub prober-settles :
      (now : ℕ) (b : Backends) (m : Prober)
      → Lists v b
      → IsOpen m
      → (m' : Prober) × (s : ProbeState) × ((do_probes list_targets now b m ≡ (m', ok s))
          × (IsOpen (work_all m')
              × ((is_probe_active b.key (work_all m')).0 ≡ state b.version true)))
  unfolding step do_probes
  prober-settles now b m some_url (es, (e, s)) =
      let (ts, listed) = backends_to_probe_targets-HasPods L v pods b some_url in
      let (m', probe, asked) = do_probes-ok list_targets now b m ts listed in
      let event = probes list_targets now b in
      let (active, open_) =
        probes-settle T answers es list_targets now b (ap Prober.shut_down (sym e) ∙ s)
          (ap fails listed) in
      let same : step event (run es new_prober) ≡ m' =
        ap (step event) (sym e) ∙ ap (λ p. p.0) asked in
      (
        m',
        probe,
        (
          asked,
          (
            (
              es ++ event ∷ settle T (step event (run es new_prober)),
              (
                sym (run-work_all now es b ∙ ap work_all same),
                ap (λ m. (work_all m).shut_down) (sym same) ∙ open_,
              ),
            ),
            ap (λ m. (is_probe_active b.key (work_all m)).0) (sym same) ∙ ap (λ p. p.0) active,
          ),
        ),
      )

  -- The prober, where the Gateway of the visibility has pods and every probe passes.
  abbrev pub prober_settling : Settling (manager list_targets) v
  prober_settling = record { Holds = IsOpen; work = work_all; settles = prober-settles }
