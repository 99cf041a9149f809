-- ===== src/Controller/Runs.antt =====
-- What happens at the controller that pkg/reconciler/ingress/controller.go wires, in any order:
-- notifications of its informers, which may cancel probes, and events of its prober, the calls of
-- the reconciler included.
use mathlib.Core.Path.{subst}
use net_gateway_api.Base.{
  String, ◌≡◌, refl, sym, ap, ◌∙◌, true, false, some, List, [], ◌∷◌, ◌++◌, inl, inr, Option-cases,
  ℕ,
}
use net_gateway_api.Model.Names.{NamespacedName}
use net_gateway_api.Status.Prober.{RouteState, Prober, new_prober, route_at}
use net_gateway_api.Status.Events.{Event, step, run}
use net_gateway_api.Status.Contract.{view, state}
use net_gateway_api.Status.Queue.Settle.{run-append}
use net_gateway_api.Controller.{
  Notification, Informer, Call, enqueue, enqueue_controller_of, cancel_ingress_probing,
  cancel_pod_probing, on_deleted_observer, Machinery, Controller, new_controller, probed,
  ingress_probing_event, pod_probing_event, perform, perform_all, calls_of, registrations, informed,
}
use net_gateway_api.Controller.Wakes.{probed-prober, probed-ready}

pub data Happening : Type 0 where
  notified : Informer → Notification → Happening
  prober_event : Event → Happening

module _ (M : Machinery) where
  abbrev pub happens : Happening → Controller → Controller
  happens (notified i n) = informed M i n
  happens (prober_event e) = probed e

  abbrev pub run_controller : List Happening → Controller → Controller
  run_controller [] c = c
  run_controller (h ∷ hs) c = run_controller hs (happens h c)

  -- The prober is one that some events made.
  abbrev pub IsMade : Prober → Type 0
  IsMade m = (es : List Event) × (m ≡ run es new_prober)

  step-IsMade : (e : Event) (m : Prober) → IsMade m → IsMade (step e m)
  unfolding run
  step-IsMade e m (es, h) = (es ++ e ∷ [], ap (step e) h ∙ sym (run-append es (e ∷ []) new_prober))

  probed-IsMade : (e : Event) (c : Controller) → IsMade c.prober → IsMade (probed e c).prober
  probed-IsMade e c h = subst IsMade (sym (probed-prober e c)) (step-IsMade e c.prober h)

  perform-IsMade : (k : Call) (c : Controller) → IsMade c.prober → IsMade (perform M k c).prober
  unfolding perform
  perform-IsMade (enqueue o) c h = h
  perform-IsMade (enqueue_controller_of o) c h = h
  perform-IsMade (on_deleted_observer o) c h = h
  perform-IsMade (cancel_ingress_probing o) c h = elim (Option-cases (ingress_probing_event M o)) [
    | inl e ↦ rw (e, perform) h
    | inr (ev, e) ↦ rw (e, perform) (probed-IsMade ev c h)
  ]
  perform-IsMade (cancel_pod_probing o) c h = elim (Option-cases (pod_probing_event o)) [
    | inl e ↦ rw (e, perform) h
    | inr (ev, e) ↦ rw (e, perform) (probed-IsMade ev c h)
  ]

  perform_all-IsMade :
      (ks : List Call) (c : Controller) → IsMade c.prober → IsMade (perform_all M ks c).prober
  unfolding perform_all
  perform_all-IsMade [] c h = h
  perform_all-IsMade (k ∷ ks) c h = perform_all-IsMade ks (perform M k c) (perform-IsMade k c h)

  run_controller-IsMade :
      (hs : List Happening) (c : Controller) → IsMade c.prober → IsMade (run_controller hs c).prober
  unfolding informed
  run_controller-IsMade [] c h = h
  run_controller-IsMade (notified i n ∷ hs) c h =
      run_controller-IsMade hs _ (perform_all-IsMade (calls_of M i (registrations M) n) c h)
  run_controller-IsMade (prober_event e ∷ hs) c h =
      run_controller-IsMade hs (probed e c) (probed-IsMade e c h)

  new_controller-IsMade : IsMade new_controller.prober
  unfolding new_controller run
  new_controller-IsMade = ([], refl)

  -- Whatever happened since `NewController`, in any order: whenever an event makes the prober's
  -- answer for a key ready that was not, the controller's queue gets, in the same event, the
  -- callback key of the route state under this key and nothing else.
  pub run_controller-ready :
      (hs : List Happening) (e : Event) (k : NamespacedName) (version : String)
      → view (run_controller hs new_controller).prober k ≡ some (state version false)
      → view (probed e (run_controller hs new_controller)).prober k ≡ some (state version true)
      → (id : ℕ) × (r : RouteState) × ((route_at (run_controller hs new_controller).prober k
            ≡ some (id, r))
          × ((probed e (run_controller hs new_controller)).queue
              ≡ (run_controller hs new_controller).queue ++ (r.callback_key ∷ [])))
  run_controller-ready hs e k version before after =
      let (es, made) = run_controller-IsMade hs new_controller new_controller-IsMade in
      probed-ready es e k version (run_controller hs new_controller) made before after
