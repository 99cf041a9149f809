-- ===== src/Controller/Deletes.antt =====
-- Deleted Ingresses and pods in pkg/reconciler/ingress/controller.go.
use net_gateway_api.Base.{
  ℕ, String, ◌≡◌, refl, sym, ap, ◌∙◌, ◌&&◌, some, List, [], ◌∷◌, ◌++◌, map, length, if◌then◌else◌,
  inl, inr, Bool-cases, Option-cases, is_some,
}
use net_gateway_api.Model.Names.{NamespacedName}
use net_gateway_api.Status.Prober.{Prober, lookup, lookup_ip, cancel_route}
use net_gateway_api.Status.Events.{
  Event, cancel_ingress, cancel_pod, step, calls_back, cancel_entry, cancel_round, cancel_loop,
  cancel_ingress_probing_by_key, cancel_pod_probing,
}
use net_gateway_api.Controller.{
  ObjectMeta, Object, pod_object, tombstone, deleted, enqueue, on_deleted_observer,
  cancel_ingress_probing, cancel_pod_probing as pod_call, Machinery, Controller, ingresses, pods,
  drop, keys_after, probed, ingress_probing_event, pod_probing_event, filter_func, registrations,
  perform, perform_all, calls_of, informed,
}
use net_gateway_api.Controller.Laws.{deletion_handling, key_of, keys_of, MachineryLaws}
use net_gateway_api.Controller.Routes.{filtered-handle_all}

drop_all : {A : Type 0} (xs : List A) → drop (length xs) xs ≡ []
unfolding drop
drop_all [] = refl
drop_all (x ∷ xs) = drop_all xs

append_nil : {A : Type 0} (xs : List A) → xs ++ [] ≡ xs
append_nil [] = refl
append_nil (x ∷ xs) = ap (λ ys. x ∷ ys) (append_nil xs)

-- An event that makes no callbacks.
pub probed-quiet :
    (e : Event) (c : Controller)
    → (step e c.prober).callbacks ≡ c.prober.callbacks
    → probed e c ≡ record c { prober = step e c.prober }
unfolding probed keys_after
probed-quiet e c q =
    let none_new : drop (length c.prober.callbacks) (step e c.prober).callbacks ≡ [] =
      ap (drop (length c.prober.callbacks)) q ∙ drop_all c.prober.callbacks in
    ap (λ keys. record c { queue = c.queue ++ keys; prober = step e c.prober })
      (ap (map (λ (id, key). key)) none_new)
    ∙ ap (λ queue. record c { queue = queue; prober = step e c.prober }) (append_nil c.queue)

cancel_round-callbacks :
    (key k : NamespacedName) (id : ℕ) (m : Prober)
    → (cancel_round key k id m).callbacks ≡ m.callbacks
unfolding cancel_round cancel_entry cancel_route
cancel_round-callbacks key k id m =
    elim (Bool-cases (is_some (lookup k m.route_states) && calls_back key id m)) [
      | inl e ↦ rw e refl
      | inr e ↦ rw e refl
    ]

cancel_loop-callbacks :
    (key : NamespacedName) (es : List (NamespacedName × ℕ)) (m : Prober)
    → (cancel_loop key es m).callbacks ≡ m.callbacks
unfolding cancel_loop
cancel_loop-callbacks key [] m = refl
cancel_loop-callbacks key ((k, id) ∷ es) m =
    cancel_loop-callbacks key es (cancel_round key k id m) ∙ cancel_round-callbacks key k id m

probed-cancel_ingress :
    (key : NamespacedName) (c : Controller)
    → probed (cancel_ingress key) c
      ≡ record c { prober = cancel_ingress_probing_by_key key c.prober }
unfolding step cancel_ingress_probing_by_key
probed-cancel_ingress key c =
    probed-quiet (cancel_ingress key) c (cancel_loop-callbacks key c.prober.route_states c.prober)

cancel_pod_probing-callbacks :
    (ip : String) (m : Prober) → (cancel_pod_probing ip m).callbacks ≡ m.callbacks
unfolding cancel_pod_probing
cancel_pod_probing-callbacks ip m = elim (Option-cases (lookup_ip ip m.pod_contexts)) [
  | inl e ↦ rw (e, cancel_pod_probing) refl
  | inr (id, e) ↦ rw (e, cancel_pod_probing) refl
]

probed-cancel_pod :
    (ip : String) (c : Controller)
    → probed (cancel_pod ip) c ≡ record c { prober = cancel_pod_probing ip c.prober }
unfolding step
probed-cancel_pod ip c = probed-quiet (cancel_pod ip) c (cancel_pod_probing-callbacks ip c.prober)

module _ (M : Machinery) (laws : MachineryLaws M) where
  -- The handler of deleted Ingresses under the filter.
  filtered-deleted :
      (o : Object)
      → M.notify (M.filtering (filter_func M) (M.handle_all enqueue)) (deleted o)
        ≡ (if filter_func M o then enqueue o ∷ [] else [])
  filtered-deleted o = elim (Bool-cases (filter_func M o)) [
    | inl e ↦ filtered-handle_all M laws (filter_func M) enqueue (deleted o) e ∙ rw e refl
    | inr e ↦ laws.filtering (filter_func M) (M.handle_all enqueue) (deleted o) ∙ rw e refl
  ]

  ingress_probing_event-some :
      (o : Object) (meta : ObjectMeta)
      → deletion_handling o ≡ some meta
      → ingress_probing_event M o ≡ some (cancel_ingress (key_of meta))
  unfolding ingress_probing_event
  ingress_probing_event-some o meta e = rw (laws.accessor o ∙ e, ingress_probing_event) refl

  calls_of-ingress_deleted :
      (o : Object)
      → calls_of M ingresses (registrations M) (deleted o)
        ≡ (if filter_func M o then enqueue o ∷ [] else [])
          ++ cancel_ingress_probing o ∷ on_deleted_observer o ∷ []
  unfolding registrations calls_of
  calls_of-ingress_deleted o =
      rw
        (
          filtered-deleted o,
          laws.on_delete cancel_ingress_probing (deleted o),
          laws.on_delete on_deleted_observer (deleted o),
        )
        refl

  -- The handlers without the filter.
  cancelled_and_untracked :
      (o : Object) (meta : ObjectMeta) (c : Controller)
      → deletion_handling o ≡ some meta
      → perform_all M (cancel_ingress_probing o ∷ on_deleted_observer o ∷ []) c ≡ record c {
        prober = cancel_ingress_probing_by_key (key_of meta) c.prober;
        untracked = c.untracked ++ (o ∷ []);
      }
  unfolding perform_all perform
  cancelled_and_untracked o meta c e = rw (ingress_probing_event-some o meta e) (
      ap (λ (d : Controller). record d { untracked = d.untracked ++ (o ∷ []) })
        (probed-cancel_ingress (key_of meta) c))

  enqueued :
      (o : Object) (meta : ObjectMeta) (c : Controller)
      → deletion_handling o ≡ some meta
      → perform M (enqueue o) c ≡ record c { queue = c.queue ++ key_of meta ∷ [] }
  unfolding perform
  enqueued o meta c e =
      ap (λ keys. record c { queue = c.queue ++ keys }) (laws.enqueue o ∙ ap keys_of e)

  -- For handlers that behave as documented: when an Ingress is deleted, or the tombstone of one is
  -- handed over, its probing is cancelled and the tracker is told; its key is put on the queue only
  -- if the object that is handed over passes the filter.
  pub informed-ingress_deleted :
      (o : Object) (meta : ObjectMeta) (c : Controller)
      → deletion_handling o ≡ some meta
      → informed M ingresses (deleted o) c ≡ record {
        queue = c.queue ++ (if filter_func M o then key_of meta ∷ [] else []);
        prober = cancel_ingress_probing_by_key (key_of meta) c.prober;
        untracked = c.untracked ++ (o ∷ []);
      }
  unfolding informed perform_all
  informed-ingress_deleted o meta c e = elim (Bool-cases (filter_func M o)) [
    | inl f ↦
        rw (calls_of-ingress_deleted o, f)
          (ap (perform_all M (cancel_ingress_probing o ∷ on_deleted_observer o ∷ []))
              (enqueued o meta c e)
            ∙ cancelled_and_untracked o meta (record c { queue = c.queue ++ key_of meta ∷ [] }) e)
    | inr f ↦
        rw (calls_of-ingress_deleted o, f)
          (cancelled_and_untracked o meta c e
            ∙ ap
                (λ queue. record {
                  queue = queue;
                  prober = cancel_ingress_probing_by_key (key_of meta) c.prober;
                  untracked = c.untracked ++ (o ∷ []);
                })
                (sym (append_nil c.queue)))
  ]

  -- For handlers that behave as documented: when a pod is deleted, the probing of its IP is
  -- cancelled; when the tombstone of a pod is handed over, nothing is done.
  pub informed-pod_deleted :
      (meta : ObjectMeta) (ip : String) (c : Controller)
      → (informed M pods (deleted (pod_object meta ip)) c
          ≡ record c { prober = cancel_pod_probing ip c.prober })
        × (informed M pods (deleted (tombstone (pod_object meta ip))) c ≡ c)
  unfolding informed registrations calls_of perform_all perform pod_probing_event
  informed-pod_deleted meta ip c = (
    rw (laws.on_delete pod_call (deleted (pod_object meta ip))) (probed-cancel_pod ip c),
    rw (laws.on_delete pod_call (deleted (tombstone (pod_object meta ip)))) refl,
  )
