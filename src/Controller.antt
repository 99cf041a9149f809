-- ===== src/Controller.antt =====
-- `NewController` of pkg/reconciler/ingress/controller.go: which notifications of the informers
-- and which calls of the prober put the key of an Ingress on the controller's queue. The handlers
-- of third-party packages are the parameter `Machinery`.
pub mod Laws
pub mod Routes
pub mod Deletes
pub mod Wakes
pub mod Runs
use net_gateway_api.Base.{
  ℕ, zero, suc, String, Bool, true, false, Option, none, some, List, [], ◌∷◌, ◌++◌, map, length,
}
use net_gateway_api.Model.Names.{NamespacedName, StringMap}
use net_gateway_api.Model.Gateway.{OwnerReference, HttpRoute}
use net_gateway_api.Model.Ingress.{Ingress}
use net_gateway_api.Status.Prober.{Prober, new_prober}
use net_gateway_api.Status.Events.{Event, cancel_ingress, cancel_pod, step}

pub record ObjectMeta : Type 0 where
  pub namespace : String
  pub name : String
  pub annotations : StringMap
  pub owner_references : List OwnerReference

-- What an informer hands to its handlers. A tombstone (cache.DeletedFinalStateUnknown) stands for
-- an object whose deletion was not observed, with its last known state.
pub data Object : Type 0 where
  ingress_object : Ingress → Object
  http_route_object : HttpRoute → Object
  gateway_object : ObjectMeta → Object
  -- with `Status.PodIP`
  pod_object : ObjectMeta → String → Object
  tombstone : Object → Object

pub data Notification : Type 0 where
  added : Object → Notification
  updated : Object → Object → Notification
  deleted : Object → Notification

pub data Informer : Type 0 where
  ingresses : Informer
  http_routes : Informer
  gateways : Informer
  pods : Informer

-- The functions that handlers call with an object.
pub data Call : Type 0 where
  enqueue : Object → Call
  enqueue_controller_of : Object → Call
  cancel_ingress_probing : Object → Call
  cancel_pod_probing : Object → Call
  on_deleted_observer : Object → Call

-- reconciler.AnnotationFilterFunc; controller.HandleAll, cache.FilteringResourceEventHandler, the
-- handler with a DeleteFunc alone, and what a handler calls for a notification;
-- kmeta.DeletionHandlingAccessor; and the keys that `Enqueue` and `EnqueueControllerOf` of the
-- controller add to its queue.
pub record Machinery : Type 1 where
  pub Handler : Type 0
  pub annotation_filter : String → String → Bool → Object → Bool
  pub handle_all : (Object → Call) → Handler
  pub filtering : (Object → Bool) → Handler → Handler
  pub on_delete : (Object → Call) → Handler
  pub notify : Handler → Notification → List Call
  pub accessor : Object → Option ObjectMeta
  pub enqueue : Object → List NamespacedName
  pub enqueue_controller_of : Object → List NamespacedName

-- networking.IngressClassAnnotationKey
abbrev pub class_key : String
class_key = "networking.knative.dev/ingress.class"

abbrev pub gateway_api_ingress_class_name : String
gateway_api_ingress_class_name = "gateway-api.ingress.networking.knative.dev"

-- The controller's queue, the prober, and the observers of which the tracker was told that they
-- are deleted.
pub record Controller : Type 0 where
  pub queue : List NamespacedName
  pub prober : Prober
  pub untracked : List Object

unfoldable pub new_controller : Controller
new_controller = record { queue = []; prober = new_prober; untracked = [] }

unfoldable pub drop {ℓ} : {A : Type ℓ} → ℕ → List A → List A
drop zero xs = xs
drop (suc n) [] = []
drop (suc n) (x ∷ xs) = drop n xs

-- The keys of the callbacks that a prober made after the first `n`.
unfoldable pub keys_after : ℕ → Prober → List NamespacedName
unfolding drop
keys_after n m = map (λ (id, key). key) (drop n m.callbacks)

-- An event of the prober. Its ready callback is `impl.EnqueueKey`.
unfoldable pub probed : Event → Controller → Controller
unfolding keys_after
probed e c =
    let m = step e c.prober in
    record c { queue = c.queue ++ keys_after (length c.prober.callbacks) m; prober = m }

-- `CancelPodProbing` of the prober: its argument is a pod, or the call does nothing.
unfoldable pub pod_probing_event : Object → Option Event
pod_probing_event (pod_object meta ip) = some (cancel_pod ip)
pod_probing_event (ingress_object ing) = none
pod_probing_event (http_route_object r) = none
pod_probing_event (gateway_object meta) = none
pod_probing_event (tombstone o) = none

abbrev probed_if : Option Event → Controller → Controller
probed_if none c = c
probed_if (some e) c = probed e c

module _ (M : Machinery) where
  unfoldable pub filter_func : Object → Bool
  filter_func = M.annotation_filter class_key gateway_api_ingress_class_name false

  -- `AddEventHandler`, in order.
  unfoldable pub registrations : List (Informer × M.Handler)
  unfolding filter_func
  registrations =
      (ingresses, M.filtering filter_func (M.handle_all enqueue))
      ∷ (http_routes, M.filtering filter_func (M.handle_all enqueue_controller_of))
      ∷ (gateways, M.filtering filter_func (M.handle_all enqueue_controller_of))
      ∷ (ingresses, M.on_delete cancel_ingress_probing)
      ∷ (ingresses, M.on_delete on_deleted_observer)
      ∷ (pods, M.on_delete cancel_pod_probing)
      ∷ []

  -- `CancelIngressProbing` of the prober: the key of the object, or of the object of a tombstone.
  unfoldable pub ingress_probing_event : Object → Option Event
  ingress_probing_event o = elim (M.accessor o) [
    | none ↦ none
    | some meta ↦ some (cancel_ingress (record { namespace = meta.namespace; name = meta.name }))
  ]

  unfoldable pub perform : Call → Controller → Controller
  unfolding probed ingress_probing_event pod_probing_event
  perform (enqueue o) c = record c { queue = c.queue ++ M.enqueue o }
  perform (enqueue_controller_of o) c = record c { queue = c.queue ++ M.enqueue_controller_of o }
  perform (cancel_ingress_probing o) c = probed_if (ingress_probing_event o) c
  perform (cancel_pod_probing o) c = probed_if (pod_probing_event o) c
  perform (on_deleted_observer o) c = record c { untracked = c.untracked ++ o ∷ [] }

  unfoldable pub perform_all : List Call → Controller → Controller
  unfolding perform
  perform_all [] c = c
  perform_all (k ∷ ks) c = perform_all ks (perform k c)

  -- The handlers that are registered for an informer, one after the other.
  unfoldable pub calls_of : Informer → List (Informer × M.Handler) → Notification → List Call
  calls_of i [] n = []
  calls_of ingresses ((ingresses, h) ∷ hs) n = M.notify h n ++ calls_of ingresses hs n
  calls_of http_routes ((http_routes, h) ∷ hs) n = M.notify h n ++ calls_of http_routes hs n
  calls_of gateways ((gateways, h) ∷ hs) n = M.notify h n ++ calls_of gateways hs n
  calls_of pods ((pods, h) ∷ hs) n = M.notify h n ++ calls_of pods hs n
  calls_of i ((j, h) ∷ hs) n = calls_of i hs n

  -- A notification of an informer.
  unfoldable pub informed : Informer → Notification → Controller → Controller
  unfolding registrations calls_of perform_all
  informed i n = perform_all (calls_of i registrations n)
