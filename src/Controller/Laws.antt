-- ===== src/Controller/Laws.antt =====
-- The documented behaviour of the third-party handlers that `NewController` registers.
use net_gateway_api.Base.{
  String, ◌≡◌, Bool, false, Option, none, some, List, [], ◌∷◌, if◌then◌else◌,
}
use net_gateway_api.Base.Text.{◌=s◌}
use net_gateway_api.Config.{lookup}
use net_gateway_api.Model.Names.{NamespacedName, StringMap}
use net_gateway_api.Model.Gateway.{OwnerReference}
use net_gateway_api.Model.Ingress.{Ingress}
use net_gateway_api.Resources.Constants.{Kmeta}
use net_gateway_api.Controller.{
  ObjectMeta, Object, ingress_object, http_route_object, gateway_object, pod_object, tombstone,
  Notification, added, updated, deleted, Call, Machinery,
}

-- The metadata of an object of the cluster. The owners of an Ingress and of a pod are not modelled.
abbrev pub object_meta : Object → Option ObjectMeta
object_meta (ingress_object ing) = some (record {
  namespace = ing.namespace;
  name = ing.name;
  annotations = ing.annotations;
  owner_references = [];
})
object_meta (http_route_object r) = some (record {
  namespace = r.namespace;
  name = r.name;
  annotations = r.annotations;
  owner_references = r.owner_references;
})
object_meta (gateway_object meta) = some meta
object_meta (pod_object meta ip) = some meta
object_meta (tombstone o) = none

abbrev pub has_annotation : String → String → Option ObjectMeta → Bool
has_annotation key value none = false
has_annotation key value (some meta) = elim (lookup key meta.annotations) [
  | none ↦ false
  | some v ↦ v =s value
]

-- The object itself, or that of a tombstone.
abbrev pub deletion_handling : Object → Option ObjectMeta
deletion_handling (tombstone o) = object_meta o
deletion_handling (ingress_object ing) = object_meta (ingress_object ing)
deletion_handling (http_route_object r) = object_meta (http_route_object r)
deletion_handling (gateway_object meta) = some meta
deletion_handling (pod_object meta ip) = some meta

abbrev pub key_of : ObjectMeta → NamespacedName
key_of meta = record { namespace = meta.namespace; name = meta.name }

-- The name of the owner that is the controller.
abbrev pub controller_of : List OwnerReference → Option String
controller_of [] = none
controller_of (o ∷ os) = elim o.controller [ none ↦ controller_of os | some name ↦ some name ]

-- The object of a notification, the newer one of an update.
abbrev pub newest : Notification → Object
newest (added o) = o
newest (updated old new) = new
newest (deleted o) = o

-- A notification that passes a filter, or what it is turned into.
abbrev pub passed : (Object → Bool) → Notification → Option Notification
passed p (added o) = if p o then some (added o) else none
passed p (deleted o) = if p o then some (deleted o) else none
passed p (updated old new) =
    if p new
    then if p old then some (updated old new) else some (added new)
    else if p old
    then some (deleted old)
    else none

abbrev pub keys_of : Option ObjectMeta → List NamespacedName
keys_of none = []
keys_of (some meta) = key_of meta ∷ []

abbrev pub controller_keys : Option ObjectMeta → List NamespacedName
controller_keys none = []
controller_keys (some meta) = elim (controller_of meta.owner_references) [
  | none ↦ []
  | some name ↦ record { namespace = meta.namespace; name = name } ∷ []
]

abbrev pub on_passed : (Notification → List Call) → Option Notification → List Call
on_passed h none = []
on_passed h (some n) = h n

abbrev pub on_deleted : (Object → Call) → Notification → List Call
on_deleted f (added o) = []
on_deleted f (updated old new) = []
on_deleted f (deleted o) = f o ∷ []

-- What the packages say of their functions.
pub record MachineryLaws (M : Machinery) : Type 0 where
  pub annotation_filter :
      (key value : String) (o : Object)
      → M.annotation_filter key value false o ≡ has_annotation key value (object_meta o)
  pub handle_all :
      (f : Object → Call) (n : Notification) → M.notify (M.handle_all f) n ≡ f (newest n) ∷ []
  pub filtering :
      (p : Object → Bool) (h : M.Handler) (n : Notification)
      → M.notify (M.filtering p h) n ≡ on_passed (M.notify h) (passed p n)
  pub on_delete :
      (f : Object → Call) (n : Notification) → M.notify (M.on_delete f) n ≡ on_deleted f n
  pub accessor : (o : Object) → M.accessor o ≡ deletion_handling o
  pub enqueue : (o : Object) → M.enqueue o ≡ keys_of (deletion_handling o)
  pub enqueue_controller_of :
      (o : Object) → M.enqueue_controller_of o ≡ controller_keys (deletion_handling o)

-- kmeta.FilterMap keeps the entries of the keys that do not pass its test, and
-- kmeta.NewControllerRef names the Ingress as the controller.
pub record KmetaLaws (K : Kmeta) : Type 0 where
  pub filter_map :
      (m : StringMap) (drops : String → Bool) (key : String)
      → lookup key (K.filter_map m drops) ≡ (if drops key then none else lookup key m)
  pub new_controller_ref : (ing : Ingress) → (K.new_controller_ref ing).controller ≡ some ing.name
