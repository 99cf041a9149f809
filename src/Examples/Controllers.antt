-- ===== src/Examples/Controllers.antt =====
-- The theorems on the controller and its configuration, at concrete objects.
use net_gateway_api.Base.{
  map, ℕ, String, ◌≡◌, refl, Bool, Option, none, some, List, [], ◌∷◌, ◌++◌, set, ok, err, panic,
  if◌then◌else◌, arith, inl, inr, Bool-cases,
}
use net_gateway_api.Base.Text.{◌=s◌, =s_iff}
use net_gateway_api.Config.{GatewayPlugin, lookup}
use net_gateway_api.Config.Copies.{
  GatewayRef, PluginRef, service_cell, features_cell, gateways_cell, Heap, copy_plugin,
}
use net_gateway_api.Config.Copies.Content.{IsPlugin}
use net_gateway_api.Config.Copies.Fresh.{FreshPlugin}
use net_gateway_api.Config.Store.{
  Config, gateway_plugin_value, network_value, UntypedStore, Contexts, ContextsLaws,
  gateway_config_name, attached, config_of, attached-IsPlugin,
}
use net_gateway_api.Model.Names.{StringMap}
use net_gateway_api.Model.Gateway.{HttpRoute}
use net_gateway_api.Model.Ingress.{Ingress}
use net_gateway_api.Resources.Make.{make_http_route}
use net_gateway_api.Status.Prober.{RouteState, new_prober, route_at, is_probe_active}
use net_gateway_api.Status.Events.{works, run, cancel_ingress_probing_by_key, cancel_pod_probing}
use net_gateway_api.Controller.{
  ObjectMeta, ingress_object, http_route_object, pod_object, tombstone, Notification, updated,
  deleted, Machinery, Controller, new_controller, ingresses, http_routes, pods, probed, filter_func,
  informed, class_key, gateway_api_ingress_class_name, Call,
}
use net_gateway_api.Controller.Laws.{
  object_meta, has_annotation, deletion_handling, newest, passed, keys_of, controller_keys,
  on_passed, on_deleted, MachineryLaws, KmetaLaws,
}
use net_gateway_api.Controller.Routes.{make_http_route-informed}
use net_gateway_api.Controller.Deletes.{informed-ingress_deleted, informed-pod_deleted}
use net_gateway_api.Controller.Runs.{
  Happening, notified, prober_event, run_controller, run_controller-ready,
}
use net_gateway_api.Examples.Objects.{kmeta, name_of, gateway, plugin, ingress, rule, route}
use net_gateway_api.Examples.Probing.{first_events, transport}

abbrev waiting_controller : Controller
waiting_controller = record { queue = []; prober = run first_events new_prober; untracked = [] }

-- Handlers as their documentation has them.
abbrev machinery : Machinery
machinery = record {
  Handler = Notification → List Call;
  annotation_filter = λ key value unset o. has_annotation key value (object_meta o);
  handle_all = λ f n. f (newest n) ∷ [];
  filtering = λ p h n. on_passed h (passed p n);
  on_delete = λ f n. on_deleted f n;
  notify = λ h n. h n;
  accessor = λ o. deletion_handling o;
  enqueue = λ o. keys_of (deletion_handling o);
  enqueue_controller_of = λ o. controller_keys (deletion_handling o);
}

abbrev machinery_laws : MachineryLaws machinery
machinery_laws = record {
  annotation_filter = λ key value o. refl;
  handle_all = λ f n. refl;
  filtering = λ p h n. refl;
  on_delete = λ f n. refl;
  accessor = λ o. refl;
  enqueue = λ o. refl;
  enqueue_controller_of = λ o. refl;
}

lookup-filter_map :
    (m : StringMap) (drops : String → Bool) (key : String)
    → lookup key (kmeta.filter_map m drops) ≡ (if drops key then none else lookup key m)
unfolding lookup
lookup-filter_map [] drops key = ground arith
lookup-filter_map ((k, v) ∷ m) drops key = elim (Bool-cases (k =s key)) [
  | inl e ↦
      rw ((=s_iff k key).0 e)
        (ground (arith, lookup-filter_map m drops key, (=s_iff key key).1 refl))
  | inr e ↦ ground (arith, lookup-filter_map m drops key, e)
]

abbrev kmeta_laws : KmetaLaws kmeta
kmeta_laws = record { filter_map = lookup-filter_map; new_controller_ref = λ ing. refl }

abbrev classed : Ingress
classed = record ingress { annotations = (class_key, gateway_api_ingress_class_name) ∷ [] }

abbrev made : HttpRoute
made = elim (make_http_route kmeta plugin classed rule) [
  | ok r ↦ r
  | err e ↦ route
  | panic m ↦ route
]

-- An update of the route, which had lost its annotations.
abbrev update : Notification
update = updated (http_route_object (record made { annotations = [] })) (http_route_object made)

make_http_route-informed_example :
    informed machinery http_routes update new_controller
    ≡ record new_controller { queue = new_controller.queue ++ (name_of "ing" ∷ []) }
unfolding make_http_route filter_func lookup
make_http_route-informed_example =
    make_http_route-informed kmeta kmeta_laws machinery machinery_laws plugin classed rule made
      update new_controller refl refl refl

abbrev classed_meta : ObjectMeta
classed_meta = record {
  namespace = "ns";
  name = "ing";
  annotations = classed.annotations;
  owner_references = [];
}

informed-ingress_deleted_example :
    informed machinery ingresses (deleted (tombstone (ingress_object classed))) waiting_controller
    ≡ record {
      queue =
          []
          ++ (if filter_func machinery (tombstone (ingress_object classed))
              then name_of "ing" ∷ []
              else []);
      prober = cancel_ingress_probing_by_key (name_of "ing") waiting_controller.prober;
      untracked = [] ++ (tombstone (ingress_object classed) ∷ []);
    }
informed-ingress_deleted_example =
    informed-ingress_deleted machinery machinery_laws (tombstone (ingress_object classed))
      classed_meta waiting_controller refl

informed-pod_deleted_example :
    (informed machinery pods (deleted (pod_object classed_meta "10.0.0.1")) waiting_controller
      ≡ record waiting_controller {
        prober = cancel_pod_probing "10.0.0.1" waiting_controller.prober;
      })
    × (informed machinery pods
          (deleted (tombstone (pod_object classed_meta "10.0.0.1")))
          waiting_controller
        ≡ waiting_controller)
informed-pod_deleted_example =
    informed-pod_deleted machinery machinery_laws classed_meta "10.0.0.1" waiting_controller

-- A context with at most one value, and a store that was loaded; the network configuration is a
-- text.
abbrev contexts : Contexts String
contexts = record {
  Context = Option (Option (Config String));
  value = λ ctx. ctx;
  with_value = λ c ctx. some c;
}

abbrev contexts_laws : ContextsLaws contexts
contexts_laws = record { value-with_value = λ c ctx. refl }

abbrev gateway_ref : GatewayRef
gateway_ref = record {
  namespaced_name = name_of "gw";
  class = "istio";
  service = some 0;
  supported_features = none;
}

abbrev memory : Heap
memory = service_cell (name_of "svc") ∷ gateways_cell (gateway_ref ∷ []) ∷ []

abbrev plugin_ref : PluginRef
plugin_ref = record { external_gateways = some 1; local_gateways = none }

abbrev loaded : GatewayPlugin
loaded = record {
  external_gateways = record gateway { service = some (name_of "svc") } ∷ [];
  local_gateways = [];
}

abbrev untyped_store : UntypedStore String
untyped_store = record {
  State = Unit;
  untyped_load = λ name u.
      if name =s gateway_config_name
      then some (gateway_plugin_value (some plugin_ref))
      else some (network_value (some "net"));
}

attached-IsPlugin_example :
    (attached contexts untyped_store tt memory none
      ≡ ok (
        (copy_plugin memory plugin_ref).0,
        some (config_of "net" (copy_plugin memory plugin_ref).1),
      ))
    × (IsPlugin (copy_plugin memory plugin_ref).0 (copy_plugin memory plugin_ref).1 loaded
        × (FreshPlugin 2 (copy_plugin memory plugin_ref).0 (copy_plugin memory plugin_ref).1
            × IsPlugin
                (set (copy_plugin memory plugin_ref).0 2 (features_cell []))
                plugin_ref
                loaded))
unfolding ◌=s◌
attached-IsPlugin_example =
    attached-IsPlugin contexts contexts_laws untyped_store tt none memory plugin_ref "net" loaded 2
      (features_cell []) refl refl
      ((gateway_ref ∷ [], (refl, (((refl, refl), (refl, refl)), tt))), refl) (omega arith)

-- An Ingress of the class is seen, and then two pods are probed, one of which answers.
abbrev happenings : List Happening
happenings =
    notified ingresses (updated (ingress_object classed) (ingress_object classed))
    ∷ map prober_event first_events

abbrev seen_controller : Controller
seen_controller = run_controller machinery happenings new_controller

run_controller-ready_example :
    (id : ℕ) × (r : RouteState) × ((route_at seen_controller.prober (name_of "b.example")
        ≡ some (id, r))
      × ((probed (works transport) seen_controller).queue
          ≡ seen_controller.queue ++ (r.callback_key ∷ [])))
unfolding run new_prober is_probe_active probed new_controller informed lookup
run_controller-ready_example =
    run_controller-ready machinery happenings (works transport) (name_of "b.example") "v1" refl refl
