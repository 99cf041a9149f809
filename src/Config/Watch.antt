-- ===== src/Config/Watch.antt =====
-- `NewStore` of pkg/reconciler/ingress/config/store.go, and how `NewController` of
-- pkg/reconciler/ingress/controller.go uses it: which configuration is loaded after the config
-- maps changed, by its content, and when the Ingresses are reconciled again for it. The untyped
-- store and the type filter of knative.dev/pkg/configmap are the parameter `ConfigMaps`.
pub mod Latest
pub mod Usable
use net_gateway_api.Base.{
  String, ◌≡◌, Bool, true, false, ◌||◌, Option, none, some, List, [], ◌∷◌, ◌++◌, map, any,
  concat_map, if◌then◌else◌, Error, Result, ok, err, panic, ◌>>=◌,
}
use net_gateway_api.Base.Text.{◌=s◌}
use net_gateway_api.Model.Names.{StringMap}
use net_gateway_api.Config.{GatewayPlugin, Parsers, from_config_map}
use net_gateway_api.Config.Store.{gateway_config_name, network_config_name}

-- corev1.ConfigMap
pub record ConfigMap : Type 0 where
  pub name : String
  pub data_of : StringMap

-- What a constructor gives: a pointer to a value of one of two types. The network configuration
-- `N` is a value of a third-party type.
pub data Built (N : Type 0) : Type 0 where
  built_plugin : GatewayPlugin → Built N
  built_network : N → Built N

abbrev pub Constructor : Type 0 → Type 0
Constructor N = ConfigMap → Result (Built N)

-- The types of the values that a callback is filtered by.
pub data ConfigType : Type 0 where
  network_type : ConfigType
  plugin_type : ConfigType

-- `impl.GlobalResync` for the informer of the Ingresses.
pub data Resync : Type 0 where
  global_resync : Resync

abbrev pub Callback : Type 0 → Type 0
Callback N = String → Built N → List Resync

-- `NewUntypedStore`, `OnConfigChanged` with what the callbacks do, where an error ends the process;
-- `UntypedLoad`; `TypeFilter`.
pub record ConfigMaps (N : Type 0) : Type 1 where
  pub State : Type 0
  pub new_untyped_store : List (String × Constructor N) → List (Callback N) → State
  pub on_config_changed : ConfigMap → State → Result (State × List Resync)
  pub untyped_load : String → State → Option (Built N)
  pub type_filter : List ConfigType → Callback N → Callback N

module _ {N : Type 0} (P : Parsers) (new_config_from_config_map : StringMap → Result N) where
  unfoldable pub plugin_constructor : Constructor N
  unfolding from_config_map
  plugin_constructor cm = do g ← from_config_map P cm.data_of; ok (built_plugin g)

  unfoldable pub network_constructor : Constructor N
  network_constructor cm = do n ← new_config_from_config_map cm.data_of; ok (built_network n)

  -- configmap.Constructors
  unfoldable pub constructors : List (String × Constructor N)
  unfolding plugin_constructor network_constructor
  constructors =
      (gateway_config_name, plugin_constructor) ∷ (network_config_name, network_constructor) ∷ []

  module _ (C : ConfigMaps N) where
    -- `NewStore`
    unfoldable pub new_store : List (Callback N) → C.State
    unfolding constructors
    new_store on_after_store = C.new_untyped_store constructors on_after_store

    unfoldable pub configs_to_resync : List ConfigType
    configs_to_resync = network_type ∷ plugin_type ∷ []

    unfoldable pub resync : Callback N
    unfolding configs_to_resync
    resync = C.type_filter configs_to_resync (λ name v. global_resync ∷ [])

    -- The store of `NewController`.
    unfoldable pub config_store : C.State
    unfolding new_store resync
    config_store = new_store (resync ∷ [])

-- The changes of config maps that the watcher reports, in order.
abbrev pub changes :
    {N : Type 0} (C : ConfigMaps N) → List ConfigMap → C.State → Result (C.State × List Resync)
changes C [] s = ok (s, [])
changes C (cm ∷ cms) s = do
  first ← C.on_config_changed cm s
  rest ← changes C cms first.0
  ok (rest.0, first.1 ++ rest.1)

-- The constructor for a name.
abbrev pub constructor_of :
    {N : Type 0} → String → List (String × Constructor N) → Option (Constructor N)
constructor_of name [] = none
constructor_of name ((n, c) ∷ cs) = if n =s name then some c else constructor_of name cs

abbrev pub type_of : {N : Type 0} → Built N → ConfigType
type_of (built_plugin g) = plugin_type
type_of (built_network n) = network_type

abbrev pub same_type : ConfigType → ConfigType → Bool
same_type network_type network_type = true
same_type plugin_type plugin_type = true
same_type _ _ = false

-- The states of a store that was made from some constructors and callbacks.
pub data Reached {N : Type 0} (C : ConfigMaps N) (cs : List (String × Constructor N))
    (fs : List (Callback N)) : C.State → Type 0 where
  fresh : Reached C cs fs (C.new_untyped_store cs fs)
  changed :
      (s : C.State) (cm : ConfigMap) (s' : C.State) (done : List Resync)
      → Reached C cs fs s
      → C.on_config_changed cm s ≡ ok (s', done)
      → Reached C cs fs s'

-- What a store does with the error of a constructor: it keeps a value that there is already, and
-- otherwise ends the process.
abbrev pub Refused :
    {N : Type 0} (C : ConfigMaps N) → ConfigMap → C.State → Error → Option (Built N) → Type 0
Refused C cm s e none = C.on_config_changed cm s ≡ err e
Refused C cm s e (some v) =
    (s' : C.State) × ((C.on_config_changed cm s ≡ ok (s', []))
      × ((name : String) → C.untyped_load name s' ≡ C.untyped_load name s))

-- And with the outcome of one: a value is stored, and the callbacks are called.
abbrev pub Stores :
    {N : Type 0} (C : ConfigMaps N)
    → List (Callback N)
    → ConfigMap
    → C.State
    → Result (Built N)
    → Type 0
Stores C fs cm s (ok v) =
    (s' : C.State) × ((C.on_config_changed cm s ≡ ok (s', concat_map (λ f. f cm.name v) fs))
      × ((name : String)
          → C.untyped_load name s' ≡ (if cm.name =s name then some v else C.untyped_load name s)))
Stores C fs cm s (panic m) = C.on_config_changed cm s ≡ panic m
Stores C fs cm s (err e) = Refused C cm s e (C.untyped_load cm.name s)

-- What the package says of its functions.
pub record ConfigMapsLaws {N : Type 0} (C : ConfigMaps N) : Type 0 where
  pub new_untyped_store :
      (cs : List (String × Constructor N)) (fs : List (Callback N)) (name : String)
      → C.untyped_load name (C.new_untyped_store cs fs) ≡ none
  pub on_config_changed :
      (cs : List (String × Constructor N)) (fs : List (Callback N)) (s : C.State) (cm : ConfigMap)
      (c : Constructor N)
      → Reached C cs fs s
      → constructor_of cm.name cs ≡ some c
      → Stores C fs cm s (c cm)
  pub type_filter :
      (ts : List ConfigType) (f : Callback N) (name : String) (v : Built N)
      → C.type_filter ts f name v ≡ (if any (same_type (type_of v)) ts then f name v else [])
