-- ===== src/Examples/Watching.antt =====
-- The theorems on the store of configurations, over a store as an association list.
use net_gateway_api.Base.{
  ℕ, String, ◌≡◌, refl, sym, ap, ◌∙◌, Option, none, some, List, [], ◌∷◌, any, concat_map,
  if◌then◌else◌, Error, Result, ok, err, panic, ok-injective,
}
use net_gateway_api.Base.Text.{◌=s◌}
use net_gateway_api.Model.Names.{StringMap}
use net_gateway_api.Config.{from_config_map}
use net_gateway_api.Config.Store.{gateway_config_name, network_config_name}
use net_gateway_api.Config.Watch.{
  ConfigMap, Built, Constructor, Callback, Resync, ConfigMaps, ConfigMapsLaws, type_of, same_type,
  constructor_of, config_store, changes, Reached, fresh, changed, Stores, Refused,
  plugin_constructor, network_constructor, constructors, new_store, resync,
}
use net_gateway_api.Config.Watch.Latest.{latest, resyncs, config_store-latest}
use net_gateway_api.Config.Watch.Usable.{IsUsable, IsNetwork, config_store-IsUsable}
use net_gateway_api.Examples.Objects.{parsers}

abbrev Constructors : Type 0
Constructors = List (String × Constructor ℕ)

record Stored : Type 0 where
  constructors_of : Constructors
  callbacks_of : List (Callback ℕ)
  values : List (String × Built ℕ)

abbrev load_value : String → List (String × Built ℕ) → Option (Built ℕ)
load_value name [] = none
load_value name ((n, v) ∷ vs) = if n =s name then some v else load_value name vs

abbrev keep_or_end : Stored → Error → Option (Built ℕ) → Result (Stored × List Resync)
keep_or_end s e none = err e
keep_or_end s e (some v) = ok (s, [])

abbrev store_value :
    Stored → ConfigMap → List (Callback ℕ) → Result (Built ℕ) → Result (Stored × List Resync)
store_value s cm fs (ok v) =
    ok (record s { values = (cm.name, v) ∷ s.values }, concat_map (λ f. f cm.name v) fs)
store_value s cm fs (err e) = keep_or_end s e (load_value cm.name s.values)
store_value s cm fs (panic m) = panic m

abbrev construct : Stored → ConfigMap → Option (Constructor ℕ) → Result (Stored × List Resync)
construct s cm none = panic "call of nil function"
construct s cm (some c) = store_value s cm s.callbacks_of (c cm)

abbrev maps : ConfigMaps ℕ
maps = record {
  State = Stored;
  new_untyped_store = λ cs fs. record { constructors_of = cs; callbacks_of = fs; values = [] };
  on_config_changed = λ cm s. construct s cm (constructor_of cm.name s.constructors_of);
  untyped_load = λ name s. load_value name s.values;
  type_filter = λ ts f name v. if any (same_type (type_of v)) ts then f name v else [];
}

-- A store keeps its constructors and callbacks.
abbrev Same : Stored → Stored → Type 0
Same s s' = (s'.constructors_of ≡ s.constructors_of) × (s'.callbacks_of ≡ s.callbacks_of)

keep_or_end-Same :
    (s : Stored) (e : Error) (o : Option (Built ℕ)) (p : Stored × List Resync)
    → keep_or_end s e o ≡ ok p
    → Same s p.0
keep_or_end-Same s e none p h = cc
keep_or_end-Same s e (some v) p h =
    let q = ok-injective h in
    (ap (λ p. Stored.constructors_of p.0) (sym q), ap (λ p. Stored.callbacks_of p.0) (sym q))

store_value-Same :
    (s : Stored) (cm : ConfigMap) (fs : List (Callback ℕ)) (r : Result (Built ℕ))
    (p : Stored × List Resync)
    → store_value s cm fs r ≡ ok p
    → Same s p.0
store_value-Same s cm fs (ok v) p h =
    let q = ok-injective h in
    (ap (λ p. Stored.constructors_of p.0) (sym q), ap (λ p. Stored.callbacks_of p.0) (sym q))
store_value-Same s cm fs (err e) p h = keep_or_end-Same s e (load_value cm.name s.values) p h
store_value-Same s cm fs (panic m) p h = cc

construct-Same :
    (s : Stored) (cm : ConfigMap) (o : Option (Constructor ℕ)) (p : Stored × List Resync)
    → construct s cm o ≡ ok p
    → Same s p.0
construct-Same s cm none p h = cc
construct-Same s cm (some c) p h = store_value-Same s cm s.callbacks_of (c cm) p h

module _ (cs : Constructors) (fs : List (Callback ℕ)) where
  reached : (s : Stored) → Reached maps cs fs s → (s.constructors_of ≡ cs) × (s.callbacks_of ≡ fs)
  reached _ fresh = (refl, refl)
  reached _ (changed s cm s' done r e) =
      let (c, f) = reached s r in
      let (c', f') = construct-Same s cm (constructor_of cm.name s.constructors_of) (s', done) e in
      (c' ∙ c, f' ∙ f)

  refused :
      (s : Stored) (cm : ConfigMap) (e : Error) (o : Option (Built ℕ))
      → construct s cm (constructor_of cm.name s.constructors_of) ≡ keep_or_end s e o
      → Refused maps cm s e o
  refused s cm e none h = h
  refused s cm e (some v) h = (s, (h, λ name. refl))

  stores :
      (s : Stored) (cm : ConfigMap) (r : Result (Built ℕ))
      → construct s cm (constructor_of cm.name s.constructors_of) ≡ store_value s cm fs r
      → Stores maps fs cm s r
  stores s cm (ok v) h = (record s { values = (cm.name, v) ∷ s.values }, (h, λ name. refl))
  stores s cm (panic m) h = h
  stores s cm (err e) h = refused s cm e (load_value cm.name s.values) h

maps_laws : ConfigMapsLaws maps
maps_laws = record {
  new_untyped_store = λ cs fs name. refl;
  on_config_changed = λ cs fs s cm c r found_.
      let (e, f) = reached cs fs s r in
      stores cs fs s cm (c cm) (
        ap (λ cs. construct s cm (constructor_of cm.name cs)) e
        ∙ ap (construct s cm) found_
        ∙ ap (λ fs. store_value s cm fs (c cm)) f);
  type_filter = λ ts f name v. refl;
}

-- The default gateways, the network, and a gateway of its own.
abbrev network_of : StringMap → Result ℕ
network_of m = ok 7

abbrev config_maps : List ConfigMap
config_maps =
    record { name = gateway_config_name; data_of = [] }
    ∷ record { name = network_config_name; data_of = [] }
    ∷ record { name = gateway_config_name; data_of = ("external-gateways", "gw") ∷ [] }
    ∷ []

abbrev value_or_new : Result (Stored × List Resync) → Stored × List Resync
value_or_new (ok p) = p
value_or_new (err e) = (config_store parsers network_of maps, [])
value_or_new (panic m) = (config_store parsers network_of maps, [])

abbrev last : Stored × List Resync
last = value_or_new (changes maps config_maps (config_store parsers network_of maps))

config_store-latest_example :
    ((name : String)
      → load_value name last.0.values ≡ latest parsers network_of name config_maps none)
    × (last.1 ≡ resyncs parsers network_of config_maps)
unfolding config_store plugin_constructor network_constructor constructors new_store resync
    from_config_map ◌=s◌
config_store-latest_example =
    config_store-latest parsers network_of maps maps_laws config_maps last.0 last.1
      (refl, (refl, (refl, tt))) refl

config_store-IsUsable_example :
    IsUsable parsers (load_value gateway_config_name last.0.values)
    × IsNetwork (load_value network_config_name last.0.values)
unfolding config_store plugin_constructor network_constructor constructors new_store resync
    from_config_map ◌=s◌
config_store-IsUsable_example =
    config_store-IsUsable parsers network_of maps maps_laws config_maps last.0 last.1
      (refl, (refl, (refl, tt))) refl
