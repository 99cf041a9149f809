-- ===== src/Config/Watch/Usable.antt =====
-- The gateways of a configuration that the store of pkg/reconciler/ingress/config/store.go gives.
use mathlib.Core.Path.{subst}
use mathlib.Core.Option.{some-injective}
use net_gateway_api.Base.{
  String, ◌≡◌, refl, sym, ap, ◌∙◌, true, false, Option, none, some, List, [], ◌∷◌, All, ◌⊎◌, inl,
  inr, Bool-cases, Result-cases, Result, ok, if◌then◌else◌, >>=-eq-ok, ok-injective,
}
use net_gateway_api.Base.Text.{◌=s◌, =s_iff, =s_refl}
use net_gateway_api.Model.Names.{StringMap}
use net_gateway_api.Config.{
  default_external_gateways, default_local_gateways, Gateway, Parsers, from_config_map,
  external_gateway, local_gateway,
}
use net_gateway_api.Config.Checks.{asked, IsChoice, from_config_map-single}
use net_gateway_api.Config.Store.{gateway_config_name, network_config_name}
use net_gateway_api.Config.Watch.{
  ConfigMap, Built, built_plugin, built_network, Resync, ConfigMaps, ConfigMapsLaws,
  plugin_constructor, network_constructor, config_store, changes,
}
use net_gateway_api.Config.Watch.Latest.{
  IsWatched, build, chosen, newer, latest, config_store-latest,
}

-- No value, or gateways that a config map gives and of which both accessors give one: the one that
-- the config map's key asks for, or the default.
abbrev pub IsUsable : {N : Type 0} → Parsers → Option (Built N) → Type 0
IsUsable P none = Unit
IsUsable P (some (built_plugin g)) =
    (cm : ConfigMap) × (ext : Gateway) × (loc : Gateway) × (from_config_map P cm.data_of ≡ ok g)
    × (external_gateway g ≡ ok ext)
    × (local_gateway g ≡ ok loc)
    × IsChoice P (asked P "external-gateways" cm.data_of) default_external_gateways ext
    × IsChoice P (asked P "local-gateways" cm.data_of) default_local_gateways loc
IsUsable P (some (built_network n)) = ⊥

-- No value, or one of the network's type.
abbrev pub IsNetwork : {N : Type 0} → Option (Built N) → Type 0
IsNetwork none = Unit
IsNetwork (some (built_plugin g)) = ⊥
IsNetwork (some (built_network n)) = Unit

module _ {N : Type 0} (P : Parsers) (new_config_from_config_map : StringMap → Result N) where
  abbrev MadeFor : String → Built N → Type 0
  MadeFor name v =
      (cm : ConfigMap) × (((cm.name =s name) ≡ true)
        × (build P new_config_from_config_map cm ≡ ok v))

  -- A value that is loaded under a name was made of one of the config maps.
  latest-made :
      (name : String) (cms : List ConfigMap) (o : Option (Built N)) (v : Built N)
      → latest P new_config_from_config_map name cms o ≡ some v
      → (o ≡ some v) ⊎ MadeFor name v
  latest-made name [] o v h = inl h
  latest-made name (cm ∷ cms) o v h =
      elim (latest-made name cms (newer P new_config_from_config_map name cm o) v h) [
        | inr m ↦ inr m
        | inl e ↦ elim (Bool-cases (cm.name =s name)) [
          | inr f ↦ inl (sym (ap (λ b. if b then chosen made o else o) f) ∙ e)
          | inl f ↦
              let e' : chosen made o ≡ some v =
                sym (ap (λ b. if b then chosen made o else o) f) ∙ e in
              elim (Result-cases made) [
                | inl (u, b) ↦
                    inr
                      (cm, (f, b ∙ ap ok (some-injective u v (ap (λ r. chosen r o) (sym b) ∙ e'))))
                | inr (inl (x, b)) ↦ inl (ap (λ r. chosen r o) (sym b) ∙ e')
                | inr (inr (x, b)) ↦ inl (ap (λ r. chosen r o) (sym b) ∙ e')
              ]
        ]
      ]
    where
      made : Result (Built N)
      made = build P new_config_from_config_map cm

  made-IsUsable : (v : Built N) → MadeFor gateway_config_name v → IsUsable P (some v)
  unfolding plugin_constructor
  made-IsUsable v (cm, (named, b)) =
      let own : (gateway_config_name =s cm.name) ≡ true =
        ap (λ n. gateway_config_name =s n) ((=s_iff cm.name gateway_config_name).0 named)
        ∙ =s_refl gateway_config_name in
      let (g, accepted, e) =
        >>=-eq-ok (from_config_map P cm.data_of) (λ g. ok (built_plugin g)) (rw own at b) in
      let (ext, loc, e1, e2, c1, c2) = from_config_map-single P cm.data_of accepted in
      subst (λ v. IsUsable P (some v)) (ok-injective e) (cm, ext, loc, accepted, e1, e2, c1, c2)

  made-IsNetwork : (v : Built N) → MadeFor network_config_name v → IsNetwork (some v)
  unfolding network_constructor ◌=s◌
  made-IsNetwork v (cm, (named, b)) =
      let other : (gateway_config_name =s cm.name) ≡ false =
        ap (λ n. gateway_config_name =s n) ((=s_iff cm.name network_config_name).0 named) in
      let (n, accepted, e) =
        >>=-eq-ok (new_config_from_config_map cm.data_of) (λ n. ok (built_network n))
          (rw other at b) in
      subst (λ v. IsNetwork (some v)) (ok-injective e) tt

  each :
      (Holds : Option (Built N) → Type 0) (name : String) (o : Option (Built N))
      → Holds none
      → ((v : Built N) → MadeFor name v → Holds (some v))
      → ((v : Built N) → o ≡ some v → MadeFor name v)
      → Holds o
  each Holds name none n h made = n
  each Holds name (some v) n h made = h v (made v refl)

  -- For config maps, stores and filters of the package that behave as documented: after any
  -- changes of the two config maps since `NewController` made its store, none of which ends the
  -- process, what is stored has the types that `Load` asserts: under the name of the gateways there
  -- is nothing yet or the configuration that a config map gives, of which both accessors return a
  -- gateway, the one that the config map's key asks for or the default where it asks for none, and under that of the
  -- network nothing yet or a network configuration.
  pub config_store-IsUsable :
      (C : ConfigMaps N) (laws : ConfigMapsLaws C) (cms : List ConfigMap) (s : C.State)
      (done : List Resync)
      → All IsWatched cms
      → changes C cms (config_store P new_config_from_config_map C) ≡ ok (s, done)
      → IsUsable P (C.untyped_load gateway_config_name s)
        × IsNetwork (C.untyped_load network_config_name s)
  config_store-IsUsable C laws cms s done w h =
      let (loads, _) = config_store-latest P new_config_from_config_map C laws cms s done w h in
      let made : (name : String) (v : Built N) → C.untyped_load name s ≡ some v → MadeFor name v =
        λ name v e. elim (latest-made name cms none v (sym (loads name) ∙ e)) [
          | inl f ↦ absurd (never f)
          | inr m ↦ m
        ] in
      (
        each (IsUsable P) gateway_config_name _ tt made-IsUsable (made gateway_config_name),
        each IsNetwork network_config_name _ tt made-IsNetwork (made network_config_name),
      )
    where
      never : {v : Built N} → ◌≡◌ {A = Option (Built N)} none (some v) → ⊥
      never e = cc
