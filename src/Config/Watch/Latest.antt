-- ===== src/Config/Watch/Latest.antt =====
-- The configuration that the store of pkg/reconciler/ingress/config/store.go gives after config
-- maps changed, against the changes alone.
use mathlib.Core.Path.{subst}
use net_gateway_api.Base.{
  String, ◌≡◌, refl, sym, ap, ◌∙◌, Bool, true, false, ◌||◌, Option, none, some, List, [], ◌∷◌, ◌++◌,
  All, concat_map, if◌then◌else◌, Result, ok, err, panic, >>=-eq-ok, ok-injective, inl, inr,
  Bool-cases, Option-cases, arith,
}
use net_gateway_api.Base.Text.{◌=s◌}
use net_gateway_api.Model.Names.{StringMap}
use net_gateway_api.Config.{Parsers}
use net_gateway_api.Config.Store.{gateway_config_name, network_config_name}
use net_gateway_api.Config.Watch.{
  ConfigMap, Built, built_plugin, built_network, Constructor, Callback, Resync, global_resync,
  ConfigMaps, ConfigMapsLaws, plugin_constructor, network_constructor, constructors, new_store,
  configs_to_resync, resync, config_store, changes, constructor_of, Reached, fresh, changed,
  Refused, Stores,
}

either : {A : Type 0} (b : Bool) (a : A) → a ≡ (if b then a else a)
either true a = refl
either false a = refl

-- A config map that the watcher reports.
abbrev pub IsWatched : ConfigMap → Type 0
IsWatched cm = (gateway_config_name =s cm.name || network_config_name =s cm.name) ≡ true

abbrev pub chosen : {N : Type 0} → Result (Built N) → Option (Built N) → Option (Built N)
chosen (ok v) o = some v
chosen (err e) o = o
chosen (panic m) o = o

module _ {N : Type 0} (P : Parsers) (new_config_from_config_map : StringMap → Result N) where
  -- What is made of a config map that is watched.
  abbrev pub build : ConfigMap → Result (Built N)
  build cm =
      if gateway_config_name =s cm.name
      then plugin_constructor P new_config_from_config_map cm
      else network_constructor P new_config_from_config_map cm

  -- What is loaded under a name, after one change and after some: the value that was made last.
  abbrev pub newer : String → ConfigMap → Option (Built N) → Option (Built N)
  newer name cm o = if cm.name =s name then chosen (build cm) o else o

  abbrev pub latest : String → List ConfigMap → Option (Built N) → Option (Built N)
  latest name [] o = o
  latest name (cm ∷ cms) o = latest name cms (newer name cm o)

  abbrev resync_for : Result (Built N) → List Resync
  resync_for (ok v) = global_resync ∷ []
  resync_for (err e) = []
  resync_for (panic m) = []

  -- One resync for each config map of which a value is made.
  abbrev pub resyncs : List ConfigMap → List Resync
  resyncs = concat_map (λ cm. resync_for (build cm))

  constructor_of-watched :
      (cm : ConfigMap)
      → IsWatched cm
      → (c : Constructor N) × ((constructor_of cm.name (constructors P new_config_from_config_map)
            ≡ some c)
          × (c cm ≡ build cm))
  unfolding constructors
  constructor_of-watched cm h = elim (Bool-cases (gateway_config_name =s cm.name)) [
    | inl e ↦ rw e (plugin_constructor P new_config_from_config_map, (refl, refl))
    | inr e ↦ elim (Bool-cases (network_config_name =s cm.name)) [
      | inl f ↦ rw (e, f) (network_constructor P new_config_from_config_map, (refl, refl))
      | inr f ↦ absurd (ground (arith, e, f, h))
    ]
  ]

  module _ (C : ConfigMaps N) (laws : ConfigMapsLaws C) where
    abbrev callbacks : List (Callback N)
    callbacks = resync P new_config_from_config_map C ∷ []

    resync-global :
        (name : String) (v : Built N)
        → resync P new_config_from_config_map C name v ≡ global_resync ∷ []
    unfolding resync configs_to_resync
    resync-global name (built_plugin g) = laws.type_filter _ _ name (built_plugin g)
    resync-global name (built_network n) = laws.type_filter _ _ name (built_network n)

    -- One change, by what is made of the config map.
    abbrev Changed : ConfigMap → C.State → Result (Built N) → C.State × List Resync → Type 0
    Changed cm s r p =
        ((name : String)
          → C.untyped_load name p.0
            ≡ (if cm.name =s name then chosen r (C.untyped_load name s) else C.untyped_load name s))
        × (p.1 ≡ resync_for r)

    Stores-Changed :
        (cm : ConfigMap) (s : C.State) (r : Result (Built N)) (p : C.State × List Resync)
        → C.on_config_changed cm s ≡ ok p
        → Stores C callbacks cm s r
        → Changed cm s r p
    Stores-Changed cm s (ok v) p h (s', (e, l)) =
        subst (Changed cm s (ok v)) (ok-injective (sym e ∙ h))
          (l, ap (λ fx. fx ++ []) (resync-global cm.name v))
    Stores-Changed cm s (panic m) p h e = absurd (cc (e, h))
    Stores-Changed cm s (err x) p h e = elim (Option-cases (C.untyped_load cm.name s)) [
      | inl n ↦ let e' = subst (Refused C cm s x) n e in absurd (cc (e', h))
      | inr (v, n) ↦
          let (s', (e', l)) = subst (Refused C cm s x) n e in
          subst (Changed cm s (err x)) (ok-injective (sym e' ∙ h))
            (λ name. l name ∙ either (cm.name =s name) (C.untyped_load name s), refl)
    ]

    abbrev Known : C.State → Type 0
    Known = Reached C (constructors P new_config_from_config_map) callbacks

    changes-latest :
        (cms : List ConfigMap) (s : C.State) (s' : C.State) (done : List Resync)
        → Known s
        → All IsWatched cms
        → changes C cms s ≡ ok (s', done)
        → ((name : String) → C.untyped_load name s' ≡ latest name cms (C.untyped_load name s))
          × (done ≡ resyncs cms)
    changes-latest [] s s' done k w h =
        let e = ok-injective h in
        (λ name. ap (λ p. C.untyped_load name p.0) (sym e), ap (λ p. p.1) (sym e))
    changes-latest (cm ∷ cms) s s' done k (w, ws) h =
        let ((s1, first), e1, h1) = >>=-eq-ok (C.on_config_changed cm s) _ h in
        let ((s2, rest), e2, h2) = >>=-eq-ok (changes C cms s1) _ h1 in
        let (c, (found_, made)) = constructor_of-watched cm w in
        let (loads, fx) =
          Stores-Changed cm s (build cm) (s1, first) e1
            (subst (Stores C callbacks cm s) made
              (laws.on_config_changed _ callbacks s cm c k found_)) in
        let (later, fx') = changes-latest cms s1 s2 rest (changed s cm s1 first k e1) ws e2 in
        let e = ok-injective h2 in
        (
          λ name.
              ap (λ p. C.untyped_load name p.0) (sym e)
              ∙ later name
              ∙ ap (latest name cms) (loads name),
          ap (λ p. p.1) (sym e) ∙ cc (fx, fx'),
        )

    -- For config maps, stores and filters of the package that behave as documented: after any
    -- changes of the two config maps since `NewController` made its store, none of which ends the
    -- process, what the store loads under a name is the value of the last of these changes of
    -- which its constructor made one, `FromConfigMap` for the gateways; a config map that it
    -- rejects changes nothing; and all Ingresses were resynced once for each value that was made
    -- and at no other time.
    pub config_store-latest :
        (cms : List ConfigMap) (s : C.State) (done : List Resync)
        → All IsWatched cms
        → changes C cms (config_store P new_config_from_config_map C) ≡ ok (s, done)
        → ((name : String) → C.untyped_load name s ≡ latest name cms none) × (done ≡ resyncs cms)
    unfolding config_store new_store
    config_store-latest cms s done w h =
        let (loads, fx) = changes-latest cms _ s done fresh w h in
        (
          λ name.
              loads name
              ∙ ap (latest name cms) (
                  laws.new_untyped_store (constructors P new_config_from_config_map) callbacks
                    name),
          fx,
        )
