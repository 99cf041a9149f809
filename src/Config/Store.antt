-- ===== src/Config/Store.antt =====
-- pkg/reconciler/ingress/config/store.go: the configuration that a reconciliation finds in its
-- context, copied from the store.
use net_gateway_api.Base.{
  String, ◌≡◌, refl, ap, Option, none, some, length, set, ◌≤◌, ℕ, Result, ok, panic, ◌>>=◌,
}
use net_gateway_api.Config.{GatewayPlugin}
use net_gateway_api.Config.Copies.{PluginRef, Cell, Heap, copy_plugin}
use net_gateway_api.Config.Copies.Content.{IsPlugin}
use net_gateway_api.Config.Copies.Fresh.{FreshPlugin, copy_plugin-IsPlugin}

-- The network configuration `N` is a value of a third-party type, which has a DeepCopy too.
pub record Config (N : Type 0) : Type 0 where
  pub network : Option N
  pub gateway_plugin : Option PluginRef

-- What the untyped store holds: nil, or a pointer of one of the types of the constructors.
pub data Value (N : Type 0) : Type 0 where
  gateway_plugin_value : Option PluginRef → Value N
  network_value : Option N → Value N

-- configmap.UntypedStore, with the constructors it was made with.
pub record UntypedStore (N : Type 0) : Type 1 where
  pub State : Type 0
  pub untyped_load : String → State → Option (Value N)

-- context.Context, with the value of `cfgKey{}`: a *Config, where one is attached.
pub record Contexts (N : Type 0) : Type 1 where
  pub Context : Type 0
  pub value : Context → Option (Option (Config N))
  pub with_value : Option (Config N) → Context → Context

pub record ContextsLaws {N : Type 0} (C : Contexts N) : Type 0 where
  pub value-with_value :
      (c : Option (Config N)) (ctx : C.Context) → C.value (C.with_value c ctx) ≡ some c

abbrev pub gateway_config_name : String
gateway_config_name = "config-gateway"

-- networkcfg.ConfigMapName
abbrev pub network_config_name : String
network_config_name = "config-network"

-- `(*GatewayPlugin).DeepCopy`
unfoldable pub deep_copy : Heap → Option PluginRef → Heap × Option PluginRef
unfolding copy_plugin
deep_copy h none = (h, none)
deep_copy h (some p) = let (h', p') = copy_plugin h p in (h', some p')

module _ {N : Type 0} where
  -- The type assertions.
  unfoldable pub as_plugin : Option (Value N) → Result (Option PluginRef)
  as_plugin none = panic "interface conversion: interface {} is nil"
  as_plugin (some (gateway_plugin_value p)) = ok p
  as_plugin (some (network_value n)) = panic "interface conversion"

  unfoldable pub as_network : Option (Value N) → Result (Option N)
  as_network none = panic "interface conversion: interface {} is nil"
  as_network (some (gateway_plugin_value p)) = panic "interface conversion"
  as_network (some (network_value n)) = ok n

module _ {N : Type 0} where
  -- `(*Config).DeepCopyInto`, of a configuration in the memory `h`.
  unfoldable pub copy_config : Heap → Config N → Heap × Config N
  unfolding deep_copy
  copy_config h c =
      let (h', p') = deep_copy h c.gateway_plugin in (h', record c { gateway_plugin = p' })

  -- `(*Config).DeepCopy`
  unfoldable pub deep_copy_config : Heap → Option (Config N) → Heap × Option (Config N)
  unfolding copy_config
  deep_copy_config h none = (h, none)
  deep_copy_config h (some c) = let (h', c') = copy_config h c in (h', some c')

module _ {N : Type 0} (U : UntypedStore N) where
  -- `Store.Load`, in the memory `h`.
  unfoldable pub load : U.State → Heap → Result (Heap × Config N)
  unfolding as_plugin as_network deep_copy
  load s h = do
    p ← as_plugin (U.untyped_load gateway_config_name s)
    n ← as_network (U.untyped_load network_config_name s)
    let (h', p') = deep_copy h p in ok (h', record { network = n; gateway_plugin = p' })

module _ {N : Type 0} (C : Contexts N) where
  -- `FromContext`
  unfoldable pub from_context : C.Context → Result (Option (Config N))
  from_context ctx = elim (C.value ctx) [
    | none ↦ panic "interface conversion: interface {} is nil, not *config.Config"
    | some c ↦ ok c
  ]

  -- `FromContextOrDefaults`
  unfoldable pub from_context_or_defaults : C.Context → Result (Config N)
  unfolding from_context
  from_context_or_defaults ctx = do
    cfg ← from_context ctx
    elim cfg [ none ↦ ok (record { network = none; gateway_plugin = none }) | some c ↦ ok c ]

  -- `ToContext`
  unfoldable pub to_context : C.Context → Option (Config N) → C.Context
  to_context ctx c = C.with_value c ctx

  -- `Store.ToContext`
  unfoldable pub store_to_context :
      (U : UntypedStore N) → U.State → Heap → C.Context → Result (Heap × C.Context)
  unfolding load to_context
  store_to_context U s h ctx = do loaded ← load U s h; ok (loaded.0, to_context ctx (some loaded.1))

-- A reconciliation: the store's configuration is attached to the context, and read there.
abbrev pub attached :
    {N : Type 0} (C : Contexts N) (U : UntypedStore N)
    → U.State
    → Heap
    → C.Context
    → Result (Heap × Option (Config N))
attached C U s h ctx = do
  with_config ← store_to_context C U s h ctx
  c ← from_context C with_config.1
  ok (with_config.0, c)

abbrev pub config_of : {N : Type 0} → N → PluginRef → Config N
config_of n p = record { network = some n; gateway_plugin = some p }

load-loaded :
    {N : Type 0} (U : UntypedStore N) (s : U.State) (h : Heap) (p : PluginRef) (n : N)
    → U.untyped_load gateway_config_name s ≡ some (gateway_plugin_value (some p))
    → U.untyped_load network_config_name s ≡ some (network_value (some n))
    → load U s h ≡ ok ((copy_plugin h p).0, config_of n (copy_plugin h p).1)
unfolding load as_plugin as_network deep_copy
load-loaded U s h p n e f = rw (e, f) refl

module _ {N : Type 0} (C : Contexts N) where
  from_context-attached :
      (ctx : C.Context) (c : Option (Config N)) → C.value ctx ≡ some c → from_context C ctx ≡ ok c
  unfolding from_context
  from_context-attached ctx c e = rw (e, from_context) refl

  -- Where no configuration is attached, `FromContextOrDefaults` panics.
  from_context_or_defaults-none :
      (ctx : C.Context)
      → C.value ctx ≡ none
      → from_context_or_defaults C ctx
        ≡ panic "interface conversion: interface {} is nil, not *config.Config"
  unfolding from_context_or_defaults from_context
  from_context_or_defaults-none ctx e = rw (e, from_context_or_defaults, from_context) refl

module _ {N : Type 0} (C : Contexts N) (laws : ContextsLaws C) (U : UntypedStore N) where
  -- For contexts that behave as documented: where both configurations were loaded, `FromContext`
  -- finds in the context of `Store.ToContext` the network configuration and a copy of the gateways'
  -- that has the content of the store's, in new memory; and a write to any cell that is new leaves
  -- the content of the store's.
  pub attached-IsPlugin :
      (s : U.State) (ctx : C.Context) (h : Heap) (p : PluginRef) (n : N) (v : GatewayPlugin) (a : ℕ)
      (cell : Cell)
      → U.untyped_load gateway_config_name s ≡ some (gateway_plugin_value (some p))
      → U.untyped_load network_config_name s ≡ some (network_value (some n))
      → IsPlugin h p v
      → length h ≤ a
      → let (h', p') = copy_plugin h p in
        (attached C U s h ctx ≡ ok (h', some (config_of n p')))
        × (IsPlugin h' p' v × (FreshPlugin (length h) h' p' × IsPlugin (set h' a cell) p v))
  unfolding store_to_context to_context
  attached-IsPlugin s ctx h p n v a cell e f i l =
      let c : Config N = config_of n (copy_plugin h p).1 in
      (
        rw (load-loaded U s h p n e f) (
            ap (λ r. r >>= (λ c. ok ((copy_plugin h p).0, c)))
              (from_context-attached C (C.with_value (some c) ctx) (some c)
                (laws.value-with_value (some c) ctx))),
        copy_plugin-IsPlugin h p v a cell i l,
      )

-- A configuration that is copied as a whole has the same network, and a copy of the gateways' with
-- their content in new memory; a write to any cell that is new leaves the content of the original.
pub deep_copy_config-IsPlugin :
    {N : Type 0} (h : Heap) (p : PluginRef) (n : N) (v : GatewayPlugin) (a : ℕ) (cell : Cell)
    → IsPlugin h p v
    → length h ≤ a
    → let (h', p') = copy_plugin h p in
      (deep_copy_config h (some (config_of n p)) ≡ (h', some (config_of n p')))
      × (IsPlugin h' p' v × (FreshPlugin (length h) h' p' × IsPlugin (set h' a cell) p v))
unfolding deep_copy_config copy_config deep_copy
deep_copy_config-IsPlugin h p n v a cell i l = (refl, copy_plugin-IsPlugin h p v a cell i l)
