-- ===== src/Config/Copies.antt =====
-- The copies of pkg/reconciler/ingress/config/zz_generated.deepcopy.go, with their pointers: a
-- pointer, a slice and a map are addresses of cells.
pub mod Content
pub mod Fresh
use net_gateway_api.Base.{
  ℕ, zero, suc, ◌≤◌, String, Option, none, some, List, [], ◌∷◌, ◌++◌, length, get_elem?,
}
use net_gateway_api.Config.{Gateway, GatewayPlugin}
use net_gateway_api.Model.Names.{NamespacedName}

-- A Gateway in memory, and a GatewayPlugin with its two slices.
pub record GatewayRef : Type 0 where
  pub namespaced_name : NamespacedName
  pub class : String
  pub service : Option ℕ
  pub supported_features : Option ℕ

pub record PluginRef : Type 0 where
  pub external_gateways : Option ℕ
  pub local_gateways : Option ℕ

pub data Cell : Type 0 where
  service_cell : NamespacedName → Cell
  features_cell : List String → Cell
  gateways_cell : List GatewayRef → Cell

abbrev pub Heap : Type 0
Heap = List Cell

abbrev pub service_in : Option Cell → Option NamespacedName
service_in none = none
service_in (some (service_cell name)) = some name
service_in (some (features_cell names)) = none
service_in (some (gateways_cell gws)) = none

abbrev pub features_in : Option Cell → Option (List String)
features_in none = none
features_in (some (service_cell name)) = none
features_in (some (features_cell names)) = some names
features_in (some (gateways_cell gws)) = none

abbrev pub gateways_in : Option Cell → Option (List GatewayRef)
gateways_in none = none
gateways_in (some (service_cell name)) = none
gateways_in (some (features_cell names)) = none
gateways_in (some (gateways_cell gws)) = some gws

-- A new cell with the content of the one that a pointer names.
unfoldable pub copy_service : Heap → Option ℕ → Heap × Option ℕ
copy_service h none = (h, none)
copy_service h (some a) = elim (service_in (get_elem? h a)) [
  | none ↦ (h, none)
  | some name ↦ (h ++ service_cell name ∷ [], some (length h))
]

unfoldable pub copy_features : Heap → Option ℕ → Heap × Option ℕ
copy_features h none = (h, none)
copy_features h (some a) = elim (features_in (get_elem? h a)) [
  | none ↦ (h, none)
  | some names ↦ (h ++ features_cell names ∷ [], some (length h))
]

-- `Gateway.DeepCopyInto`
unfoldable pub copy_gateway : Heap → GatewayRef → Heap × GatewayRef
unfolding copy_service copy_features
copy_gateway h gw =
    let (h1, service) = copy_service h gw.service in
    let (h2, features) = copy_features h1 gw.supported_features in
    (h2, record gw { service = service; supported_features = features })

-- The loop over a slice.
unfoldable pub copy_loop : Heap → List GatewayRef → Heap × List GatewayRef
unfolding copy_gateway
copy_loop h [] = (h, [])
copy_loop h (gw ∷ gws) =
    let (h1, gw') = copy_gateway h gw in let (h2, gws') = copy_loop h1 gws in (h2, gw' ∷ gws')

-- A slice. Its cell is made once its elements are known.
unfoldable pub copy_slice : Heap → Option ℕ → Heap × Option ℕ
unfolding copy_loop
copy_slice h none = (h, none)
copy_slice h (some a) = elim (gateways_in (get_elem? h a)) [
  | none ↦ (h, none)
  | some gws ↦ let (h1, gws') = copy_loop h gws in (h1 ++ gateways_cell gws' ∷ [], some (length h1))
]

-- `GatewayPlugin.DeepCopyInto`
unfoldable pub copy_plugin : Heap → PluginRef → Heap × PluginRef
unfolding copy_slice
copy_plugin h p =
    let (h1, external) = copy_slice h p.external_gateways in
    let (h2, local) = copy_slice h1 p.local_gateways in
    (h2, record { external_gateways = external; local_gateways = local })
