-- ===== src/Config.antt =====
-- pkg/reconciler/ingress/config/gateway.go: which Gateways serve external and local traffic.
pub mod Checks
pub mod Copies
pub mod Store
pub mod Watch
use Prim.Native.Char.{code}
use net_gateway_api.Base.{
  ℕ, suc, String, ◌<>◌, Bool, true, false, ◌&&◌, ◌||◌, Option, none, some, List, [], ◌∷◌, ltb, ◌==◌,
  if◌then◌else◌, Error, failed, wrapped, Result, ok, err, panic, ◌>>=◌,
}
use net_gateway_api.Base.Text.{◌=s◌}
use net_gateway_api.Model.Names.{NamespacedName, StringMap}
use net_gateway_api.Resources.Constants.{request_timeout}

pub record Gateway : Type 0 where
  pub namespaced_name : NamespacedName
  pub class : String
  pub service : Option NamespacedName
  -- a set, as a list
  pub supported_features : List String

pub record GatewayPlugin : Type 0 where
  pub external_gateways : List Gateway
  pub local_gateways : List Gateway

-- `gws[0]`
abbrev pub first : List Gateway → Result Gateway
first [] = panic "index out of range [0]"
first (gw ∷ gws) = ok gw

unfoldable pub external_gateway : GatewayPlugin → Result Gateway
external_gateway g = first g.external_gateways

unfoldable pub local_gateway : GatewayPlugin → Result Gateway
local_gateway g = first g.local_gateways

abbrev istio_gateway : String → String → Gateway
istio_gateway name service = record {
  namespaced_name = record { namespace = "istio-system"; name = name };
  class = "istio";
  service = some (record { namespace = "istio-system"; name = service });
  supported_features = request_timeout ∷ [];
}

unfoldable pub default_external_gateways : List Gateway
default_external_gateways = istio_gateway "knative-gateway" "istio-ingressgateway" ∷ []

unfoldable pub default_local_gateways : List Gateway
default_local_gateways = istio_gateway "knative-local-gateway" "knative-local-gateway" ∷ []

-- One entry of the YAML text.
pub record GatewayEntry : Type 0 where
  pub gateway : String
  pub service : Option String
  pub class : String
  pub supported_features : List String

-- `unicode.IsSpace`
is_space : ℕ → Bool
is_space c =
    ltb 8 c && ltb c 14
    || c == 32
    || c == 0x85
    || c == 0xa0
    || c == 0x1680
    || ltb 0x1fff c && ltb c 0x200b
    || c == 0x2028
    || c == 0x2029
    || c == 0x202f
    || c == 0x205f
    || c == 0x3000

-- `len(strings.TrimSpace(s)) == 0`
unfoldable pub is_blank : String → Bool
unfolding is_space
is_blank String.[] = true
is_blank (String.◌∷◌ c s) = is_space (code c) && is_blank s

-- What third-party code does with the text of an entry: `yaml.Unmarshal`, and the parse of
-- `namespace/name` by `configmap.AsNamespacedName` for a key and its text.
pub record Parsers : Type 0 where
  pub unmarshal : String → Result (List GatewayEntry)
  pub as_namespaced_name : String → String → Result NamespacedName

unfoldable pub lookup : String → StringMap → Option String
unfolding ◌=s◌
lookup k [] = none
lookup k ((j, v) ∷ m) = if j =s k then some v else lookup k m

-- `if len(strings.TrimSpace(gw.Class)) == 0`
unfoldable pub check_class : Gateway → Result Gateway
unfolding is_blank
check_class gw =
    if is_blank gw.class then err (failed "entry field \"class\" is required") else ok gw

-- The switch on the number of gateways.
unfoldable pub one_or_default : String → List Gateway → List Gateway → Result (List Gateway)
one_or_default kind defaults [] = ok defaults
one_or_default kind defaults (gw ∷ []) = ok (gw ∷ [])
one_or_default kind defaults (gw ∷ gw' ∷ gws) =
    err (failed ("only a single " <> kind <> " gateway is supported"))

module _ (P : Parsers) where
  -- `configmap.AsOptionalNamespacedName`: an absent service leaves nil.
  unfoldable pub parse_service : Option String → Result (Option NamespacedName)
  parse_service none = ok none
  parse_service (some text) = do name ← P.as_namespaced_name "service" text; ok (some name)

  -- The body of the loop over the entries.
  unfoldable pub parse_entry : GatewayEntry → Result Gateway
  unfolding parse_service check_class
  parse_entry entry = do
    name ← P.as_namespaced_name "gateway" entry.gateway
    service ← parse_service entry.service
    check_class (record {
      namespaced_name = name;
      class = entry.class;
      service = service;
      supported_features = entry.supported_features;
    })

  unfoldable pub parse_entries : List GatewayEntry → Result (List Gateway)
  unfolding parse_entry
  parse_entries [] = ok []
  parse_entries (entry ∷ entries) = do
    gw ← parse_entry entry
    gws ← parse_entries entries
    ok (gw ∷ gws)

  -- `parseGatewayConfig`
  unfoldable pub parse_gateway_config : String → Result (List Gateway)
  unfolding parse_entries
  parse_gateway_config text = do entries ← P.unmarshal text; parse_entries entries

  -- `if data, ok := cm.Data[key]; ok`, with the error that is returned.
  unfoldable pub parse_key : String → Option String → Result (List Gateway)
  unfolding parse_gateway_config
  parse_key key none = ok []
  parse_key key (some text) = elim (parse_gateway_config text) [
    | ok gws ↦ ok gws
    | err e ↦ err (wrapped ("unable to parse " <> key) e)
    | panic m ↦ panic m
  ]

  -- `FromConfigMap`
  unfoldable pub from_config_map : StringMap → Result GatewayPlugin
  unfolding parse_key one_or_default lookup default_external_gateways default_local_gateways
  from_config_map cm = do
    external ← parse_key "external-gateways" (lookup "external-gateways" cm)
    local ← parse_key "local-gateways" (lookup "local-gateways" cm)
    external' ← one_or_default "external" default_external_gateways external
    local' ← one_or_default "local" default_local_gateways local
    ok (record { external_gateways = external'; local_gateways = local' })
