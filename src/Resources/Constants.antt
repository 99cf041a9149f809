-- ===== src/Resources/Constants.antt =====
-- Names that third-party packages give to headers, kinds, labels and enumeration values, and the
-- functions of knative.dev/pkg/kmeta.
use net_gateway_api.Base.{String, Bool, List}
use net_gateway_api.Model.Names.{StringMap}
use net_gateway_api.Model.Gateway.{OwnerReference}
use net_gateway_api.Model.Ingress.{Ingress}

-- header.HashKey and header.HashValueOverride
abbrev pub hash_key : String
hash_key = "K-Network-Hash"

abbrev pub hash_value_override : String
hash_value_override = "override"

abbrev pub request_header_modifier : String
request_header_modifier = "RequestHeaderModifier"

abbrev pub url_rewrite : String
url_rewrite = "URLRewrite"

abbrev pub path_prefix : String
path_prefix = "PathPrefix"

abbrev pub exact : String
exact = "Exact"

abbrev pub gateway_group : String
gateway_group = "gateway.networking.k8s.io"

abbrev pub visibility_label_key : String
visibility_label_key = "networking.knative.dev/visibility"

abbrev pub last_applied_config : String
last_applied_config = "kubectl.kubernetes.io/last-applied-configuration"

abbrev pub request_timeout : String
request_timeout = "HTTPRouteRequestTimeout"

-- kmeta.UnionMaps, kmeta.FilterMap (which drops the keys that pass the test) and
-- kmeta.NewControllerRef; metav1.IsControlledBy on the owners of an object.
pub record Kmeta : Type 0 where
  pub union_maps : StringMap → StringMap → StringMap
  pub filter_map : StringMap → (String → Bool) → StringMap
  pub new_controller_ref : Ingress → OwnerReference
  pub is_controlled_by : List OwnerReference → Ingress → Bool
