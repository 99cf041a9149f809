-- ===== src/Model/Ingress.antt =====
-- The KIngress (knative.dev/networking/pkg/apis/networking/v1alpha1). A rule's HTTP block is
-- present: `InsertProbe` has refused an Ingress without one before the program reads it.
use net_gateway_api.Base.{ℕ, String, Option, List}
use net_gateway_api.Model.Names.{StringMap}

pub record IngressBackendSplit : Type 0 where
  pub service_namespace : String
  pub service_name : String
  -- `ServicePort.IntValue()`
  pub service_port : ℕ
  pub percent : ℕ
  pub append_headers : StringMap

pub record HttpIngressPath : Type 0 where
  pub path : String
  pub rewrite_host : String
  -- each header with the value that its match wants exactly
  pub headers : StringMap
  pub splits : List IngressBackendSplit
  -- nil and empty differ
  pub append_headers : Option StringMap

pub record IngressRule : Type 0 where
  pub hosts : List String
  pub visibility : String
  pub paths : List HttpIngressPath

pub record IngressTls : Type 0 where
  pub hosts : List String
  pub secret_name : String
  pub secret_namespace : String

pub record Ingress : Type 0 where
  pub name : String
  pub namespace : String
  pub uid : String
  pub labels : StringMap
  pub annotations : StringMap
  pub http_option : String
  pub tls : List IngressTls
  pub rules : List IngressRule

abbrev pub external_ip : String
external_ip = "ExternalIP"

abbrev pub cluster_local : String
cluster_local = "ClusterLocal"

abbrev pub redirected : String
redirected = "Redirected"
