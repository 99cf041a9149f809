-- ===== src/Model/Gateway.antt =====
-- The Gateway API objects (sigs.k8s.io/gateway-api/apis/v1 and v1beta1). A pointer is an Option.
-- Fields that the program neither sets nor reads (a rule's name, session persistence, ...) are
-- absent: an object that another client gave such a field compares unequal in the program.
use net_gateway_api.Base.{ℕ, String, Option, List}
use native.Mathlib.Decide.{ℕ_discrete}
use net_gateway_api.Model.Names.{StringMap, String-discrete}

pub record HttpHeader : Type 0 where
  pub name : String
  pub value : String

pub record HttpHeaderMatch : Type 0 where
  pub type : Option String
  pub name : String
  pub value : String

pub record HttpPathMatch : Type 0 where
  pub type : Option String
  pub value : Option String

pub record HttpRouteMatch : Type 0 where
  pub path : Option HttpPathMatch
  pub headers : List HttpHeaderMatch

pub record HttpHeaderFilter : Type 0 where
  pub set : List HttpHeader

pub record HttpUrlRewriteFilter : Type 0 where
  pub hostname : Option String

pub record HttpRouteFilter : Type 0 where
  pub type : String
  pub request_header_modifier : Option HttpHeaderFilter
  pub url_rewrite : Option HttpUrlRewriteFilter

pub record HttpBackendRef : Type 0 where
  pub group : Option String
  pub kind : Option String
  pub name : String
  pub namespace : Option String
  pub port : Option ℕ
  pub weight : Option ℕ
  pub filters : List HttpRouteFilter

pub record HttpRouteRule : Type 0 where
  pub matches : List HttpRouteMatch
  pub filters : List HttpRouteFilter
  pub backend_refs : List HttpBackendRef
  -- the request timeout of `Timeouts`
  pub timeouts : Option String

pub record ParentReference : Type 0 where
  pub group : Option String
  pub kind : Option String
  pub namespace : Option String
  pub name : String

pub record HttpRouteSpec : Type 0 where
  pub parent_refs : List ParentReference
  pub hostnames : List String
  pub rules : List HttpRouteRule

pub record Condition : Type 0 where
  pub type : String
  pub status : String

pub record RouteParentStatus : Type 0 where
  pub conditions : List Condition

pub record OwnerReference : Type 0 where
  pub uid : String
  pub controller : Option String

pub record HttpRoute : Type 0 where
  pub name : String
  pub namespace : String
  pub labels : StringMap
  pub annotations : StringMap
  pub owner_references : List OwnerReference
  pub spec : HttpRouteSpec
  -- `Status.Parents`, where nil and empty differ
  pub parents : Option (List RouteParentStatus)

pub record Listener : Type 0 where
  pub name : String
  pub hostname : Option String
  pub port : ℕ
  pub protocol : String
  pub tls_mode : Option String
  -- group, kind, namespace and name of each certificate
  pub certificate_refs : List ParentReference
  -- `AllowedRoutes.Namespaces`: where from, and the labels of the selector
  pub from : Option String
  pub match_labels : StringMap

pub record GatewayAddress : Type 0 where
  pub type : Option String
  pub value : String

pub record GatewayObject : Type 0 where
  pub name : String
  pub namespace : String
  pub listeners : List Listener
  pub addresses : List GatewayAddress

pub record ReferenceGrantFrom : Type 0 where
  pub group : String
  pub kind : String
  pub namespace : String

pub record ReferenceGrantTo : Type 0 where
  pub group : String
  pub kind : String
  pub name : Option String

pub record ReferenceGrantSpec : Type 0 where
  pub from : List ReferenceGrantFrom
  pub to : List ReferenceGrantTo

pub record ReferenceGrant : Type 0 where
  pub name : String
  pub namespace : String
  pub labels : StringMap
  pub annotations : StringMap
  pub owner_references : List OwnerReference
  pub spec : ReferenceGrantSpec

unfoldable pub HttpRouteSpec-discrete : Discrete HttpRouteSpec
unfolding String-discrete
HttpRouteSpec-discrete = hlevel (String-discrete, ℕ_discrete)

unfoldable pub StringMap-discrete : Discrete StringMap
unfolding String-discrete
StringMap-discrete = hlevel String-discrete

unfoldable pub Listener-discrete : Discrete Listener
unfolding String-discrete
Listener-discrete = hlevel (String-discrete, ℕ_discrete)

unfoldable pub ReferenceGrantSpec-discrete : Discrete ReferenceGrantSpec
unfolding String-discrete
ReferenceGrantSpec-discrete = hlevel String-discrete
