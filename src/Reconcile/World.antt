-- ===== src/Reconcile/World.antt =====
-- What the reconciler acts on: the cluster behind its listers and its client, the status manager,
-- the recorded events and the marks on the status of the Ingress. An action changes these and
-- gives a value, an error or a panic.
use net_gateway_api.Base.{
  String, List, [], ◌∷◌, ◌++◌, Error, wrapped, Result, ok, err, panic, ◌≡◌, ap,
}
use net_gateway_api.Config.{GatewayPlugin}
use net_gateway_api.Model.Gateway.{HttpRoute, ReferenceGrant, GatewayObject}
use net_gateway_api.Model.Ingress.{Ingress, IngressTls}
use net_gateway_api.Resources.Constants.{Kmeta}
use net_gateway_api.Status.Types.{Manager}

-- What a lister's `Get` gives: `missing` is the error of which `IsNotFound` holds.
pub data Lookup (A : Type 0) : Type 0 where
  found : A → Lookup A
  missing : Lookup A
  failure : Error → Lookup A

-- The listers and the client, over the state of the API server and the caches. A `Get` takes the
-- namespace and the name.
pub record Cluster : Type 1 where
  pub State : Type 0
  pub get_route : String → String → State → Lookup HttpRoute
  pub create_route : HttpRoute → State → State × Result HttpRoute
  pub update_route : HttpRoute → State → State × Result HttpRoute
  pub get_grant : String → String → State → Lookup ReferenceGrant
  pub create_grant : ReferenceGrant → State → State × Result ReferenceGrant
  pub update_grant : ReferenceGrant → State → State × Result ReferenceGrant
  pub get_gateway : String → String → State → Lookup GatewayObject
  pub update_gateway : GatewayObject → State → State × Result GatewayObject

-- A load balancer's address: IP, or DomainInternal.
pub data LoadBalancerIngressStatus : Type 0 where
  ip : String → LoadBalancerIngressStatus
  domain_internal : String → LoadBalancerIngressStatus

-- The calls that set conditions of the Ingress, which third-party code turns into its status.
pub data Mark : Type 0 where
  initialize_conditions : Mark
  network_configured : Mark
  ingress_not_ready : String → String → Mark
  load_balancer_ready : List LoadBalancerIngressStatus → List LoadBalancerIngressStatus → Mark
  load_balancer_not_ready : Mark
  load_balancer_failed : String → String → Mark

-- An event by its reason.
pub data Event : Type 0 where
  normal : String → Event
  warning : String → Event

-- The reconciler's parts, the configuration of the context, and the third-party functions on an
-- Ingress: defaults, `InsertProbe` (the hash and the Ingress with its probe paths),
-- `GetIngressTLSForVisibility` and `network.GetServiceHostname`.
pub record Env : Type 1 where
  pub cluster : Cluster
  pub manager : Manager
  pub kmeta : Kmeta
  pub plugin : GatewayPlugin
  pub set_defaults : Ingress → Ingress
  pub insert_probe : Ingress → Result (String × Ingress)
  pub ingress_tls_for_visibility : Ingress → String → List IngressTls
  pub service_hostname : String → String → String

-- Over the states of the cluster and of the status manager.
pub record World (S P : Type 0) : Type 0 where
  pub cluster : S
  pub prober : P
  pub events : List Event
  pub marks : List Mark

abbrev pub Act : Type 0 → Type 0 → Type 0 → Type 0
Act S P A = World S P → World S P × Result A

-- What follows an outcome.
abbrev pub follow :
    {S P A B : Type 0} → World S P × Result A → (A → Act S P B) → World S P × Result B
follow (w, ok a) k = k a w
follow (w, err e) k = (w, err e)
follow (w, panic m) k = (w, panic m)

infixl 5 ◌>>=◌ ◌>>◌
abbrev pub ◌>>=◌ : {S P A B : Type 0} → Act S P A → (A → Act S P B) → Act S P B
◌>>=◌ m f w = follow (m w) f

-- What follows an action whose outcome is known.
pub >>=-ok :
    {S P A B : Type 0} (m : Act S P A) (k : A → Act S P B) (w w' : World S P) (a : A)
    → m w ≡ (w', ok a)
    → (m >>= k) w ≡ k a w'
>>=-ok m k w w' a h = ap (λ p. follow p k) h

pub >>=-err :
    {S P A B : Type 0} (m : Act S P A) (k : A → Act S P B) (w w' : World S P) (e : Error)
    → m w ≡ (w', err e)
    → (m >>= k) w ≡ (w', err e)
>>=-err m k w w' e h = ap (λ p. follow p k) h

abbrev pub ◌>>◌ : {S P B : Type 0} → Act S P (Unit {0}) → Act S P B → Act S P B
m >> k = m >>= λ _. k

abbrev pub return : {S P A : Type 0} → A → Act S P A
return a w = (w, ok a)

abbrev pub fail : {S P A : Type 0} → Error → Act S P A
fail e w = (w, err e)

abbrev pub lift : {S P A : Type 0} → Result A → Act S P A
lift r w = (w, r)

abbrev pub mark : {S P : Type 0} → Mark → Act S P (Unit {0})
mark k w = (record w { marks = w.marks ++ (k ∷ []) }, ok tt)

abbrev pub record_event : {S P : Type 0} → Event → Act S P (Unit {0})
record_event e w = (record w { events = w.events ++ (e ∷ []) }, ok tt)

-- A read through a lister.
abbrev pub get : {S P A : Type 0} → (S → A) → Act S P A
get f w = (w, ok (f w.cluster))

-- What an answer of the client comes to: where it is an error, the warning is recorded and the
-- error wrapped.
abbrev pub answer :
    {S P A : Type 0} → String → String → World S P → S × Result A → World S P × Result A
answer reason message w (s, ok a) = (record w { cluster = s }, ok a)
answer reason message w (s, err e) =
    (record w { cluster = s; events = w.events ++ (warning reason ∷ []) }, err (wrapped message e))
answer reason message w (s, panic m) = (record w { cluster = s }, panic m)

-- A call of the client.
abbrev pub call : {S P A : Type 0} → (S → S × Result A) → String → String → Act S P A
call f reason message w = answer reason message w (f w.cluster)
