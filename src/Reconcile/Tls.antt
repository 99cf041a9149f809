-- ===== src/Reconcile/Tls.antt =====
-- `reconcileTLS` of pkg/reconciler/ingress/reconcile_resources.go.
pub mod Owner
use net_gateway_api.Base.{
  String, ◌<>◌, Bool, true, false, not, Option, none, some, List, [], ◌∷◌, map, if◌then◌else◌,
  failed,
}
use net_gateway_api.Config.{Gateway, external_gateway}
use net_gateway_api.Model.Names.{deep_equal}
use net_gateway_api.Model.Gateway.{
  Listener, ParentReference, ReferenceGrant, ReferenceGrantSpec-discrete,
}
use net_gateway_api.Model.Ingress.{IngressTls, Ingress}
use net_gateway_api.Resources.Constants.{gateway_group}
use net_gateway_api.Resources.Grant.{PartialObjectMetadata, make_reference_grant}
use net_gateway_api.Reconcile.World.{
  Env, ◌>>=◌, ◌>>◌, return, fail, lift, record_event, get, call, warning, Lookup, found, missing,
  failure,
}
use net_gateway_api.Reconcile.Route.{ActE}
use net_gateway_api.Reconcile.Listeners.{listener_prefix}

unfoldable pub gateway_metadata : Gateway → PartialObjectMetadata
gateway_metadata gw = record {
  kind = "Gateway";
  group = gateway_group;
  name = gw.namespaced_name.name;
  namespace = gw.namespaced_name.namespace;
  labels = [];
  annotations = [];
}

unfoldable pub secret_metadata : IngressTls → PartialObjectMetadata
secret_metadata tls = record {
  kind = "Secret";
  group = "";
  name = tls.secret_name;
  namespace = tls.secret_namespace;
  labels = [];
  annotations = [];
}

-- The listener for a host.
unfoldable pub listener_for : IngressTls → Ingress → String → Listener
listener_for tls ing h = record {
  name = listener_prefix <> ing.uid;
  hostname = some h;
  port = 443;
  protocol = "HTTPS";
  tls_mode = some "Terminate";
  certificate_refs =
      record {
        group = some "";
        kind = some "Secret";
        namespace = some tls.secret_namespace;
        name = tls.secret_name;
      }
      ∷ [];
  from = some "Selector";
  match_labels = ("kubernetes.io/metadata.name", ing.namespace) ∷ [];
}

module _ (E : Env) where
  -- The grant in the cluster: read, or made where it is missing.
  unfoldable pub find_or_create_grant : ReferenceGrant → ActE E ReferenceGrant
  find_or_create_grant desired = do
    grant ← get (E.cluster.get_grant desired.namespace desired.name)
    elim grant [
      | missing ↦
          call (E.cluster.create_grant desired) "CreationFailed" "failed to create ReferenceGrant"
      | failure e ↦ fail e
      | found rp ↦ return rp
    ]

  -- The update of a grant whose spec is not the desired one.
  unfoldable pub update_grant : ReferenceGrant → ReferenceGrant → ActE E (Unit {0})
  unfolding ReferenceGrantSpec-discrete
  update_grant rp desired =
      if deep_equal ReferenceGrantSpec-discrete rp.spec desired.spec
      then return tt
      else (call (E.cluster.update_grant (record rp { spec = desired.spec })) "UpdateFailed"
            "failed to update ReferenceGrant"
          >>= λ _. return tt)

  -- `reconcileTLS`
  unfoldable pub reconcile_tls : IngressTls → Ingress → ActE E (List Listener)
  unfolding external_gateway gateway_metadata secret_metadata make_reference_grant
      find_or_create_grant update_grant listener_for
  reconcile_tls tls ing = do
    gw ← lift (external_gateway E.plugin)
    desired ← lift (make_reference_grant E.kmeta ing (secret_metadata tls) (gateway_metadata gw))
    rp ← find_or_create_grant desired
    (if E.kmeta.is_controlled_by rp.owner_references ing
        then update_grant rp desired
        else record_event (warning "NotOwned") >> fail (failed "ReferenceGrant not owned"))
    return (map (listener_for tls ing) tls.hosts)
