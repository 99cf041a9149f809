-- ===== src/Resources/Grant.antt =====
-- pkg/reconciler/ingress/resources/reference_grant.go
pub mod Names
use Prim.Native.String.{len, slice}
use net_gateway_api.Base.{
  ℕ, ◌+◌, ◌-◌, String, ◌<>◌, Option, some, List, [], ◌∷◌, ltb, if◌then◌else◌, Result, ok, panic,
  ◌>>=◌,
}
use net_gateway_api.Model.Names.{StringMap}
use net_gateway_api.Model.Gateway.{
  ReferenceGrant, ReferenceGrantSpec, ReferenceGrantFrom, ReferenceGrantTo,
}
use net_gateway_api.Model.Ingress.{Ingress}
use net_gateway_api.Resources.Constants.{Kmeta}

-- metav1.PartialObjectMetadata; `group` is that of `GroupVersionKind()`.
pub record PartialObjectMetadata : Type 0 where
  pub kind : String
  pub group : String
  pub name : String
  pub namespace : String
  pub labels : StringMap
  pub annotations : StringMap

-- `name[:62-len(from.Namespace)]`: a negative bound panics. Names are ASCII, so a byte is a
-- character.
unfoldable pub truncate : String → String → Result String
truncate name namespace =
    if ltb 62 (len namespace)
    then panic "slice bounds out of range"
    else ok (slice name 0 (62 - len namespace))

-- The name of the grant.
unfoldable pub grant_name : String → String → Result String
unfolding truncate
grant_name name namespace = do
  short ← (if ltb 62 (len name + len namespace) then truncate name namespace else ok name)
  ok (short <> "-" <> namespace)

-- `MakeReferenceGrant`
unfoldable pub make_reference_grant :
    Kmeta → Ingress → PartialObjectMetadata → PartialObjectMetadata → Result ReferenceGrant
unfolding grant_name
make_reference_grant K ing to from = do
  name ← grant_name to.name from.namespace
  ok (record {
    name = name;
    namespace = to.namespace;
    labels = to.labels;
    annotations = to.annotations;
    owner_references = K.new_controller_ref ing ∷ [];
    spec = record {
      from = record { group = from.group; kind = from.kind; namespace = from.namespace } ∷ [];
      to = record { group = to.group; kind = to.kind; name = some to.name } ∷ [];
    };
  })
