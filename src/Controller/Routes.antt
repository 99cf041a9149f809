-- ===== src/Controller/Routes.antt =====
-- Notifications of the routes that the program makes, in pkg/reconciler/ingress/controller.go.
use mathlib.Core.Path.{subst}
use net_gateway_api.Base.{
  String, ◌≡◌, refl, sym, ap, ◌∙◌, Bool, true, false, Option, none, some, [], ◌∷◌, ◌++◌, inl, inr,
  Result-cases, Bool-cases, Result, ok, err, panic,
}
use net_gateway_api.Base.Text.{◌=s◌}
use net_gateway_api.Config.{GatewayPlugin, lookup}
use net_gateway_api.Model.Gateway.{HttpRoute}
use net_gateway_api.Model.Ingress.{IngressRule, Ingress}
use net_gateway_api.Resources.Constants.{Kmeta, last_applied_config}
use net_gateway_api.Resources.Make.{make_http_route, make_http_route_spec}
use net_gateway_api.Resources.Host.{longest_host}
use net_gateway_api.Controller.{
  Object, ingress_object, http_route_object, Notification, added, updated, deleted, Call,
  enqueue_controller_of, Machinery, class_key, gateway_api_ingress_class_name, Controller,
  http_routes, filter_func, registrations, perform, perform_all, calls_of, informed,
}
use net_gateway_api.Controller.Laws.{
  object_meta, newest, passed, on_passed, controller_keys, deletion_handling, MachineryLaws,
  KmetaLaws,
}

-- What a route takes from its Ingress besides its spec.
abbrev MadeFor : Kmeta → Ingress → HttpRoute → Type 0
MadeFor K ing r =
    (r.namespace ≡ ing.namespace)
    × ((r.annotations ≡ K.filter_map ing.annotations (λ key. key =s last_applied_config))
        × (r.owner_references ≡ K.new_controller_ref ing ∷ []))

abbrev Made : Kmeta → Ingress → Result HttpRoute → Type 0
Made K ing (ok r) = MadeFor K ing r
Made K ing (err e) = Unit
Made K ing (panic m) = Unit

make_http_route-Made :
    (K : Kmeta) (plugin : GatewayPlugin) (ing : Ingress) (rule : IngressRule)
    → Made K ing (make_http_route K plugin ing rule)
unfolding make_http_route
make_http_route-Made K plugin ing rule = elim (Result-cases (longest_host rule.hosts)) [
  | inl ((host, sorted), e) ↦
      elim (Result-cases (make_http_route_spec plugin (record rule { hosts = sorted }))) [
        | inl (spec, f) ↦ rw (e, f) (refl, (refl, refl))
        | inr (inl (x, f)) ↦ rw (e, f) tt
        | inr (inr (x, f)) ↦ rw (e, f) tt
      ]
  | inr (inl (x, e)) ↦ rw e tt
  | inr (inr (x, e)) ↦ rw e tt
]

-- A handler of all notifications of the objects that pass a filter.
passed-newest :
    (p : Object → Bool) (n : Notification)
    → p (newest n) ≡ true
    → (n' : Notification) × ((passed p n ≡ some n') × (newest n' ≡ newest n))
passed-newest p (added o) h = (added o, (rw h refl, refl))
passed-newest p (deleted o) h = (deleted o, (rw h refl, refl))
passed-newest p (updated old new) h = elim (Bool-cases (p old)) [
  | inl e ↦ (updated old new, (rw (h, e) refl, refl))
  | inr e ↦ (added new, (rw (h, e) refl, refl))
]

module _ (M : Machinery) (laws : MachineryLaws M) where
  pub filtered-handle_all :
      (p : Object → Bool) (f : Object → Call) (n : Notification)
      → p (newest n) ≡ true
      → M.notify (M.filtering p (M.handle_all f)) n ≡ f (newest n) ∷ []
  filtered-handle_all p f n h =
      let (n', (e, q)) = passed-newest p n h in
      laws.filtering p (M.handle_all f) n
      ∙ ap (on_passed (M.notify (M.handle_all f))) e
      ∙ laws.handle_all f n'
      ∙ ap (λ o. f o ∷ []) q

  -- A notification of a route that passes the filter.
  informed-http_routes :
      (n : Notification) (c : Controller)
      → filter_func M (newest n) ≡ true
      → informed M http_routes n c
        ≡ record c { queue = c.queue ++ controller_keys (deletion_handling (newest n)) }
  unfolding informed registrations calls_of perform_all perform
  informed-http_routes n c h =
      rw (filtered-handle_all (filter_func M) enqueue_controller_of n h)
        (ap (λ keys. record c { queue = c.queue ++ keys }) (laws.enqueue_controller_of (newest n)))

module _ (K : Kmeta) (kmeta : KmetaLaws K) (M : Machinery) (laws : MachineryLaws M) (ing : Ingress)
    (r : HttpRoute) (made : MadeFor K ing r) where
  -- The class annotation of the route is that of the Ingress.
  lookup-class_key : lookup class_key r.annotations ≡ lookup class_key ing.annotations
  unfolding ◌=s◌
  lookup-class_key =
      ap (lookup class_key) made.1.0
      ∙ kmeta.filter_map ing.annotations (λ key. key =s last_applied_config) class_key

  filter_func-http_route : filter_func M (http_route_object r) ≡ filter_func M (ingress_object ing)
  unfolding filter_func
  filter_func-http_route =
      laws.annotation_filter class_key gateway_api_ingress_class_name (http_route_object r)
      ∙ ap
          (λ (o : Option String). elim o [
            | none ↦ false
            | some v ↦ v =s gateway_api_ingress_class_name
          ])
          lookup-class_key
      ∙ sym (laws.annotation_filter class_key gateway_api_ingress_class_name (ingress_object ing))

  controller_keys-http_route :
      controller_keys (object_meta (http_route_object r))
      ≡ record { namespace = ing.namespace; name = ing.name } ∷ []
  controller_keys-http_route = rw (made.0, made.1.1, kmeta.new_controller_ref ing) refl

-- For handlers and kmeta functions that behave as documented: whatever happens to a route that
-- `MakeHTTPRoute` made for an Ingress of the controller's class, be it added, updated from any older
-- version or deleted, the handlers put exactly the key of this Ingress on the queue.
pub make_http_route-informed :
    (K : Kmeta) (kmeta : KmetaLaws K) (M : Machinery) (laws : MachineryLaws M)
    (plugin : GatewayPlugin) (ing : Ingress) (rule : IngressRule) (r : HttpRoute) (n : Notification)
    (c : Controller)
    → make_http_route K plugin ing rule ≡ ok r
    → filter_func M (ingress_object ing) ≡ true
    → newest n ≡ http_route_object r
    → informed M http_routes n c
      ≡ record c { queue = c.queue ++ (record { namespace = ing.namespace; name = ing.name } ∷ []) }
make_http_route-informed K kmeta M laws plugin ing rule r n c e p q =
    let made : MadeFor K ing r = subst (Made K ing) e (make_http_route-Made K plugin ing rule) in
    informed-http_routes M laws n c
      (ap (filter_func M) q ∙ filter_func-http_route K kmeta M laws ing r made ∙ p)
    ∙ ap (λ o. record c { queue = c.queue ++ controller_keys (deletion_handling o) }) q
    ∙ ap (λ keys. record c { queue = c.queue ++ keys })
        (controller_keys-http_route K kmeta M laws ing r made)
