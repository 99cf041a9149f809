-- ===== src/Resources/Make/Rules.antt =====
-- The rules that `makeHTTPRouteRule` of pkg/reconciler/ingress/resources/httproute.go makes.
use mathlib.Core.List.{Permᴰ}
use net_gateway_api.Base.{
  String, last?, ◌≡◌, refl, sym, ap, ◌∙◌, Option, none, some, List, [], ◌∷◌, map, All, ok,
  >>=-eq-ok, ok-injective, arith,
}
use net_gateway_api.Config.{Gateway, GatewayPlugin}
use net_gateway_api.Model.Names.{StringMap}
use net_gateway_api.Model.Gateway.{
  HttpRoute, HttpRouteRule, HttpRouteMatch, HttpPathMatch, HttpBackendRef,
}
use net_gateway_api.Base.Text.{◌=s◌}
use net_gateway_api.Base.{ℕ, ◌%◌, ◌^◌, if◌then◌else◌}
use net_gateway_api.Resources.Probes.{int32_bits}
use net_gateway_api.Model.Ingress.{HttpIngressPath, IngressBackendSplit, IngressRule, Ingress}
use net_gateway_api.Resources.Constants.{Kmeta}
use net_gateway_api.Resources.Headers.Order.{KeysDistinct, sort_headers-eq_of_permᴰ}
use net_gateway_api.Resources.Host.{longest_host}
use net_gateway_api.Resources.Host.Greatest.{longest_host-last}
use net_gateway_api.Resources.Probes.Removal.{HasOneMatch}
use net_gateway_api.Resources.Make.{
  append_filter, split_backend, path_rule, make_http_route_rule, gateway_for, make_http_route_spec,
  make_http_route,
}

-- Two splits that differ in the order of their map alone.
abbrev pub SameSplit : IngressBackendSplit → IngressBackendSplit → Type 0
SameSplit a b =
    (record a { append_headers = b.append_headers } ≡ b)
    × Permᴰ a.append_headers b.append_headers
    × KeysDistinct a.append_headers

abbrev pub SameMap : Option StringMap → Option StringMap → Type 0
SameMap none none = Unit
SameMap none (some n) = ⊥
SameMap (some m) none = ⊥
SameMap (some m) (some n) = Permᴰ m n × KeysDistinct m

abbrev pub SameSplits : List IngressBackendSplit → List IngressBackendSplit → Type 0
SameSplits [] [] = Unit
SameSplits [] (b ∷ bs) = ⊥
SameSplits (a ∷ as') [] = ⊥
SameSplits (a ∷ as') (b ∷ bs) = SameSplit a b × SameSplits as' bs

append_filter-eq : (m n : Option StringMap) → SameMap m n → append_filter m ≡ append_filter n
unfolding append_filter
append_filter-eq none none h = refl
append_filter-eq none (some n) h = absurd h
append_filter-eq (some m) none h = absurd h
append_filter-eq (some m) (some n) (p, d) = rw ((sort_headers-eq_of_permᴰ p d).0)

split_backend-eq : (a b : IngressBackendSplit) → SameSplit a b → split_backend a ≡ split_backend b
unfolding split_backend
split_backend-eq a b (e, p, d) =
    let sorted : split_backend a ≡ split_backend (record a { append_headers = b.append_headers }) =
      rw ((sort_headers-eq_of_permᴰ p d).0) in
    sorted ∙ ap split_backend e

split_backends-eq :
    (as' bs : List IngressBackendSplit)
    → SameSplits as' bs
    → map split_backend as' ≡ map split_backend bs
split_backends-eq [] [] h = refl
split_backends-eq [] (b ∷ bs) h = absurd h
split_backends-eq (a ∷ as') [] h = absurd h
split_backends-eq (a ∷ as') (b ∷ bs) (h, hs) =
    cc (split_backend-eq a b h, split_backends-eq as' bs hs)

-- The rule for a path is the same for every order in which Go iterates over its maps: those of the
-- path and those of its splits, whose keys are distinct.
pub path_rule-eq_of_permᴰ :
    (gw : Gateway) (p q : HttpIngressPath)
    → p.path ≡ q.path
    → p.rewrite_host ≡ q.rewrite_host
    → Permᴰ p.headers q.headers
    → KeysDistinct p.headers
    → SameMap p.append_headers q.append_headers
    → SameSplits p.splits q.splits
    → path_rule gw p ≡ path_rule gw q
unfolding path_rule
path_rule-eq_of_permᴰ gw p q e f hp hd ha hs =
    cc (e, f, (sort_headers-eq_of_permᴰ hp hd).1, append_filter-eq _ _ ha, split_backends-eq _ _ hs)

make_http_route_rule-one :
    (gw : Gateway) (paths : List HttpIngressPath) → All HasOneMatch (map (path_rule gw) paths)
unfolding path_rule
make_http_route_rule-one gw [] = tt
make_http_route_rule-one gw (p ∷ ps) = (omega arith, make_http_route_rule-one gw ps)

-- The rules of a route that `MakeHTTPRoute` makes.
pub make_http_route-rules :
    (K : Kmeta) (plugin : GatewayPlugin) (ing : Ingress) (rule : IngressRule) {r : HttpRoute}
    → make_http_route K plugin ing rule ≡ ok r
    → (gw : Gateway) × (r.spec.rules ≡ map (path_rule gw) rule.paths)
unfolding make_http_route make_http_route_spec make_http_route_rule
make_http_route-rules K plugin ing rule {r} h =
    let ((host, sorted), _, made) = >>=-eq-ok (longest_host rule.hosts) _ h in
    let (spec, e, whole) =
      >>=-eq-ok (make_http_route_spec plugin (record rule { hosts = sorted })) _ made in
    let (gw, _, f) = >>=-eq-ok (gateway_for plugin rule.visibility) _ e in
    (
      gw,
      ap (λ r. r.spec.rules) (sym (ok-injective whole)) ∙ ap (λ s. s.rules) (sym (ok-injective f)),
    )

-- Where a rule sends the requests of which paths: the paths of its matches, and the names, ports
-- and weights of its backends.
abbrev pub Target : Type 0
Target = List (Option HttpPathMatch) × List (String × Option ℕ × Option ℕ)

abbrev pub backend_target : HttpBackendRef → String × Option ℕ × Option ℕ
backend_target b = (b.name, b.port, b.weight)

abbrev pub split_target : IngressBackendSplit → String × Option ℕ × Option ℕ
split_target s = (s.service_name, some (s.service_port % 2 ^ 32), some (s.percent % 2 ^ 32))

abbrev pub target_of : HttpRouteRule → Target
target_of rule =
    (map (λ (m : HttpRouteMatch). m.path) rule.matches, map backend_target rule.backend_refs)

-- What a path of the Ingress asks for.
abbrev pub wanted_target : HttpIngressPath → Target
wanted_target path = (
  some (record {
    type = some "PathPrefix";
    value = some (if path.path =s "" then "/" else path.path);
  })
      ∷ [],
  map split_target path.splits,
)

splits-target :
    (splits : List IngressBackendSplit)
    → map backend_target (map split_backend splits) ≡ map split_target splits
unfolding split_backend int32_bits
splits-target [] = refl
splits-target (s ∷ splits) = ap (◌∷◌ (split_target s)) (splits-target splits)

rules-target :
    (gw : Gateway) (paths : List HttpIngressPath)
    → map target_of (map (path_rule gw) paths) ≡ map wanted_target paths
unfolding path_rule
rules-target gw [] = refl
rules-target gw (p ∷ ps) = cc (splits-target p.splits, rules-target gw ps)

-- The rules of a route that `MakeHTTPRoute` makes are, in order, one for each path of the Ingress
-- rule: with exactly one match, for the prefix of that path ("/" where it is empty), and with the
-- name, port and percentage of each of its splits, in order, as a backend.
pub make_http_route-HasOneMatch :
    (K : Kmeta) (plugin : GatewayPlugin) (ing : Ingress) (rule : IngressRule) {r : HttpRoute}
    → make_http_route K plugin ing rule ≡ ok r
    → All HasOneMatch r.spec.rules × (map target_of r.spec.rules ≡ map wanted_target rule.paths)
make_http_route-HasOneMatch K plugin ing rule h =
    let (gw, e) = make_http_route-rules K plugin ing rule h in
    rw e (make_http_route_rule-one gw rule.paths, rules-target gw rule.paths)

nonempty :
    (l : List String) (x : String)
    → last? l ≡ some x
    → (y : String) × (ys : List String) × (l ≡ y ∷ ys)
nonempty [] x h = cc
nonempty (y ∷ ys) x h = (y, ys, refl)

-- A route that `MakeHTTPRoute` makes has a hostname.
pub make_http_route-sorted :
    (K : Kmeta) (plugin : GatewayPlugin) (ing : Ingress) (rule : IngressRule) {r : HttpRoute}
    → make_http_route K plugin ing rule ≡ ok r
    → (host : String) × (hosts : List String) × (r.spec.hostnames ≡ host ∷ hosts)
unfolding make_http_route make_http_route_spec
make_http_route-sorted K plugin ing rule {r} h =
    let ((host, sorted), taken, made) = >>=-eq-ok (longest_host rule.hosts) _ h in
    let (spec, e, whole) =
      >>=-eq-ok (make_http_route_spec plugin (record rule { hosts = sorted })) _ made in
    let (gw, _, f) = >>=-eq-ok (gateway_for plugin rule.visibility) _ e in
    let (y, ys, g) = nonempty sorted host (longest_host-last rule.hosts taken) in
    (
      y,
      ys,
      ap (λ r. r.spec.hostnames) (sym (ok-injective whole))
          ∙ ap (λ s. s.hostnames) (sym (ok-injective f))
          ∙ g,
    )
