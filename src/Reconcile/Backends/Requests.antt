-- ===== src/Reconcile/Backends/Requests.antt =====
-- What `probeTargets` of pkg/reconciler/ingress/reconcile_resources.go asks the prober for.
use net_gateway_api.Base.{
  String, ◌≡◌, refl, Option, List, [], ◌∷◌, Yields, if◌then◌else◌, >>=-Yields, >>=-Yields_any, inl,
  inr, Bool-cases,
}
use net_gateway_api.Base.Text.{◌=s◌, =s_iff}
use net_gateway_api.Model.Gateway.{
  HttpHeaderMatch, HttpPathMatch, HttpRouteMatch, HttpRouteRule, HttpRoute,
}
use net_gateway_api.Model.Ingress.{Ingress, IngressRule, cluster_local, external_ip}
use net_gateway_api.Resources.Constants.{hash_key}
use net_gateway_api.Resources.Host.{longest_host}
use net_gateway_api.Resources.Make.{http_route_key}
use net_gateway_api.Reconcile.Backends.{
  path_value, add_hosts, add_longest, header_loop, match_loop, rule_loop, probe_targets,
}
use net_gateway_api.Status.Types.{Url, UrlSet, Backends, add_url, insert_visibility}

-- URLs under one visibility at most.
abbrev pub OnlyUnder : String → List (String × UrlSet) → Type 0
OnlyUnder v [] = Unit
OnlyUnder v ((w, urls) ∷ []) = w ≡ v
OnlyUnder v (p ∷ q ∷ m) = ⊥

-- A request without an option for HTTP, for one visibility.
abbrev pub IsPlainRequest : String → Backends → Type 0
IsPlainRequest v b = (b.http_option ≡ "") × OnlyUnder v b.urls

insert_visibility-OnlyUnder :
    (v : String) (x : Url) (m : List (String × UrlSet))
    → OnlyUnder v m
    → OnlyUnder v (insert_visibility v x m)
unfolding insert_visibility
insert_visibility-OnlyUnder v x [] h = refl
insert_visibility-OnlyUnder v x ((w, urls) ∷ []) h = rw ((=s_iff w v).1 h) h
insert_visibility-OnlyUnder v x (p ∷ q ∷ m) h = absurd h

add_url-IsPlainRequest :
    (v : String) (x : Url) (b : Backends) → IsPlainRequest v b → IsPlainRequest v (add_url b v x)
unfolding add_url
add_url-IsPlainRequest v x b (o, h) = (o, insert_visibility-OnlyUnder v x b.urls h)

add_hosts-Yields :
    (v : String) (hosts : List String) (path : Option HttpPathMatch) (b : Backends)
    → IsPlainRequest v b
    → Yields (IsPlainRequest v) (add_hosts v hosts path b)
unfolding add_hosts add_url
add_hosts-Yields v [] path b h = h
add_hosts-Yields v (host ∷ hosts) path b h =
    >>=-Yields_any (IsPlainRequest v) (path_value path) _ (λ value.
      add_hosts-Yields v hosts path
        (add_url b v (record { scheme = ""; host = host; path = value }))
        (add_url-IsPlainRequest v (record { scheme = ""; host = host; path = value }) b h))

add_longest-Yields :
    (v : String) (hosts : List String) (path : Option HttpPathMatch) (b : Backends)
    → IsPlainRequest v b
    → Yields (IsPlainRequest v) (add_longest v hosts path b)
unfolding add_longest add_url
add_longest-Yields v hosts path b h = >>=-Yields_any (IsPlainRequest v) (longest_host hosts) _ (λ p.
    >>=-Yields_any (IsPlainRequest v) (path_value path) _
      (λ value. add_url-IsPlainRequest v (record { scheme = ""; host = p.0; path = value }) b h))

header_loop-Yields :
    (v : String) (hosts : List String) (path : Option HttpPathMatch) (hs : List HttpHeaderMatch)
    (b : Backends)
    → IsPlainRequest v b
    → Yields (IsPlainRequest v) (header_loop v hosts path hs b)
unfolding header_loop
header_loop-Yields v hosts path [] b h = h
header_loop-Yields v hosts path (k ∷ hs) b h = elim (Bool-cases (k.name =s hash_key)) [
  | inr e ↦ rw e (header_loop-Yields v hosts path hs b h)
  | inl e ↦ elim (Bool-cases (v =s cluster_local)) [
    | inl l ↦ rw (e, l) (add_longest-Yields v hosts path b h)
    | inr l ↦
        rw (e, l)
          (>>=-Yields (IsPlainRequest v) (IsPlainRequest v) (add_hosts v hosts path b) _
            (add_hosts-Yields v hosts path b h) (λ c g. header_loop-Yields v hosts path hs c g))
  ]
]

match_loop-Yields :
    (v : String) (hosts : List String) (ms : List HttpRouteMatch) (b : Backends)
    → IsPlainRequest v b
    → Yields (IsPlainRequest v) (match_loop v hosts ms b)
unfolding match_loop
match_loop-Yields v hosts [] b h = h
match_loop-Yields v hosts (m ∷ ms) b h =
    >>=-Yields (IsPlainRequest v) (IsPlainRequest v) (header_loop v hosts m.path m.headers b) _
      (header_loop-Yields v hosts m.path m.headers b h) (λ c g. match_loop-Yields v hosts ms c g)

rule_loop-Yields :
    (v : String) (hosts : List String) (rules : List HttpRouteRule) (b : Backends)
    → IsPlainRequest v b
    → Yields (IsPlainRequest v) (rule_loop v hosts rules b)
unfolding rule_loop
rule_loop-Yields v hosts [] b h = h
rule_loop-Yields v hosts (r ∷ rs) b h =
    >>=-Yields (IsPlainRequest v) (IsPlainRequest v) (match_loop v hosts r.matches b) _
      (match_loop-Yields v hosts r.matches b h) (λ c g. rule_loop-Yields v hosts rs c g)

-- The visibility under which URLs are listed.
abbrev pub visibility_of : IngressRule → String
visibility_of rule = if rule.visibility =s "" then external_ip else rule.visibility

pub probe_targets-Yields :
    (hash : String) (ing : Ingress) (rule : IngressRule) (r : HttpRoute)
    → Yields (IsPlainRequest (visibility_of rule)) (probe_targets hash ing rule r)
unfolding probe_targets
probe_targets-Yields hash ing rule r =
    >>=-Yields_any (IsPlainRequest (visibility_of rule)) (http_route_key ing rule) _
      (λ key. rule_loop-Yields (visibility_of rule) r.spec.hostnames r.spec.rules _ (refl, tt))
