-- ===== src/Reconcile/Route/Probable.antt =====
-- The routes that the branches of `reconcileHTTPRouteUpdate` work on can be probed.
use net_gateway_api.Base.Sort.{any-sort}
use net_gateway_api.Base.Text.{has_prefix, ◌=s◌}
use net_gateway_api.Base.{
  Bool, true, false, not, any, ◌&&◌, ◌||◌, ap, ◌∙◌, ◌++◌, any-map, any-append, and_true, concat_map,
  arith, inl, inr, Bool-cases,
}
use net_gateway_api.Model.Names.{StringMap}
use net_gateway_api.Model.Gateway.{HttpHeaderMatch, HttpRouteMatch}
use net_gateway_api.Resources.Constants.{hash_key}
use net_gateway_api.Resources.Headers.{match_not_after, sort_matches, matches_of}
use net_gateway_api.Resources.Probes.{is_endpoint_match, kept_copies, endpoint_path}
use net_gateway_api.Resources.Probes.Removal.{kept_copies-first}
use net_gateway_api.Reconcile.Backends.{is_probe_rule, is_probe_path}
use net_gateway_api.Reconcile.Backends.Paths.{is_probed}
use net_gateway_api.Base.{String, ◌<>◌, ◌≡◌, refl, List, [], ◌∷◌, map, All, All-append, ok}
use net_gateway_api.Config.{Gateway, GatewayPlugin}
use net_gateway_api.Model.Gateway.{HttpBackendRef, HttpRouteRule, HttpRoute}
use net_gateway_api.Model.Ingress.{IngressBackendSplit, HttpIngressPath, Ingress, IngressRule}
use net_gateway_api.Resources.Constants.{Kmeta}
use net_gateway_api.Resources.Probes.{
  update_rule, update_probe_hash, remove_endpoint_probes, endpoint_rule, add_endpoint_probe,
  old_backend_rule, add_old_backend, probe_matches,
}
use net_gateway_api.Resources.Probes.Removal.{remove_endpoint_probes-All}
use net_gateway_api.Resources.Make.{path_rule, make_http_route}
use net_gateway_api.Resources.Make.Rules.{make_http_route-rules, make_http_route-sorted}
use net_gateway_api.Reconcile.Backends.{path_value, compute_backends}
use net_gateway_api.Reconcile.Backends.Paths.{HasPaths, IsProbed}
use net_gateway_api.Reconcile.Route.{
  Phase, finish, transition, wait, endpoints, replace, Desired, desired_of, add_endpoint_probes,
  add_old_backends, add_probes, endpoint_prefix, transition_prefix,
}

or_true : (b : Bool) → (b || true) ≡ true
or_true true = refl
or_true false = refl

or_left : (a b : Bool) → (a || b) ≡ false → a ≡ false
or_left true b h = cc h
or_left false b h = refl

update_rules-paths :
    (hash : String) (rules : List HttpRouteRule)
    → All HasPaths rules
    → All HasPaths (map (update_rule hash) rules)
unfolding update_rule
update_rules-paths hash [] h = tt
update_rules-paths hash (rule ∷ rules) (h, hs) = (h, update_rules-paths hash rules hs)

update_rules-probed :
    (hash : String) (rules : List HttpRouteRule)
    → any is_probed (map (update_rule hash) rules) ≡ any is_probed rules
unfolding update_rule is_probe_rule
update_rules-probed hash rules = any-map is_probed (update_rule hash) rules

-- A rule more.
append-probed :
    (rules more : List HttpRouteRule)
    → any is_probed rules ≡ true
    → any is_probed (rules ++ more) ≡ true
append-probed rules more p = any-append is_probed rules more ∙ ap (λ b. b || any is_probed more) p

update_probe_hash-IsProbed :
    (r : HttpRoute) (hash : String) → IsProbed r.spec → IsProbed (update_probe_hash r hash).spec
unfolding update_probe_hash
update_probe_hash-IsProbed r hash ((host, hosts, e, h), p) = (
  (host, hosts, e, update_rules-paths hash r.spec.rules h),
  update_rules-probed hash r.spec.rules ∙ p,
)

-- A rule that may be asked for is kept.
copies-probed :
    (rule : HttpRouteRule) (ms : List HttpRouteMatch)
    → is_probed rule ≡ true
    → any is_endpoint_match ms ≡ false
    → any (λ m. any (λ h. h.name =s hash_key) m.headers) ms ≡ true
    → any is_probed (kept_copies rule ms) ≡ true
copies-probed rule [] p e h = cc h
copies-probed rule (m ∷ ms) p e h =
    rw (kept_copies-first rule m ms (or_left (is_endpoint_match m) _ e)) (rw p refl)

kept-probed :
    (rules : List HttpRouteRule)
    → any is_probed rules ≡ true
    → any is_probed (concat_map (λ rule. kept_copies rule rule.matches) rules) ≡ true
unfolding is_probe_rule
kept-probed [] p = cc p
kept-probed (rule ∷ rules) p = elim (Bool-cases (is_probed rule)) [
  | inl f ↦
      any-append is_probed (kept_copies rule rule.matches) _
      ∙ ap (λ b. b || any is_probed (concat_map (λ rule. kept_copies rule rule.matches) rules))
          (copies-probed rule rule.matches f (ground (arith, f)) (ground (arith, f)))
  | inr f ↦
      any-append is_probed (kept_copies rule rule.matches) _
      ∙ ap (λ b. any is_probed (kept_copies rule rule.matches) || b) (kept-probed rules (rw f at p))
      ∙ or_true (any is_probed (kept_copies rule rule.matches))
]

remove_endpoint_probes-IsProbed :
    (r : HttpRoute) → IsProbed r.spec → IsProbed (remove_endpoint_probes r).spec
unfolding remove_endpoint_probes
remove_endpoint_probes-IsProbed r ((host, hosts, e, h), p) =
    ((host, hosts, e, remove_endpoint_probes-All HasPaths r h), kept-probed r.spec.rules p)

add_endpoint_probes-IsProbed :
    (hash : String) (new : List IngressBackendSplit) (r : HttpRoute)
    → IsProbed r.spec
    → IsProbed (add_endpoint_probes hash new r).spec
unfolding add_endpoint_probes add_endpoint_probe endpoint_rule probe_matches path_value
add_endpoint_probes-IsProbed hash [] r h = h
add_endpoint_probes-IsProbed hash (b ∷ bs) r ((host, hosts, e, h), p) =
    add_endpoint_probes-IsProbed hash bs (add_endpoint_probe r hash b) (
      (host, hosts, e, All-append HasPaths r.spec.rules _ h (((_, refl), tt), tt)),
      append-probed r.spec.rules _ p,
    )

add_old_backends-IsProbed :
    (hash : String) (old : List HttpBackendRef) (r : HttpRoute)
    → IsProbed r.spec
    → IsProbed (add_old_backends hash old r).spec
unfolding add_old_backends add_old_backend old_backend_rule probe_matches path_value
add_old_backends-IsProbed hash [] r h = h
add_old_backends-IsProbed hash (b ∷ bs) r ((host, hosts, e, h), p) =
    add_old_backends-IsProbed hash bs (add_old_backend r hash b) (
      (host, hosts, e, All-append HasPaths r.spec.rules _ h (((_, refl), tt), tt)),
      append-probed r.spec.rules _ p,
    )

add_probes-IsProbed :
    (hash : String) (new : List IngressBackendSplit) (old : List HttpBackendRef) (r : HttpRoute)
    → IsProbed r.spec
    → IsProbed (add_probes hash new old r).spec
add_probes-IsProbed hash new old r h =
    add_old_backends-IsProbed hash old _ (add_endpoint_probes-IsProbed hash new r h)

path_rules-paths :
    (gw : Gateway) (paths : List HttpIngressPath) → All HasPaths (map (path_rule gw) paths)
unfolding path_rule path_value
path_rules-paths gw [] = tt
path_rules-paths gw (p ∷ ps) = (((_, refl), tt), path_rules-paths gw ps)

-- A path that a probe of the Ingress asks for: it looks at the probe header, and is not one of those
-- of the probes of revisions.
abbrev pub asks_probe : HttpIngressPath → Bool
asks_probe path = is_probe_path path && not (has_prefix path.path endpoint_path)

headers-probe :
    (headers : StringMap)
    → any (λ h. h.name =s hash_key) (sort_matches (matches_of headers))
      ≡ any (λ (k, _). k =s hash_key) headers
unfolding sort_matches matches_of
headers-probe headers =
    any-sort match_not_after (λ (h : HttpHeaderMatch). h.name =s hash_key) (matches_of headers)
    ∙ any-map (λ (h : HttpHeaderMatch). h.name =s hash_key) _ headers

path_rule-probed :
    (gw : Gateway) (path : HttpIngressPath)
    → asks_probe path ≡ true
    → is_probed (path_rule gw path) ≡ true
unfolding path_rule is_probe_rule is_probe_path is_endpoint_match has_prefix
path_rule-probed gw path h =
    let (header, other) = and_true (is_probe_path path) _ h in
    let looks = headers-probe path.headers ∙ header in
    elim (Bool-cases (path.path =s "")) [
      | inl e ↦ rw (e, looks) refl
      | inr e ↦ rw (e, looks) (ground (arith, other))
    ]

path_rules-probed :
    (gw : Gateway) (paths : List HttpIngressPath)
    → any asks_probe paths ≡ true
    → any is_probed (map (path_rule gw) paths) ≡ true
path_rules-probed gw [] h = cc h
path_rules-probed gw (p ∷ ps) h = elim (Bool-cases (asks_probe p)) [
  | inl e ↦ ap (λ b. b || any is_probed (map (path_rule gw) ps)) (path_rule-probed gw p e)
  | inr e ↦
      ap (λ b. is_probed (path_rule gw p) || b) (path_rules-probed gw ps (rw e at h))
      ∙ or_true (is_probed (path_rule gw p))
]

remove_endpoint_probes-parents : (r : HttpRoute) → (remove_endpoint_probes r).parents ≡ r.parents
unfolding remove_endpoint_probes
remove_endpoint_probes-parents r = refl

module _ (K : Kmeta) (plugin : GatewayPlugin) (ing : Ingress) (rule : IngressRule)
    (probes : any asks_probe rule.paths ≡ true) where
  -- A route that `MakeHTTPRoute` makes can be probed.
  pub make_http_route-IsProbed :
      (made : HttpRoute) → make_http_route K plugin ing rule ≡ ok made → IsProbed made.spec
  make_http_route-IsProbed made e =
      let (gw, rules) = make_http_route-rules K plugin ing rule e in
      let (host, hosts, sorted) = make_http_route-sorted K plugin ing rule e in
      (
        (host, hosts, sorted, rw rules (path_rules-paths gw rule.paths)),
        rw rules (path_rules-probed gw rule.paths probes),
      )

  abbrev Both : HttpRoute → Desired → Type 0
  Both r d = IsProbed d.route.spec × (IsProbed d.current.spec × (d.current.parents ≡ r.parents))

  -- Where the route can be made, each branch desires one that can be probed, and leaves one with
  -- the same status.
  pub desired_of-IsProbed :
      (p : Phase) (hash : String) (r made : HttpRoute)
      → make_http_route K plugin ing rule ≡ ok made
      → IsProbed r.spec
      → (d : Desired) × ((desired_of K plugin p hash ing rule r ≡ ok d) × Both r d)
  unfolding desired_of
  desired_of-IsProbed finish hash r made e h =
      rw e (_, (refl, (make_http_route-IsProbed made e, (h, refl))))
  desired_of-IsProbed transition hash r made e h =
      let t = transition_prefix <> hash in
      rw e (
        _,
        (
          refl,
          (
            add_probes-IsProbed t (compute_backends r rule).0 (compute_backends r rule).1
                (update_probe_hash made t)
                (update_probe_hash-IsProbed made t (make_http_route-IsProbed made e)),
            (remove_endpoint_probes-IsProbed r h, remove_endpoint_probes-parents r),
          ),
        ),
      )
  desired_of-IsProbed wait hash r made e h = (_, (refl, (h, (h, refl))))
  desired_of-IsProbed endpoints hash r made e h =
      let t = endpoint_prefix <> hash in
      (
        _,
        (
          refl,
          (
            add_probes-IsProbed t (compute_backends r rule).0 (compute_backends r rule).1
                (remove_endpoint_probes (update_probe_hash r t))
                (remove_endpoint_probes-IsProbed (update_probe_hash r t)
                  (update_probe_hash-IsProbed r t h)),
            (h, refl),
          ),
        ),
      )
  desired_of-IsProbed replace hash r made e h =
      rw e (_, (refl, (make_http_route-IsProbed made e, (h, refl))))
