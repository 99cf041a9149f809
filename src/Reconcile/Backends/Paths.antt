-- ===== src/Reconcile/Backends/Paths.antt =====
-- The routes of which `probeTargets` of pkg/reconciler/ingress/reconcile_resources.go reads no
-- pointer that is nil: those of the program.
use net_gateway_api.Base.{
  String, ◌≡◌, refl, Option, List, [], ◌∷◌, All, Result, ok, ◌>>=◌, inl, inr, Bool-cases,
  if◌then◌else◌,
}
use net_gateway_api.Base.Text.{◌=s◌}
use net_gateway_api.Model.Names.{NamespacedName}
use net_gateway_api.Model.Gateway.{
  HttpHeaderMatch, HttpPathMatch, HttpRouteMatch, HttpRouteRule, HttpRouteSpec, HttpRoute,
}
use net_gateway_api.Model.Ingress.{Ingress, IngressRule, cluster_local, external_ip}
use net_gateway_api.Resources.Constants.{hash_key}
use net_gateway_api.Resources.Host.Greatest.{longest_host-greatest}
use net_gateway_api.Resources.Make.{http_route_key}
use net_gateway_api.Reconcile.Backends.{
  path_value, add_hosts, add_longest, header_loop, match_loop, rule_loop, probe_targets,
  is_probe_rule,
}
use net_gateway_api.Resources.Probes.Removal.{is_traffic}
use net_gateway_api.Base.{Bool, true, any, ◌&&◌}
use net_gateway_api.Status.Types.{Backends, add_url}

abbrev pub HasPath : HttpRouteMatch → Type 0
HasPath m = (v : String) × (path_value m.path ≡ ok v)

abbrev pub HasPaths : HttpRouteRule → Type 0
HasPaths rule = All HasPath rule.matches

-- A rule that a probe of the Ingress may ask for: one of its matches looks at the probe header, and
-- none is under the path of the probes of revisions.
abbrev pub is_probed : HttpRouteRule → Bool
is_probed rule = is_traffic rule && is_probe_rule rule

-- It has a hostname, and each match has a path.
abbrev pub IsProbable : HttpRouteSpec → Type 0
IsProbable spec =
    (host : String) × (hosts : List String) × (spec.hostnames ≡ host ∷ hosts)
    × All HasPaths spec.rules

-- And one rule may be asked for.
abbrev pub IsProbed : HttpRouteSpec → Type 0
IsProbed spec = IsProbable spec × (any is_probed spec.rules ≡ true)

-- A request for a key and a version.
abbrev pub AsksFor : NamespacedName → String → Backends → Type 0
AsksFor key version b = (b.key ≡ key) × (b.version ≡ version)

abbrev pub Asks : NamespacedName → String → Result Backends → Type 0
Asks key version t = (b : Backends) × ((t ≡ ok b) × AsksFor key version b)

module _ (key : NamespacedName) (version : String) where
  >>=-Asks :
      (m : Result Backends) (f : Backends → Result Backends)
      → Asks key version m
      → ((b : Backends) → AsksFor key version b → Asks key version (f b))
      → Asks key version (m >>= f)
  >>=-Asks m f (b, (e, a)) k = rw e (k b a)

  module _ (v : String) where
    add_hosts-Asks :
        (hosts : List String) (path : Option HttpPathMatch) (value : String) (b : Backends)
        → path_value path ≡ ok value
        → AsksFor key version b
        → Asks key version (add_hosts v hosts path b)
    unfolding add_hosts add_url
    add_hosts-Asks [] path value b p a = (b, (refl, a))
    add_hosts-Asks (host ∷ hosts) path value b p a = rw p (
        add_hosts-Asks hosts path value
          (add_url b v (record { scheme = ""; host = host; path = value })) p a)

    module _ (host : String) (hosts : List String) where
      add_longest-Asks :
          (path : Option HttpPathMatch) (value : String) (b : Backends)
          → path_value path ≡ ok value
          → AsksFor key version b
          → Asks key version (add_longest v (host ∷ hosts) path b)
      unfolding add_longest add_url
      add_longest-Asks path value b p a =
          let (longest, sorted, e, _, _, _, _) = longest_host-greatest host hosts in
          rw (e, p) (add_url b v (record { scheme = ""; host = longest; path = value }), (refl, a))

      header_loop-Asks :
          (path : Option HttpPathMatch) (value : String) (hs : List HttpHeaderMatch) (b : Backends)
          → path_value path ≡ ok value
          → AsksFor key version b
          → Asks key version (header_loop v (host ∷ hosts) path hs b)
      unfolding header_loop
      header_loop-Asks path value [] b p a = (b, (refl, a))
      header_loop-Asks path value (k ∷ hs) b p a = elim (Bool-cases (k.name =s hash_key)) [
        | inr e ↦ rw e (header_loop-Asks path value hs b p a)
        | inl e ↦ elim (Bool-cases (v =s cluster_local)) [
          | inl l ↦ rw (e, l) (add_longest-Asks path value b p a)
          | inr l ↦
              rw (e, l)
                (>>=-Asks (add_hosts v (host ∷ hosts) path b) _
                  (add_hosts-Asks (host ∷ hosts) path value b p a)
                  (λ c g. header_loop-Asks path value hs c p g))
        ]
      ]

      match_loop-Asks :
          (ms : List HttpRouteMatch) (b : Backends)
          → All HasPath ms
          → AsksFor key version b
          → Asks key version (match_loop v (host ∷ hosts) ms b)
      unfolding match_loop
      match_loop-Asks [] b h a = (b, (refl, a))
      match_loop-Asks (m ∷ ms) b ((value, p), hs) a =
          >>=-Asks (header_loop v (host ∷ hosts) m.path m.headers b) _
            (header_loop-Asks m.path value m.headers b p a) (λ c g. match_loop-Asks ms c hs g)

      rule_loop-Asks :
          (rules : List HttpRouteRule) (b : Backends)
          → All HasPaths rules
          → AsksFor key version b
          → Asks key version (rule_loop v (host ∷ hosts) rules b)
      unfolding rule_loop
      rule_loop-Asks [] b h a = (b, (refl, a))
      rule_loop-Asks (r ∷ rs) b (h, hs) a =
          >>=-Asks (match_loop v (host ∷ hosts) r.matches b) _ (match_loop-Asks r.matches b h a)
            (λ c g. rule_loop-Asks rs c hs g)

-- The request for a route that can be probed has the key of the rule and the version.
pub probe_targets-Asks :
    (hash : String) (ing : Ingress) (rule : IngressRule) (r : HttpRoute) (key : NamespacedName)
    → http_route_key ing rule ≡ ok key
    → IsProbable r.spec
    → Asks key hash (probe_targets hash ing rule r)
unfolding probe_targets
probe_targets-Asks hash ing rule r key e (host, hosts, h, p) =
    rw (e, h)
      (rule_loop-Asks key hash (if rule.visibility =s "" then external_ip else rule.visibility) host
        hosts r.spec.rules _ p (refl, refl))
