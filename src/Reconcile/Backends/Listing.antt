-- ===== src/Reconcile/Backends/Listing.antt =====
-- What `probeTargets` of pkg/reconciler/ingress/reconcile_resources.go lists for a route that can be
-- probed.
use net_gateway_api.Base.{
  String, ◌≡◌, refl, ap, ◌∙◌, Bool, true, false, List, [], ◌∷◌, any, All, ok, inl, inr, Bool-cases,
  Yields-ok, if◌then◌else◌, arith,
}
use net_gateway_api.Base.Text.{◌=s◌}
use net_gateway_api.Model.Gateway.{HttpRouteMatch, HttpRouteRule, HttpRoute}
use net_gateway_api.Model.Ingress.{Ingress, IngressRule, cluster_local}
use net_gateway_api.Resources.Constants.{hash_key}
use net_gateway_api.Resources.Host.Greatest.{longest_host-greatest}
use net_gateway_api.Reconcile.Backends.{is_probe_rule, probe_targets}
use net_gateway_api.Reconcile.Backends.Listed.{listed, same_url}
use net_gateway_api.Reconcile.Backends.Paths.{HasPath, HasPaths, is_probed, IsProbed}
use net_gateway_api.Reconcile.Backends.Requests.{
  OnlyUnder, IsPlainRequest, visibility_of, probe_targets-Yields,
}
use net_gateway_api.Reconcile.Backends.Urls.{
  url_of, probe_hosts, asks_match, asks, probe_targets-asks,
}
use net_gateway_api.Status.Types.{Url, UrlSet, Url-discrete, Backends}
use net_gateway_api.Model.Names.{deep_equal_iff}

-- A request that lists some URL, under one visibility.
abbrev pub Lists : String → Backends → Type 0
Lists v b = (b.http_option ≡ "") × ((u : Url) × (urls : UrlSet) × (b.urls ≡ (v, u ∷ urls) ∷ []))

same_self : (u : Url) → same_url u u ≡ true
same_self u = (deep_equal_iff Url-discrete u u).1 refl

module _ (host : String) (hosts : List String) where
  match-Asked :
      (ms : List HttpRouteMatch)
      → All HasPath ms
      → any (λ m. any (λ h. h.name =s hash_key) m.headers) ms ≡ true
      → (u : Url) × (any (asks_match (host ∷ hosts) u) ms ≡ true)
  match-Asked [] h p = cc p
  match-Asked (m ∷ ms) ((value, e), hs) p =
      elim (Bool-cases (any (λ h. h.name =s hash_key) m.headers)) [
        | inl f ↦ (url_of host value, rw (f, e, same_self (url_of host value)) refl)
        | inr f ↦ let (u, g) = match-Asked ms hs (rw f at p) in (u, rw (f, g) refl)
      ]

  rules-Asked :
      (rules : List HttpRouteRule)
      → All HasPaths rules
      → any is_probed rules ≡ true
      → (u : Url) × (asks (host ∷ hosts) u rules ≡ true)
  unfolding is_probe_rule
  rules-Asked [] h p = cc p
  rules-Asked (rule ∷ rules) (h, hs) p = elim (Bool-cases (is_probed rule)) [
    | inl f ↦ let (u, g) = match-Asked rule.matches h (ground (arith, f)) in (u, rw g refl)
    | inr f ↦ let (u, g) = rules-Asked rules hs (rw f at p) in (u, ground (arith, g))
  ]

-- A host is probed.
probe_hosts-some :
    (v : String) (h : String) (hs : List String)
    → (host : String) × (hosts : List String) × (probe_hosts v (h ∷ hs) ≡ host ∷ hosts)
probe_hosts-some v h hs = elim (Bool-cases (v =s cluster_local)) [
  | inl e ↦
      let (longest, sorted, f, _, _, _, _) = longest_host-greatest h hs in
      (longest, [], rw (e, f) refl)
  | inr e ↦ (h, hs, rw e refl)
]

nothing : (t : Bool) → (if t then false else false) ≡ true → ⊥
nothing true p = cc p
nothing false p = cc p

-- A URL that is listed is in the one set of URLs.
listed-Lists :
    (v : String) (u : Url) (m : List (String × UrlSet))
    → OnlyUnder v m
    → listed v u m ≡ true
    → (x : Url) × (urls : UrlSet) × (m ≡ (v, x ∷ urls) ∷ [])
listed-Lists v u [] h p = cc p
listed-Lists v u ((w, []) ∷ []) h p = absurd (nothing (w =s v) p)
listed-Lists v u ((w, x ∷ urls) ∷ []) h p = (x, urls, ap (λ w. (w, x ∷ urls) ∷ []) h)
listed-Lists v u (p ∷ q ∷ m) h k = absurd h

-- The request for a route that can be probed lists some URL under the visibility of the rule.
pub probe_targets-Lists :
    (hash : String) (ing : Ingress) (rule : IngressRule) (r : HttpRoute) (b : Backends)
    → IsProbed r.spec
    → probe_targets hash ing rule r ≡ ok b
    → Lists (visibility_of rule) b
probe_targets-Lists hash ing rule r b ((h, hs, e, paths), probed) t =
    let v : String = visibility_of rule in
    let (option, under) = Yields-ok (IsPlainRequest v) (probe_targets-Yields hash ing rule r) t in
    let (host, hosts, f) = probe_hosts-some v h hs in
    let (u, g) = rules-Asked host hosts r.spec.rules paths probed in
    let asked : asks (probe_hosts v r.spec.hostnames) u r.spec.rules ≡ true =
      ap (λ l. asks (probe_hosts v l) u r.spec.rules) e ∙ ap (λ l. asks l u r.spec.rules) f ∙ g in
    (option, listed-Lists v u b.urls under (probe_targets-asks hash ing rule r b u t ∙ asked))
