-- ===== src/Reconcile/Backends/Urls.antt =====
-- The URLs that `probeTargets` of pkg/reconciler/ingress/reconcile_resources.go asks the prober to
-- probe, against the rules of the route.
use mathlib.Core.Path.{subst}
use net_gateway_api.Base.{
  String, ◌≡◌, refl, ap, ◌∙◌, Bool, false, ◌&&◌, ◌||◌, Option, List, [], ◌∷◌, any, if◌then◌else◌,
  Result, ok, err, panic, Yields, ◌>>=◌, >>=-Yields, >>=-Yields_any, inl, inr, Bool-cases,
  Result-cases, Yields-ok,
}
use net_gateway_api.Base.Text.{◌=s◌}
use net_gateway_api.Model.Names.{NamespacedName}
use net_gateway_api.Model.Gateway.{
  HttpHeaderMatch, HttpPathMatch, HttpRouteMatch, HttpRouteRule, HttpRoute,
}
use net_gateway_api.Model.Ingress.{Ingress, IngressRule, cluster_local}
use net_gateway_api.Resources.Constants.{hash_key}
use net_gateway_api.Resources.Host.{longest_host}
use net_gateway_api.Resources.Make.{http_route_key}
use net_gateway_api.Reconcile.Backends.{
  path_value, add_hosts, add_longest, header_loop, match_loop, rule_loop, probe_targets,
}
use net_gateway_api.Reconcile.Backends.Requests.{visibility_of}
use net_gateway_api.Reconcile.Backends.Listed.{
  same_url, listed, swapped, covered, or_false, one, weaken, listed-insert_visibility,
}
use net_gateway_api.Status.Types.{Url, Backends, add_url}

-- The hosts that are probed for a visibility: the longest one alone for a local one.
abbrev longest_of : Result (String × List String) → List String
longest_of (ok (host, sorted)) = host ∷ []
longest_of (err e) = []
longest_of (panic m) = []

abbrev pub probe_hosts : String → List String → List String
probe_hosts v hostnames =
    if v =s cluster_local then longest_of (longest_host hostnames) else hostnames

abbrev pub url_of : String → String → Url
url_of host value = record { scheme = ""; host = host; path = value }

-- Whether a path of a match asks for a URL.
abbrev at_path : List String → Result String → Url → Bool
at_path hosts (ok value) u = any (λ host. same_url (url_of host value) u) hosts
at_path hosts (err e) u = false
at_path hosts (panic m) u = false

abbrev pub asks_match : List String → Url → HttpRouteMatch → Bool
asks_match hosts u m =
    any (λ h. h.name =s hash_key) m.headers && at_path hosts (path_value m.path) u

abbrev pub asks : List String → Url → List HttpRouteRule → Bool
asks hosts u rules = any (λ rule. any (asks_match hosts u) rule.matches) rules

module _ (v : String) (u : Url) where
  -- What is listed besides what was.
  abbrev Adds : Bool → Backends → Backends → Type 0
  Adds more b b' = listed v u b'.urls ≡ (more || listed v u b.urls)

  add_url-Adds : (b : Backends) (x : Url) → Adds (same_url x u) b (add_url b v x)
  unfolding add_url
  add_url-Adds b x = listed-insert_visibility v x u b.urls

  add_hosts-Adds :
      (hosts : List String) (path : Option HttpPathMatch) (b : Backends)
      → Yields (Adds (at_path hosts (path_value path) u) b) (add_hosts v hosts path b)
  unfolding add_hosts
  add_hosts-Adds [] path b = elim (Result-cases (path_value path)) [
    | inl (value, e) ↦ rw e refl
    | inr (inl (x, e)) ↦ rw e refl
    | inr (inr (x, e)) ↦ rw e refl
  ]
  add_hosts-Adds (host ∷ hosts) path b = elim (Result-cases (path_value path)) [
    | inl (value, e) ↦
        let x : Url = url_of host value in
        let rest : Yields
            (Adds (any (λ host. same_url (url_of host value) u) hosts) (add_url b v x))
            (add_hosts v hosts path (add_url b v x)) =
          rw e at (add_hosts-Adds hosts path (add_url b v x)) in
        rw (e, add_hosts)
          (weaken _ (Adds (any (λ host. same_url (url_of host value) u) (host ∷ hosts)) b)
            (add_hosts v hosts path (add_url b v x))
            (λ b' h.
              h
              ∙ ap (λ l. any (λ host. same_url (url_of host value) u) hosts || l) (add_url-Adds b x)
              ∙ swapped (any (λ host. same_url (url_of host value) u) hosts) (same_url x u)
                  (listed v u b.urls))
            rest)
    | inr (inl (x, e)) ↦ rw (e, add_hosts) tt
    | inr (inr (x, e)) ↦ rw (e, add_hosts) tt
  ]

  add_longest-Adds :
      (hostnames : List String) (path : Option HttpPathMatch) (b : Backends)
      → Yields
          (Adds (at_path (longest_of (longest_host hostnames)) (path_value path) u) b)
          (add_longest v hostnames path b)
  unfolding add_longest
  add_longest-Adds hostnames path b = elim (Result-cases (longest_host hostnames)) [
    | inl ((host, sorted), e) ↦ elim (Result-cases (path_value path)) [
      | inl (value, f) ↦
          rw (e, f, add_longest)
            (add_url-Adds b (url_of host value)
              ∙ one (same_url (url_of host value) u) (listed v u b.urls))
      | inr (inl (x, f)) ↦ rw (e, f, add_longest) tt
      | inr (inr (x, f)) ↦ rw (e, f, add_longest) tt
    ]
    | inr (inl (x, e)) ↦ rw (e, add_longest) tt
    | inr (inr (x, e)) ↦ rw (e, add_longest) tt
  ]

  -- One call after the other.
  >>=-Adds :
      (p q : Bool) (b : Backends) (r : Result Backends) (f : Backends → Result Backends)
      → Yields (Adds p b) r
      → ((c : Backends) → Yields (Adds q c) (f c))
      → Yields (Adds (p || q) b) (r >>= f)
  >>=-Adds p q b r f h k = >>=-Yields (Adds p b) (Adds (p || q) b) r f h (λ c g.
      weaken (Adds q c) (Adds (p || q) b) (f c)
        (λ d l. l ∙ ap (λ x. q || x) g ∙ swapped q p (listed v u b.urls)) (k c))

  module _ (hostnames : List String) where
    abbrev hosts : List String
    hosts = probe_hosts v hostnames

    header_loop-Adds :
        (path : Option HttpPathMatch) (hs : List HttpHeaderMatch) (b : Backends)
        → Yields
            (Adds (any (λ h. h.name =s hash_key) hs && at_path hosts (path_value path) u) b)
            (header_loop v hostnames path hs b)
    unfolding header_loop
    header_loop-Adds path [] b = refl
    header_loop-Adds path (h ∷ hs) b = elim (Bool-cases (h.name =s hash_key)) [
      | inr e ↦ rw e (header_loop-Adds path hs b)
      | inl e ↦ elim (Bool-cases (v =s cluster_local)) [
        | inl l ↦ rw (e, l) (add_longest-Adds hostnames path b)
        | inr l ↦
            let a : Bool = at_path hostnames (path_value path) u in
            let more : Bool = any (λ h. h.name =s hash_key) hs && a in
            rw (e, l)
              (subst
                (λ p.
                  Yields (Adds p b)
                    (add_hosts v hostnames path b >>= λ b'. header_loop v hostnames path hs b'))
                (covered a (any (λ h. h.name =s hash_key) hs))
                (>>=-Adds a more b (add_hosts v hostnames path b) (header_loop v hostnames path hs)
                  (add_hosts-Adds hostnames path b) (λ c. rw l at (header_loop-Adds path hs c))))
      ]
    ]

    match_loop-Adds :
        (ms : List HttpRouteMatch) (b : Backends)
        → Yields (Adds (any (asks_match hosts u) ms) b) (match_loop v hostnames ms b)
    unfolding match_loop
    match_loop-Adds [] b = refl
    match_loop-Adds (m ∷ ms) b =
        >>=-Adds (asks_match hosts u m) (any (asks_match hosts u) ms) b
          (header_loop v hostnames m.path m.headers b) (match_loop v hostnames ms)
          (header_loop-Adds m.path m.headers b) (match_loop-Adds ms)

    rule_loop-Adds :
        (rules : List HttpRouteRule) (b : Backends)
        → Yields (Adds (asks hosts u rules) b) (rule_loop v hostnames rules b)
    unfolding rule_loop
    rule_loop-Adds [] b = refl
    rule_loop-Adds (r ∷ rs) b =
        >>=-Adds (any (asks_match hosts u) r.matches) (asks hosts u rs) b
          (match_loop v hostnames r.matches b) (rule_loop v hostnames rs)
          (match_loop-Adds r.matches b) (rule_loop-Adds rs)

-- The URLs that `probeTargets` asks for are exactly those of the route's probes: under the
-- visibility of the rule, the external one where it has none, a URL is listed if and only if its
-- scheme is empty, its path is that of a match that looks at the probe header, and its host is one
-- of the hostnames, or the longest one where the visibility is local to the cluster.
pub probe_targets-asks :
    (hash : String) (ing : Ingress) (rule : IngressRule) (r : HttpRoute) (b : Backends) (u : Url)
    → probe_targets hash ing rule r ≡ ok b
    → listed (visibility_of rule) u b.urls
      ≡ asks (probe_hosts (visibility_of rule) r.spec.hostnames) u r.spec.rules
unfolding probe_targets
probe_targets-asks hash ing rule r b u h =
    Yields-ok Asked (>>=-Yields_any Asked (http_route_key ing rule) _ by_key) h
  where
    v : String
    v = visibility_of rule

    all_rules : Bool
    all_rules = asks (probe_hosts v r.spec.hostnames) u r.spec.rules

    Asked : Backends → Type 0
    Asked b = listed v u b.urls ≡ all_rules

    request : NamespacedName → Backends
    request key = record {
      callback_key = record { namespace = ing.namespace; name = ing.name };
      key = key;
      version = hash;
      urls = [];
      http_option = "";
    }

    by_key :
        (key : NamespacedName)
        → Yields Asked (rule_loop v r.spec.hostnames r.spec.rules (request key))
    by_key key =
        weaken (Adds v u all_rules (request key)) Asked
          (rule_loop v r.spec.hostnames r.spec.rules (request key)) (λ b l. l ∙ or_false all_rules)
          (rule_loop-Adds v u r.spec.hostnames r.spec.rules (request key))
