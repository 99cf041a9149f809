-- ===== src/Reconcile/Lister/Pods.antt =====
-- When `BackendsToProbeTargets` of pkg/reconciler/ingress/lister.go finds targets.
use mathlib.Core.List.{append-nil}
use net_gateway_api.Base.{◌+◌, ◌>>=◌, err, failed}
use net_gateway_api.Base.{
  ℕ, suc, String, ◌≡◌, refl, ap, ◌∙◌, false, some, List, [], ◌∷◌, All, ◌==◌, length, arith, Result,
  ok, inl, inr, Bool-cases, if◌then◌else◌,
}
use net_gateway_api.Config.{Gateway}
use net_gateway_api.Model.Names.{NamespacedName}
use net_gateway_api.Resources.Make.{gateway_for}
use net_gateway_api.Reconcile.Backends.Listing.{Lists}
use net_gateway_api.Reconcile.Lister.{
  EndpointPort, EndpointSubset, PodTargetLister, has, scheme_of, schemed, insert_ips, subset_target,
  is_empty, subset_targets, service_targets, visibility_targets, all_targets, count_ips,
  backends_to_probe_targets,
}
use net_gateway_api.Status.Types.{Url, UrlSet, ProbeTarget, Backends}

-- The Gateway of a visibility has a service, whose endpoints have ports, and an address in the first
-- of their subsets.
abbrev HasPorts : EndpointSubset → Type 0
HasPorts sub = (p : EndpointPort) × (ps : List EndpointPort) × (sub.ports ≡ p ∷ ps)

pub record HasPods (L : PodTargetLister) (v : String) : Type 0 where
  pub gateway : Gateway
  pub service : NamespacedName
  pub first : EndpointSubset
  pub others : List EndpointSubset
  pub address : String
  pub addresses : List String
  pub serves : gateway_for L.plugin v ≡ ok gateway
  pub serves_by : gateway.service ≡ some service
  pub lists : L.endpoints service.namespace service.name ≡ ok (first ∷ others)
  pub reaches : first.addresses ≡ address ∷ addresses
  pub ports : All HasPorts (first ∷ others)

-- Addresses that are there stay.
insert_ips-some :
    (rest : List String) (a : String) (ips : List String)
    → (b : String) × (more : List String) × (insert_ips rest (a ∷ ips) ≡ b ∷ more)
unfolding insert_ips
insert_ips-some [] a ips = (a, ips, refl)
insert_ips-some (c ∷ rest) a ips = elim (Bool-cases (has (a ∷ ips) c)) [
  | inl e ↦
      let (b, more, f) = insert_ips-some rest a ips in
      (b, more, ap (λ t. insert_ips rest (if t then a ∷ ips else c ∷ a ∷ ips)) e ∙ f)
  | inr e ↦
      let (b, more, f) = insert_ips-some rest c (a ∷ ips) in
      (b, more, ap (λ t. insert_ips rest (if t then a ∷ ips else c ∷ a ∷ ips)) e ∙ f)
]

module _ (scheme : String) (schemes : List String) (u : Url) (urls : UrlSet) where
  -- The target of a subset with ports.
  subset_target-ok :
      (sub : EndpointSubset)
      → HasPorts sub
      → (t : ProbeTarget) × (subset_target scheme schemes (u ∷ urls) sub ≡ ok t)
        × (t.urls ≡ schemed scheme (u ∷ urls))
        × (t.pod_ips ≡ insert_ips sub.addresses [])
  unfolding subset_target
  subset_target-ok sub (p, ps, e) = rw (e, subset_target) (_, refl, refl, refl)

  subset_targets-ok :
      (subs : List EndpointSubset)
      → All HasPorts subs
      → (ts : List ProbeTarget) × (subset_targets scheme schemes (u ∷ urls) subs ≡ ok ts)
  unfolding subset_targets
  subset_targets-ok [] h = ([], refl)
  subset_targets-ok (sub ∷ subs) (h, hs) =
      let (t, e, _, _) = subset_target-ok sub h in
      let (ts, f) = subset_targets-ok subs hs in rw (e, f) (_, refl)

  -- Where the first subset has an address, there is one to probe.
  first_target-ok :
      (sub : EndpointSubset) (subs : List EndpointSubset) (a : String) (rest : List String)
      → sub.addresses ≡ a ∷ rest
      → All HasPorts (sub ∷ subs)
      → (ts : List ProbeTarget) × (n : ℕ) × (subset_targets scheme schemes (u ∷ urls) (sub ∷ subs)
          ≡ ok ts)
        × (count_ips ts ≡ suc n)
  unfolding subset_targets count_ips insert_ips
  first_target-ok sub subs a rest e (h, hs) =
      let (t, f, g, k) = subset_target-ok sub h in
      let (ts, l) = subset_targets-ok subs hs in
      let (b, more, m) = insert_ips-some rest a [] in
      let ips : t.pod_ips ≡ b ∷ more = k ∙ ap (λ l. insert_ips l []) e ∙ m in
      (
        t ∷ ts,
        length more + count_ips ts,
        rw (f, l) (ap (λ us. ok (if is_empty us then ts else t ∷ ts)) g),
        ap (λ l. length l + count_ips ts) ips ∙ omega arith,
      )

module _ (L : PodTargetLister) (v : String) (pods : HasPods L v) where
  visibility_targets-ok :
      (option : String) (u : Url) (urls : UrlSet)
      → (ts : List ProbeTarget) × (n : ℕ) × (visibility_targets L option v (u ∷ urls) ≡ ok ts)
        × (count_ips ts ≡ suc n)
  unfolding visibility_targets service_targets
  visibility_targets-ok option u urls =
      let (ts, n, f, g) =
        first_target-ok (scheme_of v option).0 (scheme_of v option).1 u urls pods.first pods.others
          pods.address pods.addresses pods.reaches pods.ports in
      (
        ts,
        n,
        rw (pods.serves, visibility_targets, pods.serves_by, service_targets, pods.lists) f,
        g,
      )

  -- Where the Gateway of a visibility has pods, targets are found for backends that list some URL
  -- under it.
  pub backends_to_probe_targets-HasPods :
      (b : Backends) → Lists v b → (ts : List ProbeTarget) × (backends_to_probe_targets L b ≡ ok ts)
  unfolding backends_to_probe_targets all_targets
  backends_to_probe_targets-HasPods b (option, (u, urls, e)) =
      let (ts, n, f, g) = visibility_targets-ok b.http_option u urls in
      let found_some : (count_ips ts == 0) ≡ false = ap (λ c. c == 0) g ∙ ground arith in
      (
        ts,
        ap (λ m. all_targets L b.http_option m >>= enough) e
            ∙ rw (f, append-nil ts, found_some) refl,
      )
    where
      enough : List ProbeTarget → Result (List ProbeTarget)
      enough ts = if count_ips ts == 0 then err (failed "no gateway pods available") else ok ts
