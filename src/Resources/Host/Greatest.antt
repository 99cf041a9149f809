-- ===== src/Resources/Host/Greatest.antt =====
-- The host that `LongestHost` of pkg/reconciler/ingress/resources/helpers.go returns.
use mathlib.Core.Path.{subst}
use mathlib.Core.List.{Permᴰ}
use net_gateway_api.Base.{
  String, ◌≡◌, refl, sym, ap, ◌∙◌, true, List, [], ◌∷◌, none, some, ok, panic, All, last?,
  ok-injective,
}
use net_gateway_api.Base.Text.{◌≤s◌, ≤s_trans, ≤s_total}
use net_gateway_api.Base.Sort.{
  IsOrder, sort, Ascending, Untied, sort-Ascending, sort-permᴰ, last-ge, last-sort,
  sort-eq_of_permᴰ, sort_self,
}
use net_gateway_api.Resources.Host.{longest_host}

pub host-IsOrder : IsOrder ◌≤s◌
host-IsOrder = record { total = ≤s_total; trans = ≤s_trans }

-- `LongestHost` returns on every list of hosts that is not empty. The slice that it leaves behind
-- holds the same hosts in ascending order of their bytes, and it returns the last of these, which
-- no other host follows in that order.
pub longest_host-greatest :
    (h : String) (hs : List String)
    → (host : String) × (sorted : List String) × (longest_host (h ∷ hs) ≡ ok (host, sorted))
      × Permᴰ sorted (h ∷ hs)
      × Ascending ◌≤s◌ sorted
      × (last? sorted ≡ some host)
      × All (λ g. (g ≤s host) ≡ true) sorted
unfolding longest_host
longest_host-greatest h hs =
    let hosts : List String = h ∷ hs in
    let (host, e) = last-sort ◌≤s◌ h hs in
    let s = sort-Ascending ◌≤s◌ host-IsOrder hosts in
    (
      host,
      sort ◌≤s◌ hosts,
      rw (e, longest_host),
      sort-permᴰ ◌≤s◌ hosts,
      s,
      e,
      last-ge ◌≤s◌ (sort ◌≤s◌ hosts) host-IsOrder s e,
    )

-- The result of `LongestHost`, the slice that it leaves behind included, does not depend on the
-- order of the hosts, where no host is listed twice.
pub longest_host-eq_of_permᴰ :
    {hosts hosts' : List String}
    → Permᴰ hosts hosts'
    → Untied ◌≤s◌ hosts
    → longest_host hosts ≡ longest_host hosts'
unfolding longest_host
longest_host-eq_of_permᴰ p u =
    ap
      (λ sorted. elim (last? sorted) [
        | none ↦ panic "index out of range [-1]"
        | some host ↦ ok (host, sorted)
      ])
      (sort-eq_of_permᴰ ◌≤s◌ host-IsOrder p u)

-- Without hosts the index is out of range.
pub longest_host-nil : longest_host [] ≡ panic "index out of range [-1]"
unfolding longest_host
longest_host-nil = refl

longest_host_self :
    (sorted : List String) (host : String)
    → Ascending ◌≤s◌ sorted
    → last? sorted ≡ some host
    → longest_host sorted ≡ ok (host, sorted)
unfolding longest_host
longest_host_self sorted host s l =
    rw (longest_host, sort_self ◌≤s◌ sorted s, l) (ap (λ t. ok (host, t)) (sort_self ◌≤s◌ sorted s))

-- Where it returns, the host is the last of the slice that it leaves behind, and on that slice it
-- returns the same and changes nothing.
pub longest_host_again :
    (hosts : List String) {host : String} {sorted : List String}
    → longest_host hosts ≡ ok (host, sorted)
    → longest_host sorted ≡ ok (host, sorted)
longest_host_again [] h = absurd (cc (h, longest_host-nil))
longest_host_again (x ∷ xs) h =
    let (host, sorted, e, _, s, l, _) = longest_host-greatest x xs in
    let same = ok-injective (sym e ∙ h) in
    subst (λ p. longest_host p.1 ≡ ok p) same (longest_host_self sorted host s l)

pub longest_host-last :
    (hosts : List String) {host : String} {sorted : List String}
    → longest_host hosts ≡ ok (host, sorted)
    → last? sorted ≡ some host
longest_host-last [] h = absurd (cc (h, longest_host-nil))
longest_host-last (x ∷ xs) h =
    let (host, sorted, e, _, s, l, _) = longest_host-greatest x xs in
    subst (λ p. last? p.1 ≡ some p.0) (ok-injective (sym e ∙ h)) l
