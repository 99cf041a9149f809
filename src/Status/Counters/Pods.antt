-- ===== src/Status/Counters/Pods.antt =====
-- The pods that `probeRequest` of pkg/status/status.go makes, one for each IP with its items.
use mathlib.Core.Path.{subst}
use net_gateway_api.Base.{
  ℕ, ◌+◌, String, ◌≡◌, refl, sym, ap, ◌∙◌, true, false, List, [], ◌∷◌, ◌++◌, length, get_elem?, All,
  ◌==◌, if◌then◌else◌, arith, inl, inr, Bool-cases,
}
use net_gateway_api.Base.Int.{pos, is_positive}
use net_gateway_api.Base.Text.{◌=s◌}
use net_gateway_api.Status.Types.{Url, ProbeTarget, Backends}
use net_gateway_api.Status.Prober.{
  PodState, Prober, Grouped, append_item, group_urls, group_ips, group_targets, ip_context, add_pod,
  add_pods, new_route, started, probe_request,
}
use net_gateway_api.Status.Answers.{add_pods-routes}
use net_gateway_api.Status.Counters.{
  active, calls, weight, CountsOf, IsCounted, none-Counted, sign_le,
}
use net_gateway_api.Status.Store.{get_elem?-snoc, get_elem?-last, get_elem?_end}

-- Each IP has an item.
abbrev HasItems : Grouped → Type 0
HasItems = All (λ (ip, items). is_positive (pos (length items)) ≡ true)

snoc_positive :
    {A : Type 0} (xs : List A) (x : A) → is_positive (pos (length (xs ++ x ∷ []))) ≡ true
snoc_positive [] x = refl
snoc_positive (y ∷ xs) x = refl

append_item-HasItems :
    (ip : String) (item : Url × String) (g : Grouped)
    → HasItems g
    → HasItems (append_item ip item g)
unfolding append_item
append_item-HasItems ip item [] h = (refl, tt)
append_item-HasItems ip item ((j, items) ∷ g) (h, hs) = elim (Bool-cases (j =s ip)) [
  | inl e ↦ rw e (snoc_positive items item, hs)
  | inr e ↦ rw e (h, append_item-HasItems ip item g hs)
]

group_urls-HasItems :
    (ip port : String) (urls : List Url) (g : Grouped)
    → HasItems g
    → HasItems (group_urls ip port urls g)
unfolding group_urls
group_urls-HasItems ip port [] g h = h
group_urls-HasItems ip port (u ∷ urls) g h =
    group_urls-HasItems ip port urls (append_item ip (u, port) g)
      (append_item-HasItems ip (u, port) g h)

group_ips-HasItems :
    (ips : List String) (port : String) (urls : List Url) (g : Grouped)
    → HasItems g
    → HasItems (group_ips ips port urls g)
unfolding group_ips
group_ips-HasItems [] port urls g h = h
group_ips-HasItems (ip ∷ ips) port urls g h =
    group_ips-HasItems ips port urls (group_urls ip port urls g)
      (group_urls-HasItems ip port urls g h)

group_targets-HasItems :
    (ts : List ProbeTarget) (g : Grouped) → HasItems g → HasItems (group_targets ts g)
unfolding group_targets
group_targets-HasItems [] g h = h
group_targets-HasItems (t ∷ ts) g h =
    group_targets-HasItems ts (group_ips t.pod_ips t.pod_port t.urls g)
      (group_ips-HasItems t.pod_ips t.pod_port t.urls g h)

active-snoc :
    (id : ℕ) (pods : List PodState) (p : PodState)
    → active id (pods ++ p ∷ []) ≡ active id pods + weight id p
active-snoc id [] p = omega arith
active-snoc id (q ∷ pods) p = omega (arith, active-snoc id pods p)

ip_context-pods : (ip : String) (m : Prober) → (ip_context ip m).1.pods ≡ m.pods
unfolding ip_context
ip_context-pods ip m = ground arith

ip_context-callbacks : (ip : String) (m : Prober) → (ip_context ip m).1.callbacks ≡ m.callbacks
unfolding ip_context
ip_context-callbacks ip m = ground arith

add_pod-active :
    (id route : ℕ) (ip : String) (items : List (Url × String)) (m : Prober)
    → is_positive (pos (length items)) ≡ true
    → active id (add_pod route ip items m).pods ≡ active id m.pods + (if route == id then 1 else 0)
unfolding add_pod
add_pod-active id route ip items m h =
    active-snoc id (ip_context ip m).1.pods _ ∙ rw (ip_context-pods ip m) (ground (arith, h))

add_pods-active :
    (id route : ℕ) (g : Grouped) (m : Prober)
    → HasItems g
    → active id (add_pods route g m).pods ≡ active id m.pods + (if route == id then length g else 0)
unfolding add_pods
add_pods-active id route [] m h = ground arith
add_pods-active id route ((ip, items) ∷ g) m (h, hs) =
    add_pods-active id route g (add_pod route ip items m) hs
    ∙ ground (arith, add_pod-active id route ip items m h)

add_pods-callbacks :
    (route : ℕ) (g : Grouped) (m : Prober) → (add_pods route g m).callbacks ≡ m.callbacks
unfolding add_pods add_pod
add_pods-callbacks route [] m = refl
add_pods-callbacks route ((ip, items) ∷ g) m =
    add_pods-callbacks route g (add_pod route ip items m) ∙ ip_context-callbacks ip m

started-new :
    (now : ℕ) (b : Backends) (g : Grouped) (m : Prober)
    → HasItems g
    → IsCounted m
    → CountsOf (started now b g m) (length m.routes)
unfolding started
started-new now b g m h k =
    let id : ℕ = length m.routes in
    let r = new_route now b (length g) in
    let m' : Prober = record m { routes = m.routes ++ r ∷ [] } in
    let (a, c) =
      none-Counted (get_elem? m.routes id) (active id m.pods) (calls id m.callbacks)
        (get_elem?_end m.routes) (k id) in
    rw (add_pods-routes id g m', get_elem?-last m.routes r, add_pods-callbacks id g m')
      (
        ap pos (sym (add_pods-active id id g m' h ∙ ground (arith, a))),
        omega (arith, c, sign_le (active id (add_pods id g m').pods)),
      )

started-old :
    (now id : ℕ) (b : Backends) (g : Grouped) (m : Prober)
    → HasItems g
    → (length m.routes == id) ≡ false
    → CountsOf m id
    → CountsOf (started now b g m) id
unfolding started
started-old now id b g m h e k =
    let r = new_route now b (length g) in
    let m' : Prober = record m { routes = m.routes ++ r ∷ [] } in
    let a : active id (add_pods (length m.routes) g m').pods ≡ active id m.pods =
      add_pods-active id (length m.routes) g m' h ∙ ground (arith, e) in
    let o : get_elem? (m.routes ++ r ∷ []) id ≡ get_elem? m.routes id =
      get_elem?-snoc m.routes r id ∙ ground (arith, e) in
    rw (add_pods-routes (length m.routes) g m', o, add_pods-callbacks (length m.routes) g m', a) k

-- `probeRequest` keeps the counts: its route state counts the pods that it makes.
pub probe_request-IsCounted :
    (now : ℕ) (b : Backends) (targets : List ProbeTarget) (m : Prober)
    → IsCounted m
    → IsCounted (probe_request now b targets m).0
unfolding probe_request
probe_request-IsCounted now b targets m k id =
    let h : HasItems (group_targets targets []) = group_targets-HasItems targets [] tt in
    elim (Bool-cases (length m.routes == id)) [
      | inl e ↦
          subst (CountsOf (started now b (group_targets targets []) m)) (ground (arith, e))
            (started-new now b (group_targets targets []) m h k)
      | inr e ↦ started-old now id b (group_targets targets []) m h e (k id)
    ]
