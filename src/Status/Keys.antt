-- ===== src/Status/Keys.antt =====
-- The keys of `m.routeStates` in pkg/status/status.go: an entry stands under the key of its route,
-- and calls back with the key of its Ingress.
use mathlib.Core.Option.{some-injective}
use net_gateway_api.Base.{
  ℕ, ◌≡◌, ◌≢◌, sym, ◌∙◌, ◌&&◌, true, some, List, [], ◌∷◌, get_elem?, ◌==◌, arith, ◌⊎◌, inl, inr,
  Bool-cases, is_some,
}
use net_gateway_api.Model.Names.{
  NamespacedName, NamespacedName-discrete, deep_equal, deep_equal_iff,
}
use net_gateway_api.Status.Prober.{
  RouteState, Prober, lookup, delete, cancel_route, route_at, is_probe_active, state_of,
}
use net_gateway_api.Status.Events.{
  calls_back, cancel_entry, cancel_round, cancel_loop, cancel_ingress_probing_by_key,
}
use net_gateway_api.Status.Store.{
  get_elem?-modify, lookup-delete, lookup-nil, lookup-head, lookup-tail,
}

abbrev pub seal : RouteState → RouteState
seal r = record r { cancelled = true }

-- Route state `id` under key `k`: `r`, or `r` cancelled.
abbrev pub Holds : NamespacedName → ℕ → RouteState → Prober → Type 0
Holds k id r m = (lookup k m.route_states ≡ some id) × (get_elem? m.routes id ≡ some r)

cancel_entry-Sealed :
    (key k : NamespacedName) (id i : ℕ) (r : RouteState) (m : Prober)
    → k ≢ key
    → Holds k id (seal r) m
    → Holds k id (seal r) (cancel_entry key i m)
unfolding cancel_entry cancel_route
cancel_entry-Sealed key k id i r m d (h, g) = (
  lookup-delete k key m.route_states d ∙ h,
  get_elem?-modify m.routes i id seal ∙ ground (arith, g),
)

cancel_entry-Held :
    (key k : NamespacedName) (id i : ℕ) (r : RouteState) (m : Prober)
    → k ≢ key
    → Holds k id r m
    → Holds k id r (cancel_entry key i m) ⊎ Holds k id (seal r) (cancel_entry key i m)
unfolding cancel_entry cancel_route
cancel_entry-Held key k id i r m d (h, g) =
    let l : lookup k (delete key m.route_states) ≡ some id =
      lookup-delete k key m.route_states d ∙ h in
    elim (Bool-cases (i == id)) [
      | inl e ↦ inr (l, get_elem?-modify m.routes i id seal ∙ ground (arith, g, e))
      | inr e ↦ inl (l, get_elem?-modify m.routes i id seal ∙ ground (arith, g, e))
    ]

cancel_entry-own :
    (key k : NamespacedName) (id : ℕ) (r : RouteState) (m : Prober)
    → k ≢ key
    → Holds k id r m
    → Holds k id (seal r) (cancel_entry key id m)
unfolding cancel_entry cancel_route
cancel_entry-own key k id r m d (h, g) = (
  lookup-delete k key m.route_states d ∙ h,
  get_elem?-modify m.routes id id seal ∙ ground (arith, g),
)

cancel_round-Sealed :
    (key k j : NamespacedName) (id i : ℕ) (r : RouteState) (m : Prober)
    → k ≢ key
    → Holds k id (seal r) m
    → Holds k id (seal r) (cancel_round key j i m)
unfolding cancel_round
cancel_round-Sealed key k j id i r m d h =
    elim (Bool-cases (is_some (lookup j m.route_states) && calls_back key i m)) [
      | inl e ↦ rw e (cancel_entry-Sealed key k id i r m d h)
      | inr e ↦ rw e h
    ]

cancel_loop-Sealed :
    (key k : NamespacedName) (es : List (NamespacedName × ℕ)) (id : ℕ) (r : RouteState) (m : Prober)
    → k ≢ key
    → Holds k id (seal r) m
    → Holds k id (seal r) (cancel_loop key es m)
unfolding cancel_loop
cancel_loop-Sealed key k [] id r m d h = h
cancel_loop-Sealed key k ((j, i) ∷ es) id r m d h =
    cancel_loop-Sealed key k es id r (cancel_round key j i m) d
      (cancel_round-Sealed key k j id i r m d h)

cancel_round-Held :
    (key k j : NamespacedName) (id i : ℕ) (r : RouteState) (m : Prober)
    → k ≢ key
    → Holds k id r m
    → Holds k id r (cancel_round key j i m) ⊎ Holds k id (seal r) (cancel_round key j i m)
unfolding cancel_round
cancel_round-Held key k j id i r m d h =
    elim (Bool-cases (is_some (lookup j m.route_states) && calls_back key i m)) [
      | inl e ↦ rw e (cancel_entry-Held key k id i r m d h)
      | inr e ↦ rw e (inl h)
    ]

calls_back-Holds :
    (key k : NamespacedName) (id : ℕ) (r : RouteState) (m : Prober)
    → r.callback_key ≡ key
    → Holds k id r m
    → (is_some (lookup k m.route_states) && calls_back key id m) ≡ true
unfolding calls_back
calls_back-Holds key k id r m e (h, g) =
    rw (h, calls_back, g) ((deep_equal_iff NamespacedName-discrete r.callback_key key).1 e)

cancel_round-own :
    (key k : NamespacedName) (id : ℕ) (r : RouteState) (m : Prober)
    → k ≢ key
    → r.callback_key ≡ key
    → Holds k id r m
    → Holds k id (seal r) (cancel_round key k id m)
unfolding cancel_round
cancel_round-own key k id r m d e h =
    rw (calls_back-Holds key k id r m e h) (cancel_entry-own key k id r m d h)

cancel_loop-Held :
    (key k : NamespacedName) (es : List (NamespacedName × ℕ)) (id : ℕ) (r : RouteState) (m : Prober)
    → k ≢ key
    → r.callback_key ≡ key
    → lookup k es ≡ some id
    → Holds k id r m
    → Holds k id (seal r) (cancel_loop key es m)
unfolding cancel_loop
cancel_loop-Held key k [] id r m d c l h = cc (lookup-nil {V = ℕ} k, l)
cancel_loop-Held key k ((j, i) ∷ es) id r m d c l h =
    elim (Bool-cases (deep_equal NamespacedName-discrete j k)) [
      | inl e ↦
          let jk : j ≡ k = (deep_equal_iff NamespacedName-discrete j k).0 e in
          let ii : i ≡ id = some-injective i id (sym (lookup-head j k i es e) ∙ l) in
          rw (jk, ii)
            (cancel_loop-Sealed key k es id r (cancel_round key k id m) d
              (cancel_round-own key k id r m d c h))
      | inr e ↦ elim (cancel_round-Held key k j id i r m d h) [
        | inl held ↦
            cancel_loop-Held key k es id r (cancel_round key j i m) d c
              (sym (lookup-tail j k i es e) ∙ l) held
        | inr sealed ↦ cancel_loop-Sealed key k es id r (cancel_round key j i m) d sealed
      ]
    ]

pub route_at-inv :
    (k : NamespacedName) (m : Prober) (id : ℕ) (r : RouteState)
    → route_at m k ≡ some (id, r)
    → Holds k id r m
unfolding route_at
route_at-inv k m id r h = ground (arith, h)

pub route_at-Holds :
    (k : NamespacedName) (m : Prober) (id : ℕ) (r : RouteState)
    → Holds k id r m
    → route_at m k ≡ some (id, r)
unfolding route_at
route_at-Holds k m id r (h, g) = rw (h, route_at, g)

pub is_probe_active-at :
    (k : NamespacedName) (m : Prober) (id : ℕ) (r : RouteState)
    → route_at m k ≡ some (id, r)
    → is_probe_active k m ≡ (state_of r, true)
unfolding is_probe_active
is_probe_active-at k m id r h = rw (h, is_probe_active)

-- `CancelIngressProbingByKey` cancels the route state that stands under a key other than the
-- callback key and calls back with it, but leaves its entry in the map: it deletes the callback
-- key. So `IsProbeActive` answers for the cancelled route state as before.
pub cancel_ingress_probing_by_key_entry :
    (key k : NamespacedName) (m : Prober) (id : ℕ) (r : RouteState)
    → k ≢ key
    → r.callback_key ≡ key
    → route_at m k ≡ some (id, r)
    → let m' : Prober = cancel_ingress_probing_by_key key m in
      (route_at m' k ≡ some (id, seal r)) × (is_probe_active k m' ≡ is_probe_active k m)
unfolding cancel_ingress_probing_by_key
cancel_ingress_probing_by_key_entry key k m id r d c h =
    let held : Holds k id r m = route_at-inv k m id r h in
    let after : route_at (cancel_loop key m.route_states m) k ≡ some (id, seal r) =
      route_at-Holds k _ id (seal r)
        (cancel_loop-Held key k m.route_states id r m d c held.0 held) in
    (after, is_probe_active-at k _ id (seal r) after ∙ sym (is_probe_active-at k m id r h))
