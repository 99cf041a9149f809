-- ===== src/Status/Contract/Ends.antt =====
-- The end of a pod's probing in pkg/status/status.go, as the callers of the prober see it.
use mathlib.Core.Option.{some-injective}
use mathlib.Core.Path.{subst}
use net_gateway_api.Base.{
  ℕ, zero, suc, ◌≡◌, ◌≢◌, refl, sym, ap, ◌∙◌, true, false, some, get_elem?, ◌==◌, arith, ◌⊎◌, inl,
  inr, Bool-cases, Option-cases, [], ◌∷◌, ◌++◌,
}
use net_gateway_api.Base.Int.{pos, decrement, is_zero, is_positive}
use net_gateway_api.Model.Names.{NamespacedName}
use net_gateway_api.Status.Prober.{RouteState, Prober, lookup, state_of, is_probe_active}
use net_gateway_api.Status.Events.{finish_pod, on_probing_success, on_probing_cancellation}
use net_gateway_api.Status.Store.{get_elem?-modify_own, get_elem?-modify_other}
use net_gateway_api.Status.Counters.{active, Owes, IsCounted, owed, finished, finish_pod-finished}
use net_gateway_api.Status.Counters.Steps.{last-is_positive, zero-is_positive, modify_pods-Owes}
use net_gateway_api.Status.Queue.Work.{equals}
use net_gateway_api.Status.Prober.{route_at}
use net_gateway_api.Status.Keys.{route_at-Holds}
use net_gateway_api.Status.Contract.Puts.{becomes}
use net_gateway_api.Status.Contract.{view, Stays, Becomes, GetsReady, state}
use net_gateway_api.Status.Contract.Keyed.{HasKey, IsKeyed}
use net_gateway_api.Status.Contract.Views.{shown, view-at, at-modify}

-- The route state that the map holds for a key gets ready, and its callback key is called.
abbrev pub Announces : Prober → Prober → Type 0
Announces m m' =
    (id : ℕ) × (r : RouteState) × (((route_at m r.key ≡ some (id, r))
        × (m'.callbacks ≡ m.callbacks ++ ((id, r.callback_key) ∷ [])))
      × ((view m r.key ≡ some (state r.version false))
          × Becomes r.key (some (state r.version true)) (view m) (view m')))

pub Announces-GetsReady : (m m' : Prober) → Announces m m' → GetsReady (view m) (view m')
Announces-GetsReady m m' (id, r, (c, g)) = (r.key, r.version, g)

-- A pod that is done: nothing shows, or its route gets ready.
abbrev pub Ends : Prober → Prober → Type 0
Ends m m' = Stays (view m) (view m') ⊎ Announces m m'

abbrev count_at : ℕ → RouteState → RouteState
count_at a r = record r { pending_count = pos a }

-- A route state that still counts pods is not ready.
finished_more :
    (j a : ℕ) (r : RouteState) (m : Prober)
    → get_elem? m.routes j ≡ some r
    → r.pending_count ≡ pos (suc (suc a))
    → Stays (view m) (view (finished j (suc a) r m))
unfolding finished
finished_more j a r m g e k =
    view-at (finished j (suc a) r m) k
    ∙ at-modify m.routes j (count_at (suc a)) same (lookup k m.route_states)
    ∙ sym (view-at m k)
  where
    same :
        (s : RouteState)
        → get_elem? m.routes j ≡ some s
        → state_of (count_at (suc a) s) ≡ state_of s
    same s h =
        ap (λ z. record { version = s.version; ready = is_zero z })
          (sym (ap (λ r. r.pending_count) (some-injective s r (sym h ∙ g)) ∙ e))

-- The answer for a key whose route state is another one.
finished_other :
    (j a : ℕ) (r : RouteState) (m : Prober) (k : NamespacedName)
    → lookup k m.route_states ≢ some j
    → view (finished j a r m) k ≡ view m k
unfolding finished
finished_other j a r m k d = elim (Option-cases (lookup k m.route_states)) [
  | inl e ↦ view-at (finished j a r m) k ∙ rw e (sym (view-at m k ∙ rw e refl))
  | inr (id, e) ↦
      view-at (finished j a r m) k
      ∙ rw e (
          ap shown (get_elem?-modify_other m.routes j id (count_at a) (apart id e))
          ∙ sym (view-at m k ∙ rw e refl))
]
  where
    apart : (id : ℕ) → lookup k m.route_states ≡ some id → (j == id) ≡ false
    apart id e = elim (Bool-cases (j == id)) [
      | inl b ↦ absurd (d (e ∙ ap some (sym (equals j id b))))
      | inr b ↦ b
    ]

-- The key of the map's entry for a route state.
named :
    (j : ℕ) (r : RouteState) (m : Prober)
    → get_elem? m.routes j ≡ some r
    → IsKeyed m
    → (k : NamespacedName) → lookup k m.route_states ≡ some j
    → r.key ≡ k
named j r m g h k l = subst (HasKey k) g (h k j l)

-- The last pod of the route state that the map holds for a key.
finished_last :
    (j : ℕ) (r : RouteState) (m : Prober)
    → get_elem? m.routes j ≡ some r
    → r.pending_count ≡ pos 1
    → lookup r.key m.route_states ≡ some j
    → IsKeyed m
    → Announces m (finished j 0 r m)
unfolding finished
finished_last j r m g e l h = (
  j,
  r,
  (
    (route_at-Holds r.key m j r (l, g), refl),
    (
      before,
      becomes r.key (some (state r.version true)) (view m) (view (finished j 0 r m)) after
          (λ k d. finished_other j 0 r m k (λ q. d (sym (named j r m g h k q)))),
    ),
  ),
)
  where
    before : view m r.key ≡ some (state r.version false)
    before = view-at m r.key ∙ rw l (ap shown g ∙ ap (λ z. some (state r.version (is_zero z))) e)

    after : view (finished j 0 r m) r.key ≡ some (state r.version true)
    after =
        view-at (finished j 0 r m) r.key
        ∙ rw l (ap shown (get_elem?-modify_own m.routes j (count_at 0) r g))

-- The last pod of any route state: an outdated one does not show.
finished_zero :
    (j : ℕ) (r : RouteState) (m : Prober)
    → get_elem? m.routes j ≡ some r
    → r.pending_count ≡ pos 1
    → IsKeyed m
    → Ends m (finished j 0 r m)
finished_zero j r m g e h = elim (Option-cases (lookup r.key m.route_states)) [
  | inl n ↦ inl (unseen (λ q. cc (q, n)))
  | inr (id, n) ↦ elim (Bool-cases (id == j)) [
    | inl b ↦ inr (finished_last j r m g e (n ∙ ap some (equals id j b)) h)
    | inr b ↦ inl (unseen (λ q. apart id b (some-injective id j (sym n ∙ q))))
  ]
]
  where
    apart : (id : ℕ) → (id == j) ≡ false → id ≢ j
    apart id b q = ground (arith, b, q)

    unseen : lookup r.key m.route_states ≢ some j → Stays (view m) (view (finished j 0 r m))
    unseen d k =
        finished_other j 0 r m k
          (λ q. d (ap (λ k. lookup k m.route_states) (named j r m g h k q) ∙ q))

pub finish_pod-Ends : (j : ℕ) (m : Prober) → Owes j m → IsKeyed m → Ends m (finish_pod j m)
unfolding finish_pod
finish_pod-Ends j m o h = elim (Option-cases (get_elem? m.routes j)) [
  | inl e ↦ rw (e, finish_pod) (inl (λ k. refl))
  | inr (r, e) ↦
      let (p, c) = owed j r m e o in
      subst (Ends m) (sym (finish_pod-finished j (active j m.pods) r m e p))
        (by_count r e (active j m.pods) p)
]
  where
    by_count :
        (r : RouteState)
        → get_elem? m.routes j ≡ some r
        → (a : ℕ) → r.pending_count ≡ pos (suc a)
        → Ends m (finished j a r m)
    by_count r e zero p = finished_zero j r m e p h
    by_count r e (suc a) p = inl (finished_more j a r m e p)

pub on_probing_success-Ends :
    (p : ℕ) (m : Prober) → IsCounted m → IsKeyed m → Ends m (on_probing_success p m)
unfolding on_probing_success is_probe_active route_at
on_probing_success-Ends p m c h = elim (Option-cases (get_elem? m.pods p)) [
  | inl e ↦ rw (e, on_probing_success) (inl (λ k. refl))
  | inr (pod, e) ↦ elim (Bool-cases (is_zero (decrement pod.pending_count))) [
    | inl z ↦
        rw (e, on_probing_success, z)
          (finish_pod-Ends pod.route _
            (modify_pods-Owes m p _ pod e
              (λ id. ground (arith, last-is_positive pod.pending_count z))
              (λ id. ground (arith, zero-is_positive (decrement pod.pending_count) z)) c)
            h)
    | inr z ↦ rw (e, on_probing_success, z) (inl (λ k. refl))
  ]
]

pub on_probing_cancellation-Ends :
    (p : ℕ) (m : Prober) → IsCounted m → IsKeyed m → Ends m (on_probing_cancellation p m)
unfolding on_probing_cancellation is_probe_active route_at
on_probing_cancellation-Ends p m c h = elim (Option-cases (get_elem? m.pods p)) [
  | inl e ↦ rw (e, on_probing_cancellation) (inl (λ k. refl))
  | inr (pod, e) ↦ elim (Bool-cases (is_positive pod.pending_count)) [
    | inl z ↦
        rw (e, on_probing_cancellation, z)
          (finish_pod-Ends pod.route _
            (modify_pods-Owes m p _ pod e (λ id. ground (arith, z)) (λ id. ground arith) c) h)
    | inr z ↦ rw (e, on_probing_cancellation, z) (inl (λ k. refl))
  ]
]
