-- ===== src/Status/Contract/Announce.antt =====
-- When pkg/status/status.go calls its ready callback.
use mathlib.Core.Option.{some-injective}
use net_gateway_api.Base.{
  ℕ, String, ◌≡◌, sym, ap, ◌∙◌, Bool, true, false, none, some, List, [], ◌∷◌, ◌++◌, inl, inr,
}
use net_gateway_api.Model.Names.{NamespacedName}
use net_gateway_api.Status.Types.{ProbeState, Backends}
use net_gateway_api.Status.Prober.{RouteState, Prober, new_prober, route_at}
use net_gateway_api.Status.Events.{
  Event, probes, cancel_ingress, cancel_pod, works, joins, notices, shuts_down, step, run,
}
use net_gateway_api.Status.Counters.{IsCounted}
use net_gateway_api.Status.Counters.Runs.{run-CountsOf}
use net_gateway_api.Status.Contract.Puts.{key_cases, Becomes-own, Becomes-other, outdated-apart}
use net_gateway_api.Status.Contract.{View, view, Becomes, state, Outdated}
use net_gateway_api.Status.Contract.Keyed.{IsKeyed}
use net_gateway_api.Status.Contract.Keyed.Steps.{run-IsKeyed}
use net_gateway_api.Status.Contract.Ends.{Ends}
use net_gateway_api.Status.Contract.Refines.{step-Spec, works-Ends, notices-Ends}

-- The callback for the route state that the map of `m` holds for a key.
abbrev pub CallsBack : NamespacedName → Prober → Prober → Type 0
CallsBack k m m' =
    (id : ℕ) × (r : RouteState) × ((route_at m k ≡ some (id, r))
      × (m'.callbacks ≡ m.callbacks ++ ((id, r.callback_key) ∷ [])))

apart : (v w : String) → state v false ≡ state w true → ⊥
apart v w q = cc (ap (λ s. s.ready) q)

-- Views between which a key gets ready.
module _ (k : NamespacedName) (version : String) (v v' : View)
    (before : v k ≡ some (state version false)) (after : v' k ≡ some (state version true)) where
  unchanged : v' k ≡ v k → ⊥
  unchanged e =
      apart version version
        (some-injective (state version false) (state version true) (sym before ∙ sym e ∙ after))

  forgotten : (key : NamespacedName) → Becomes key none v v' → ⊥
  forgotten key b = elim (key_cases k key) [
    | inl (e, d) ↦ unchanged (Becomes-other key none v v' b k d)
    | inr (e, q) ↦ never (sym after ∙ ap v' q ∙ Becomes-own key none v v' b)
  ]
    where
      never : {s : ProbeState} → some s ≡ none → ⊥
      never e = cc e

  requested :
      (b : Backends) (ready : Bool)
      → Outdated b v
      → Becomes b.key (some (state b.version ready)) v v'
      → ⊥
  requested b ready d n = elim (key_cases k b.key) [
    | inl (e, c) ↦ unchanged (Becomes-other b.key (some (state b.version ready)) v v' n k c)
    | inr (e, q) ↦ outdated-apart b (v b.key) false d (
        ap v (sym q)
        ∙ before
        ∙ ap (λ s. some (state s.version false))
            (some-injective (state version true) (state b.version ready)
              (sym after ∙ ap v' q ∙ Becomes-own b.key (some (state b.version ready)) v v' n)))
  ]

module _ (k : NamespacedName) (version : String) (m m' : Prober)
    (before : view m k ≡ some (state version false))
    (after : view m' k ≡ some (state version true)) where
  ended : Ends m m' → CallsBack k m m'
  ended (inl s) = absurd (unchanged k version (view m) (view m') before after (s k))
  ended (inr (id, r, ((at, calls), (b, a)))) = elim (key_cases k r.key) [
    | inl (e, d) ↦ absurd (
        unchanged k version (view m) (view m') before after
          (Becomes-other r.key (some (state r.version true)) (view m) (view m') a k d))
    | inr (e, q) ↦ (id, r, (ap (route_at m) q ∙ at, calls))
  ]

step-CallsBack :
    (e : Event) (k : NamespacedName) (version : String) (m : Prober)
    → IsCounted m
    → IsKeyed m
    → view m k ≡ some (state version false)
    → view (step e m) k ≡ some (state version true)
    → CallsBack k m (step e m)
step-CallsBack (works T) k version m c h b a =
    ended k version m (step (works T) m) b a (works-Ends T m c h)
step-CallsBack (notices p) k version m c h b a =
    ended k version m (step (notices p) m) b a (notices-Ends p m c h)
step-CallsBack (probes list_targets now backends) k version m c h b a =
    elim (step-Spec (probes list_targets now backends) m c h) [
      | inl (ready, (e, s)) ↦ absurd (
          unchanged k version (view m) (view (step (probes list_targets now backends) m)) b a (s k))
      | inr (inl (d, (ts, (t, n)))) ↦ absurd (
          requested k version (view m) (view (step (probes list_targets now backends) m)) b a
            backends _ d n)
      | inr (inr (d, (t, n))) ↦ absurd (
          forgotten k version (view m) (view (step (probes list_targets now backends) m)) b a
            backends.key n)
    ]
step-CallsBack (cancel_ingress key) k version m c h b a =
    elim (step-Spec (cancel_ingress key) m c h) [
      | inl s ↦ absurd (unchanged k version (view m) (view (step (cancel_ingress key) m)) b a (s k))
      | inr n ↦ absurd (forgotten k version (view m) (view (step (cancel_ingress key) m)) b a key n)
    ]
step-CallsBack (cancel_pod ip) k version m c h b a = absurd (
    unchanged k version (view m) (view (step (cancel_pod ip) m)) b a
      (step-Spec (cancel_pod ip) m c h k))
step-CallsBack (joins p) k version m c h b a =
    absurd
      (unchanged k version (view m) (view (step (joins p) m)) b a (step-Spec (joins p) m c h k))
step-CallsBack shuts_down k version m c h b a =
    absurd
      (unchanged k version (view m) (view (step shuts_down m)) b a (step-Spec shuts_down m c h k))

-- Whenever an event makes the answer for a key ready that was not, the ready callback is called in
-- this very event, once, with the callback key of the route state that the map holds for the key.
pub run-CallsBack :
    (es : List Event) (e : Event) (k : NamespacedName) (version : String)
    → view (run es new_prober) k ≡ some (state version false)
    → view (step e (run es new_prober)) k ≡ some (state version true)
    → CallsBack k (run es new_prober) (step e (run es new_prober))
run-CallsBack es e k version =
    step-CallsBack e k version (run es new_prober) (run-CountsOf es) (run-IsKeyed es)
