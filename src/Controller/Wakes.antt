-- ===== src/Controller/Wakes.antt =====
-- The ready callback that pkg/reconciler/ingress/controller.go gives to the prober.
use mathlib.Core.Path.{subst}
use net_gateway_api.Base.{
  ℕ, String, ◌≡◌, refl, sym, ap, ◌∙◌, true, false, some, List, [], ◌∷◌, ◌++◌, map, length,
}
use net_gateway_api.Model.Names.{NamespacedName}
use net_gateway_api.Status.Prober.{RouteState, new_prober, route_at}
use net_gateway_api.Status.Events.{Event, step, run}
use net_gateway_api.Status.Contract.{view, state}
use net_gateway_api.Status.Contract.Announce.{CallsBack, run-CallsBack}
use net_gateway_api.Controller.{Controller, drop, keys_after, probed}

drop-append : {A : Type 0} (xs ys : List A) → drop (length xs) (xs ++ ys) ≡ ys
unfolding drop
drop-append [] ys = refl
drop-append (x ∷ xs) ys = drop-append xs ys

pub probed-prober : (e : Event) (c : Controller) → (probed e c).prober ≡ step e c.prober
unfolding probed
probed-prober e c = refl

-- One new callback puts its key on the queue.
probed-callback :
    (e : Event) (c : Controller) (id : ℕ) (key : NamespacedName)
    → (step e c.prober).callbacks ≡ c.prober.callbacks ++ ((id, key) ∷ [])
    → (probed e c).queue ≡ c.queue ++ (key ∷ [])
unfolding probed keys_after
probed-callback e c id key h =
    ap (λ cs. c.queue ++ map (λ (id, key). key) cs)
      (ap (drop (length c.prober.callbacks)) h ∙ drop-append c.prober.callbacks ((id, key) ∷ []))

-- Whenever an event makes the prober's answer for a key ready that was not, the controller's queue
-- gets, in the same event, the callback key of the route state under this key and nothing else.
pub probed-ready :
    (es : List Event) (e : Event) (k : NamespacedName) (version : String) (c : Controller)
    → c.prober ≡ run es new_prober
    → view c.prober k ≡ some (state version false)
    → view (probed e c).prober k ≡ some (state version true)
    → (id : ℕ) × (r : RouteState) × ((route_at c.prober k ≡ some (id, r))
        × ((probed e c).queue ≡ c.queue ++ (r.callback_key ∷ [])))
probed-ready es e k version c q before after =
    let (id, r, (at, calls)) =
      subst
        (λ m.
          view m k ≡ some (state version false)
          → view (step e m) k ≡ some (state version true)
          → CallsBack k m (step e m))
        (sym q) (run-CallsBack es e k version) before
        (sym (ap (λ m. view m k) (probed-prober e c)) ∙ after) in
    (id, r, (at, probed-callback e c id r.callback_key calls))
