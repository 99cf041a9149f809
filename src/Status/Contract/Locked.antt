-- ===== src/Status/Contract/Locked.antt =====
-- The section of `DoProbes` of pkg/status/status.go under the lock, as its callers see it.
use mathlib.Core.Path.{subst}
use net_gateway_api.Base.{
  ℕ, ◌≡◌, refl, sym, ap, ◌∙◌, Bool, true, false, Option, none, some, ◌⊎◌, inl, inr, Bool-cases,
  Option-cases, not,
}
use net_gateway_api.Base.Text.{◌=s◌, =s_iff}
use net_gateway_api.Model.Names.{NamespacedName}
use net_gateway_api.Status.Types.{ProbeState, Backends}
use net_gateway_api.Status.Prober.{
  RouteState, Prober, delete, cancel_route, touch, current_state, route_at, is_probe_active,
  state_of,
}
use net_gateway_api.Status.Keys.{is_probe_active-at}
use net_gateway_api.Status.Contract.Puts.{becomes}
use net_gateway_api.Status.Contract.{outdated, view, Stays, Becomes, state, Outdated}
use net_gateway_api.Status.Contract.Views.{at-modify, modify-Stays, delete-Becomes}
use net_gateway_api.Status.Answers.{current_state-same}
use net_gateway_api.Status.Prober.{touch}

-- The section under the lock: the version is active, or it is not, and the key is forgotten.
abbrev pub Locked : Backends → Prober → Prober × Option ProbeState → Type 0
Locked b m (m', o) =
    ((ready : Bool) × ((view m b.key ≡ some (state b.version ready))
        × ((o ≡ some (state b.version ready)) × Stays (view m) (view m'))))
    ⊎ (Outdated b (view m) × ((o ≡ none) × Becomes b.key none (view m) (view m')))

view-none : (m : Prober) (k : NamespacedName) → route_at m k ≡ none → view m k ≡ none
unfolding is_probe_active
view-none m k e = rw (e, is_probe_active) refl

view-some :
    (m : Prober) (k : NamespacedName) (id : ℕ) (r : RouteState)
    → route_at m k ≡ some (id, r)
    → view m k ≡ some (state_of r)
view-some m k id r e = rw (is_probe_active-at k m id r e) refl

current_state-none :
    (now : ℕ) (b : Backends) (m : Prober)
    → route_at m b.key ≡ none
    → current_state now b m ≡ (m, none)
unfolding current_state
current_state-none now b m e = rw (e, current_state)

-- An outdated route state is cancelled and deleted.
outdated_out : Backends → ℕ → Prober → Prober
outdated_out b id m = record (cancel_route id m) { route_states = delete b.key m.route_states }

current_state-outdated :
    (now : ℕ) (b : Backends) (m : Prober) (id : ℕ) (r : RouteState)
    → route_at m b.key ≡ some (id, r)
    → (r.version =s b.version) ≡ false
    → current_state now b m ≡ (outdated_out b id m, none)
unfolding current_state outdated_out
current_state-outdated now b m id r e v = rw (e, current_state, v)

same_version :
    (r : RouteState) (b : Backends)
    → (r.version =s b.version) ≡ true
    → state_of r ≡ state b.version (state_of r).ready
same_version r b v = ap (λ w. state w (state_of r).ready) ((=s_iff r.version b.version).0 v)

active-Locked :
    (now : ℕ) (b : Backends) (m : Prober) (id : ℕ) (r : RouteState)
    → route_at m b.key ≡ some (id, r)
    → (r.version =s b.version) ≡ true
    → Locked b m (touch now id m, some (state_of r))
unfolding touch
active-Locked now b m id r e v = inl (
  (state_of r).ready,
  (
    view-some m b.key id r e ∙ ap some (same_version r b v),
    (
      ap some (same_version r b v),
      modify-Stays m id (λ r. record r { last_accessed = now }) (λ s g. refl),
    ),
  ),
)

outdated-Locked :
    (b : Backends) (m : Prober) (id : ℕ) (r : RouteState)
    → route_at m b.key ≡ some (id, r)
    → (r.version =s b.version) ≡ false
    → Locked b m (outdated_out b id m, none)
unfolding outdated_out cancel_route
outdated-Locked b m id r e v = inr (
  ap (outdated b) (view-some m b.key id r e) ∙ ap not v,
  (
    refl,
    delete-Becomes m (outdated_out b id m) b.key
        (at-modify m.routes id (λ r. record r { cancelled = true }) (λ r g. refl)) refl,
  ),
)

pub current_state-Locked :
    (now : ℕ) (b : Backends) (m : Prober) → Locked b m (current_state now b m)
current_state-Locked now b m = elim (Option-cases (route_at m b.key)) [
  | inl e ↦ subst (Locked b m) (sym (current_state-none now b m e)) (
      inr (
        ap (outdated b) (view-none m b.key e),
        (refl, becomes b.key none (view m) (view m) (view-none m b.key e) (λ k d. refl)),
      ))
  | inr ((id, r), e) ↦ elim (Bool-cases (r.version =s b.version)) [
    | inl v ↦
        subst (Locked b m) (sym (current_state-same now b m id r e v))
          (active-Locked now b m id r e v)
    | inr v ↦
        subst (Locked b m) (sym (current_state-outdated now b m id r e v))
          (outdated-Locked b m id r e v)
  ]
]
