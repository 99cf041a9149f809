-- ===== src/Status/Contract/Views.antt =====
-- How writes to the route states and their map show in the answers of `IsProbeActive`.
use net_gateway_api.Base.{
  ℕ, zero, suc, ◌≡◌, ◌≢◌, refl, sym, ap, ◌∙◌, Option, none, some, List, [], ◌∷◌, get_elem?, inl,
  inr, Bool-cases, Option-cases,
}
use net_gateway_api.Model.Names.{NamespacedName, NamespacedName-discrete, deep_equal}
use net_gateway_api.Status.Types.{ProbeState}
use net_gateway_api.Status.Prober.{
  RouteState, Prober, modify, lookup, delete, is_probe_active, route_at, state_of,
}
use net_gateway_api.Status.Contract.Puts.{becomes}
use net_gateway_api.Status.Contract.{view, Stays, Becomes}
use net_gateway_api.Status.Store.{lookup-delete}

-- The state of an optional route state, and of one that the map names.
abbrev pub shown : Option RouteState → Option ProbeState
shown none = none
shown (some r) = some (state_of r)

abbrev pub at : List RouteState → Option ℕ → Option ProbeState
at rs none = none
at rs (some id) = shown (get_elem? rs id)

pub view-at : (m : Prober) (k : NamespacedName) → view m k ≡ at m.routes (lookup k m.route_states)
unfolding is_probe_active route_at
view-at m k = elim (Option-cases (lookup k m.route_states)) [
  | inl e ↦ rw (e, is_probe_active) refl
  | inr (id, e) ↦ elim (Option-cases (get_elem? m.routes id)) [
    | inl g ↦ rw (e, g, is_probe_active) refl
    | inr (r, g) ↦ rw (e, g, is_probe_active) refl
  ]
]

-- A write that leaves the answer for its route state.
pub shown-modify :
    (rs : List RouteState) (i : ℕ) (f : RouteState → RouteState)
    → ((r : RouteState) → get_elem? rs i ≡ some r → state_of (f r) ≡ state_of r)
    → (id : ℕ) → shown (get_elem? (modify rs i f) id) ≡ shown (get_elem? rs id)
unfolding modify
shown-modify [] i f e id = refl
shown-modify (r ∷ rs) zero f e zero = ap some (e r refl)
shown-modify (r ∷ rs) zero f e (suc id) = refl
shown-modify (r ∷ rs) (suc i) f e zero = refl
shown-modify (r ∷ rs) (suc i) f e (suc id) = shown-modify rs i f e id

pub at-modify :
    (rs : List RouteState) (i : ℕ) (f : RouteState → RouteState)
    → ((r : RouteState) → get_elem? rs i ≡ some r → state_of (f r) ≡ state_of r)
    → (o : Option ℕ) → at (modify rs i f) o ≡ at rs o
at-modify rs i f e none = refl
at-modify rs i f e (some id) = shown-modify rs i f e id

pub modify-Stays :
    (m : Prober) (i : ℕ) (f : RouteState → RouteState)
    → ((r : RouteState) → get_elem? m.routes i ≡ some r → state_of (f r) ≡ state_of r)
    → Stays (view m) (view (record m { routes = modify m.routes i f }))
modify-Stays m i f e k =
    view-at (record m { routes = modify m.routes i f }) k
    ∙ at-modify m.routes i f e (lookup k m.route_states)
    ∙ sym (view-at m k)

-- A prober with the same route states and map.
pub same-Stays :
    (m m' : Prober)
    → m'.routes ≡ m.routes
    → m'.route_states ≡ m.route_states
    → Stays (view m) (view m')
same-Stays m m' e f k = view-at m' k ∙ rw (e, f) (sym (view-at m k))

pub lookup-delete_own :
    (k : NamespacedName) (es : List (NamespacedName × ℕ)) → lookup k (delete k es) ≡ none
unfolding lookup delete
lookup-delete_own k [] = refl
lookup-delete_own k ((j, id) ∷ es) = elim (Bool-cases (deep_equal NamespacedName-discrete j k)) [
  | inl e ↦ rw (e, lookup-delete_own k es) refl
  | inr e ↦ rw e (rw e (lookup-delete_own k es))
]

-- A key that is deleted from the map, where writes leave the answers.
pub delete-Becomes :
    (m m' : Prober) (key : NamespacedName)
    → ((o : Option ℕ) → at m'.routes o ≡ at m.routes o)
    → m'.route_states ≡ delete key m.route_states
    → Becomes key none (view m) (view m')
delete-Becomes m m' key e f = becomes key none (view m) (view m') gone (λ k d. others k d)
  where
    gone : view m' key ≡ none
    gone = view-at m' key ∙ rw (f, lookup-delete_own key m.route_states) refl

    others : (k : NamespacedName) → k ≢ key → view m' k ≡ view m k
    others k d =
        view-at m' k
        ∙ e (lookup k m'.route_states)
        ∙ rw (f, lookup-delete k key m.route_states d) (sym (view-at m k))
