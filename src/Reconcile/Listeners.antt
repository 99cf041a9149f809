-- ===== src/Reconcile/Listeners.antt =====
-- The listeners of the external Gateway: `reconcileGatewayListeners` and `clearGatewayListeners`
-- of pkg/reconciler/ingress/reconcile_resources.go.
pub mod Merge
pub mod Clear
pub mod Again
use net_gateway_api.Base.{
  ℕ, zero, suc, ◌-◌, String, ◌<>◌, Bool, true, false, not, Option, none, some, List, [], ◌∷◌, ◌++◌,
  map, length, get_elem?, set, take, last?, ◌==◌, if◌then◌else◌, Error, failed, Result, ok, panic,
  ◌>>=◌ as bind,
}
use net_gateway_api.Base.Text.{◌=s◌}
use net_gateway_api.Model.Names.{NamespacedName, deep_equal}
use net_gateway_api.Model.Gateway.{Listener, Listener-discrete, GatewayObject}
use net_gateway_api.Model.Ingress.{Ingress}
use net_gateway_api.Reconcile.World.{
  Env, ◌>>=◌, ◌>>◌, return, fail, lift, record_event, get, call, warning, Lookup, found, missing,
  failure,
}
use net_gateway_api.Reconcile.Route.{ActE}

abbrev pub listener_prefix : String
listener_prefix = "kni-"

-- `lmap`, with its keys the names of the listeners.
unfoldable pub find : String → List Listener → Option Listener
unfolding ◌=s◌
find name [] = none
find name (l ∷ ls) = if l.name =s name then some l else find name ls

-- `delete(lmap, name)`
unfoldable pub remove : String → List Listener → List Listener
unfolding ◌=s◌
remove name [] = []
remove name (l ∷ ls) = let rest = remove name ls in if l.name =s name then rest else l ∷ rest

-- `for _, l := range listeners { lmap[string(l.Name)] = l }`
unfoldable pub listener_map : List Listener → List Listener → List Listener
unfolding remove
listener_map [] lmap = lmap
listener_map (l ∷ ls) lmap = listener_map ls (l ∷ remove l.name lmap)

-- What the loop over the Gateway's listeners leaves: the listeners of the update, the map and
-- whether anything changed.
pub record Merged : Type 0 where
  pub listeners : List Listener
  pub lmap : List Listener
  pub updated : Bool

-- `for i, l := range gw.Spec.Listeners`
unfoldable pub replace_loop : List Listener → List Listener → Bool → Merged
unfolding find remove Listener-discrete
replace_loop [] lmap updated = record { listeners = []; lmap = lmap; updated = updated }
replace_loop (l ∷ ls) lmap updated = elim (find l.name lmap) [
  | none ↦ let rest = replace_loop ls lmap updated in record rest { listeners = l ∷ rest.listeners }
  | some desired ↦
      let same = deep_equal Listener-discrete l desired in
      let rest = replace_loop ls (remove l.name lmap) (if same then updated else true) in
      record rest { listeners = (if same then l else desired) ∷ rest.listeners }
]

-- `for _, l := range lmap`: the remaining listeners are added.
abbrev pub is_empty : List Listener → Bool
is_empty [] = true
is_empty (l ∷ ls) = false

unfoldable pub merge_listeners : List Listener → List Listener → List Listener × Bool
unfolding replace_loop listener_map
merge_listeners existing listeners =
    let m = replace_loop existing (listener_map listeners []) false in
    (m.listeners ++ m.lmap, (if is_empty m.lmap then m.updated else true))

-- `update.Spec.Listeners[i] = last` and the cut by one.
unfoldable pub swap_remove : List Listener → ℕ → Result (List Listener)
swap_remove xs i = elim (last? xs) [
  | none ↦ panic "index out of range"
  | some last ↦ ok (take (length xs - 1) (set xs i last))
]

-- `for i := numListeners - 1; i >= 0; i--`, on the number of rounds left.
unfoldable pub clear_loop : ℕ → String → List Listener → Result (List Listener)
unfolding ◌=s◌ swap_remove
clear_loop zero name xs = ok xs
clear_loop (suc i) name xs = elim (get_elem? xs i) [
  | none ↦ panic "index out of range"
  | some l ↦ bind (if l.name =s name then swap_remove xs i else ok xs) λ ys. clear_loop i name ys
]

unfoldable pub clear_listeners : String → List Listener → Result (List Listener)
unfolding clear_loop
clear_listeners name xs = clear_loop (length xs) name xs

module _ (E : Env) where
  -- `reconcileGatewayListeners`
  unfoldable pub reconcile_gateway_listeners : List Listener → NamespacedName → ActE E (Unit {0})
  unfolding merge_listeners
  reconcile_gateway_listeners listeners name = do
    gateway ← get (E.cluster.get_gateway name.namespace name.name)
    elim gateway [
      | missing ↦
          (record_event (warning "GatewayMissing") >> fail (failed "Gateway does not exist"))
      | failure e ↦ fail e
      | found gw ↦
          let (merged, updated) = merge_listeners gw.listeners listeners in
          if updated
          then (call (E.cluster.update_gateway (record gw { listeners = merged }))
                "GatewayUpdateFailed" "failed to update Gateway"
              >>= λ _. return tt)
          else return tt
    ]

  -- `clearGatewayListeners`
  unfoldable pub clear_gateway_listeners : Ingress → NamespacedName → ActE E (Unit {0})
  unfolding clear_listeners
  clear_gateway_listeners ing name = do
    gateway ← get (E.cluster.get_gateway name.namespace name.name)
    elim gateway [
      | missing ↦ return tt
      | failure e ↦ fail e
      | found gw ↦
          (lift (clear_listeners (listener_prefix <> ing.uid) gw.listeners) >>= λ left.
          if length left == length gw.listeners
          then return tt
          else (call (E.cluster.update_gateway (record gw { listeners = left }))
                "GatewayUpdateFailed" "failed to update Gateway"
              >>= λ _. return tt))
    ]
