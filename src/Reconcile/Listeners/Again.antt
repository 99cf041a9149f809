-- ===== src/Reconcile/Listeners/Again.antt =====
-- A second `reconcileGatewayListeners` after the first one.
use mathlib.Core.Option.{some-injective}
use mathlib.Core.Path.{subst}
use net_gateway_api.Base.{
  String, ◌≡◌, refl, sym, ap, ◌∙◌, Bool, true, false, none, some, List, [], ◌∷◌, ◌++◌, arith,
  if◌then◌else◌, inl, inr, Bool-cases, Option-cases,
}
use net_gateway_api.Base.Text.{◌=s◌, =s_iff}
use net_gateway_api.Model.Names.{deep_equal, deep_equal_iff}
use net_gateway_api.Model.Gateway.{Listener, Listener-discrete}
use net_gateway_api.Reconcile.Listeners.{
  find, remove, listener_map, Merged, replace_loop, merge_listeners, is_empty,
}

-- No two listeners have one name.
abbrev Distinct : List Listener → Type 0
Distinct [] = Unit
Distinct (l ∷ ls) = (find l.name ls ≡ none) × Distinct ls

find-name :
    (name : String) (ls : List Listener) (d : Listener) → find name ls ≡ some d → d.name ≡ name
unfolding find
find-name name [] d h = cc h
find-name name (l ∷ ls) d h = elim (Bool-cases (l.name =s name)) [
  | inl e ↦ ap (λ l. l.name) (sym (some-injective l d (first l e h))) ∙ (=s_iff l.name name).0 e
  | inr e ↦ find-name name ls d (rest l e h)
]
  where
    first :
        (l : Listener)
        → (l.name =s name) ≡ true
        → (if l.name =s name then some l else find name ls) ≡ some d
        → some l ≡ some d
    first l e h = ground (arith, e, h)

    rest :
        (l : Listener)
        → (l.name =s name) ≡ false
        → (if l.name =s name then some l else find name ls) ≡ some d
        → find name ls ≡ some d
    rest l e h = ground (arith, e, h)

-- A name that does not stand in a list.
remove-absent : (name : String) (ls : List Listener) → find name ls ≡ none → remove name ls ≡ ls
unfolding find remove
remove-absent name [] h = refl
remove-absent name (l ∷ ls) h = ground (arith, h, remove-absent name ls)

find-remove-none :
    (name other : String) (ls : List Listener)
    → find name ls ≡ none
    → find name (remove other ls) ≡ none
unfolding find remove
find-remove-none name other [] h = refl
find-remove-none name other (l ∷ ls) h = ground (arith, h, find-remove-none name other ls)

remove-Distinct : (name : String) (ls : List Listener) → Distinct ls → Distinct (remove name ls)
unfolding remove
remove-Distinct name [] h = tt
remove-Distinct name (l ∷ ls) (d, h) = elim (Bool-cases (l.name =s name)) [
  | inl e ↦ rw e (remove-Distinct name ls h)
  | inr e ↦ rw e (find-remove-none l.name name ls d, remove-Distinct name ls h)
]

find-remove_own : (name : String) (ls : List Listener) → find name (remove name ls) ≡ none
unfolding find remove
find-remove_own name [] = refl
find-remove_own name (l ∷ ls) = ground (arith, find-remove_own name ls)

listener_map-Distinct : (ls lmap : List Listener) → Distinct lmap → Distinct (listener_map ls lmap)
unfolding listener_map
listener_map-Distinct [] lmap h = h
listener_map-Distinct (l ∷ ls) lmap h =
    listener_map-Distinct ls (l ∷ remove l.name lmap)
      (find-remove_own l.name lmap, remove-Distinct l.name lmap h)

abbrev unchanged : List Listener → Merged
unchanged ls = record { listeners = ls; lmap = []; updated = false }

-- A round of the loop for a listener that is as desired.
replace_loop-same :
    (d : Listener) (ls lmap : List Listener)
    → find d.name lmap ≡ some d
    → replace_loop (d ∷ ls) lmap false ≡ record (replace_loop ls (remove d.name lmap) false) {
      listeners = d ∷ (replace_loop ls (remove d.name lmap) false).listeners;
    }
unfolding replace_loop
replace_loop-same d ls lmap h =
    rw (h, replace_loop, (deep_equal_iff Listener-discrete d d).1 refl) refl

replace_loop-foreign :
    (l : Listener) (ls lmap : List Listener) (updated : Bool)
    → find l.name lmap ≡ none
    → replace_loop (l ∷ ls) lmap updated ≡ record (replace_loop ls lmap updated) {
      listeners = l ∷ (replace_loop ls lmap updated).listeners;
    }
unfolding replace_loop
replace_loop-foreign l ls lmap updated h = rw (h, replace_loop) refl

abbrev changed : Listener → Listener → Bool → Bool
changed l d updated = if deep_equal Listener-discrete l d then updated else true

replace_loop-found :
    (l d : Listener) (ls lmap : List Listener) (updated : Bool)
    → find l.name lmap ≡ some d
    → replace_loop (l ∷ ls) lmap updated
      ≡ record (replace_loop ls (remove l.name lmap) (changed l d updated)) {
        listeners = d ∷ (replace_loop ls (remove l.name lmap) (changed l d updated)).listeners;
      }
unfolding replace_loop
replace_loop-found l d ls lmap updated h = elim (Bool-cases (deep_equal Listener-discrete l d)) [
  | inl e ↦
      rw (h, replace_loop, e)
        (ap
          (λ x. record (replace_loop ls (remove l.name lmap) updated) {
            listeners = x ∷ (replace_loop ls (remove l.name lmap) updated).listeners;
          })
          ((deep_equal_iff Listener-discrete l d).0 e))
  | inr e ↦ rw (h, replace_loop, e) refl
]

find-head : (l : Listener) (ls : List Listener) → find l.name (l ∷ ls) ≡ some l
unfolding find
find-head l ls = rw ((=s_iff l.name l.name).1 refl) refl

remove-head : (l : Listener) (ls : List Listener) → remove l.name (l ∷ ls) ≡ remove l.name ls
unfolding remove
remove-head l ls = rw ((=s_iff l.name l.name).1 refl) refl

append_nil : (ls : List Listener) → ls ++ [] ≡ ls
append_nil [] = refl
append_nil (l ∷ ls) = ap (λ ls. l ∷ ls) (append_nil ls)

-- The loop over the listeners of the map itself.
replace_loop_self :
    (lmap : List Listener) → Distinct lmap → replace_loop lmap lmap false ≡ unchanged lmap
unfolding replace_loop
replace_loop_self [] h = refl
replace_loop_self (l ∷ ls) (d, h) =
    replace_loop-same l ls (l ∷ ls) (find-head l ls)
    ∙ ap (λ (m : Merged). record m { listeners = l ∷ m.listeners })
        (ap (λ lmap. replace_loop ls lmap false) (remove-head l ls ∙ remove-absent l.name ls d)
          ∙ replace_loop_self ls h)

abbrev result : Merged → List Listener
result m = m.listeners ++ m.lmap

-- The loop over what a first loop leaves.
replace_loop-again :
    (ls lmap : List Listener) (updated : Bool)
    → Distinct lmap
    → replace_loop (result (replace_loop ls lmap updated)) lmap false
      ≡ unchanged (result (replace_loop ls lmap updated))
unfolding replace_loop
replace_loop-again [] lmap updated h = replace_loop_self lmap h
replace_loop-again (l ∷ ls) lmap updated h = elim (Option-cases (find l.name lmap)) [
  | inl e ↦
      let rest : Merged = replace_loop ls lmap updated in
      subst (λ m. replace_loop (result m) lmap false ≡ unchanged (result m))
        (sym (replace_loop-foreign l ls lmap updated e))
        (replace_loop-foreign l (result rest) lmap false e
          ∙ ap (λ (m : Merged). record m { listeners = l ∷ m.listeners })
              (replace_loop-again ls lmap updated h))
  | inr (d, e) ↦
      let rest : Merged = replace_loop ls (remove l.name lmap) (changed l d updated) in
      let n : d.name ≡ l.name = find-name l.name lmap d e in
      subst (λ m. replace_loop (result m) lmap false ≡ unchanged (result m))
        (sym (replace_loop-found l d ls lmap updated e))
        (replace_loop-same d (result rest) lmap (ap (λ name. find name lmap) n ∙ e)
          ∙ ap (λ (m : Merged). record m { listeners = d ∷ m.listeners })
              (ap (λ name. replace_loop (result rest) (remove name lmap) false) n
                ∙ replace_loop-again ls (remove l.name lmap) (changed l d updated)
                    (remove-Distinct l.name lmap h)))
]

-- Where the Gateway has the listeners that a first update wrote, a second one for the same desired
-- listeners changes nothing, and is not sent.
pub merge_listeners-again :
    (existing desired : List Listener)
    → merge_listeners (merge_listeners existing desired).0 desired
      ≡ ((merge_listeners existing desired).0, false)
unfolding merge_listeners
merge_listeners-again existing desired =
    let lmap : List Listener = listener_map desired [] in
    let m : Merged = replace_loop existing lmap false in
    ap (λ m. (m.listeners ++ m.lmap, (if is_empty m.lmap then m.updated else true)))
      (replace_loop-again existing lmap false (listener_map-Distinct desired [] tt))
    ∙ ap (λ ls. (ls, false)) (append_nil (result m))
