-- ===== src/Reconcile/Listeners/Merge.antt =====
-- What `reconcileGatewayListeners` writes to the Gateway: a map of listeners by name, overlaid.
use net_gateway_api.Base.{
  String, ◌≡◌, refl, ap, ◌∙◌, Bool, true, false, not, Option, none, some, List, [], ◌∷◌, ◌++◌, any,
  All, keep, arith, Option-cases, inl, inr, if◌then◌else◌,
}
use net_gateway_api.Base.Text.{◌=s◌, =s_iff, =s_refl}
use net_gateway_api.Model.Names.{deep_equal, deep_equal_iff}
use net_gateway_api.Model.Gateway.{Listener, Listener-discrete}
use net_gateway_api.Reconcile.Listeners.{
  find, remove, listener_map, Merged, replace_loop, merge_listeners,
}

-- `or_else` that computes.
abbrev pub overlay : Option Listener → Option Listener → Option Listener
overlay none o = o
overlay (some l) o = some l

-- The last listener of a name.
unfoldable pub find_last : String → List Listener → Option Listener
find_last name [] = none
find_last name (l ∷ ls) = overlay (find_last name ls) (if l.name =s name then some l else none)

find-append :
    (n : String) (xs ys : List Listener) → find n (xs ++ ys) ≡ overlay (find n xs) (find n ys)
unfolding find
find-append n [] ys = refl
find-append n (x ∷ xs) ys = ground (arith, find-append n xs ys)

find-remove :
    (n m : String) (ls : List Listener)
    → find n (remove m ls) ≡ (if n =s m then none else find n ls)
unfolding find remove
find-remove n m [] = ground arith
find-remove n m (l ∷ ls) =
    ground (arith, find-remove n m ls, =s_iff l.name n, =s_iff l.name m, =s_iff n m)

find-name : (n : String) (ls : List Listener) (d : Listener) → find n ls ≡ some d → d.name ≡ n
unfolding find
find-name n [] d h = cc
find-name n (l ∷ ls) d h = ground (arith, find-name n ls d, =s_iff l.name n)

find-listener_map :
    (n : String) (ls lmap : List Listener)
    → find n (listener_map ls lmap) ≡ overlay (find_last n ls) (find n lmap)
unfolding listener_map find_last
find-listener_map n [] lmap = refl
find-listener_map n (l ∷ ls) lmap =
    find-listener_map n ls (l ∷ remove l.name lmap)
    ∙ unfold find in ground (arith, find-remove n l.name lmap, =s_iff l.name n, =s_iff n l.name)

abbrev result : Merged → List Listener
result m = m.listeners ++ m.lmap

-- The listener in the place of one that the map has a desired listener for.
chosen : (l d : Listener) → (if deep_equal Listener-discrete l d then l else d) ≡ d
chosen l d = ground (arith, deep_equal_iff Listener-discrete l d)

find-replace_loop :
    (n : String) (ls lmap : List Listener) (u : Bool)
    → find n (result (replace_loop ls lmap u)) ≡ overlay (find n lmap) (find n ls)
unfolding replace_loop find
find-replace_loop n [] lmap u = ground arith
find-replace_loop n (l ∷ ls) lmap u = elim (Option-cases (find l.name lmap)) [
  | inl e ↦ rw (e, replace_loop) (ground (arith, find-replace_loop n ls lmap u, =s_iff l.name n))
  | inr (d, e) ↦
      let u' : Bool = if deep_equal Listener-discrete l d then u else true in
      rw (e, replace_loop)
        (rw (chosen l d) (
          ground (
            arith,
            find-replace_loop n ls (remove l.name lmap) u',
            find-remove n l.name lmap,
            find-name l.name lmap d e,
            =s_iff l.name n,
            =s_iff n l.name,
            =s_iff d.name n,
          )))
]

overlay-none : (o : Option Listener) → overlay o none ≡ o
overlay-none none = refl
overlay-none (some l) = refl

-- After the merge, looking a name up gives the last desired listener of that name, and where none
-- has it, what the Gateway had.
pub find-merge_listeners :
    (n : String) (existing listeners : List Listener)
    → find n (merge_listeners existing listeners).0
      ≡ overlay (find_last n listeners) (find n existing)
unfolding merge_listeners
find-merge_listeners n existing listeners =
    find-replace_loop n existing (listener_map listeners []) false
    ∙ ap (λ o. overlay o (find n existing))
        (find-listener_map n listeners [] ∙ overlay-none (find_last n listeners))

-- Listeners whose names are all taken from the test.
abbrev Named : (String → Bool) → List Listener → Type 0
Named p = All (λ l. p l.name ≡ false)

keep_none : (p : String → Bool) (ls : List Listener) → Named p ls → keep (λ l. p l.name) ls ≡ []
keep_none p [] h = refl
keep_none p (l ∷ ls) (h, hs) = rw (h, keep_none p ls hs)

remove-Named :
    (p : String → Bool) (n : String) (ls : List Listener) → Named p ls → Named p (remove n ls)
unfolding remove
remove-Named p n [] h = tt
remove-Named p n (l ∷ ls) (h, hs) = ground (arith, remove-Named p n ls hs)

find-Named :
    (p : String → Bool) (n : String) (ls : List Listener) (d : Listener)
    → Named p ls
    → find n ls ≡ some d
    → p d.name ≡ false
unfolding find
find-Named p n [] d h e = cc
find-Named p n (l ∷ ls) d (h, hs) e = ground (arith, find-Named p n ls d hs)

keep-replace_loop :
    (p : String → Bool) (ls lmap : List Listener) (u : Bool)
    → Named p lmap
    → keep (λ l. p l.name) (result (replace_loop ls lmap u)) ≡ keep (λ l. p l.name) ls
unfolding replace_loop
keep-replace_loop p [] lmap u h = keep_none p lmap h
keep-replace_loop p (l ∷ ls) lmap u h = elim (Option-cases (find l.name lmap)) [
  | inl e ↦ rw (e, replace_loop) (ground (arith, keep-replace_loop p ls lmap u h))
  | inr (d, e) ↦
      let u' : Bool = if deep_equal Listener-discrete l d then u else true in
      rw (e, replace_loop)
        (rw (chosen l d) (
          ground (
            arith,
            keep-replace_loop p ls (remove l.name lmap) u' (remove-Named p l.name lmap h),
            find-name l.name lmap d e,
            find-Named p l.name lmap d h e,
          )))
]

listener_map-Named :
    (p : String → Bool) (ls lmap : List Listener)
    → Named p ls
    → Named p lmap
    → Named p (listener_map ls lmap)
unfolding listener_map
listener_map-Named p [] lmap h k = k
listener_map-Named p (l ∷ ls) lmap (h, hs) k =
    listener_map-Named p ls (l ∷ remove l.name lmap) hs (h, remove-Named p l.name lmap k)

-- A name that no desired listener has.
abbrev pub is_foreign : List Listener → String → Bool
is_foreign listeners n = not (any (λ d. d.name =s n) listeners)

weaken_Named :
    (d : Listener) (ds ls : List Listener)
    → Named (is_foreign ds) ls
    → Named (is_foreign (d ∷ ds)) ls
weaken_Named d ds [] h = tt
weaken_Named d ds (l ∷ ls) (h, hs) = (ground (arith, h), weaken_Named d ds ls hs)

own-Named : (listeners : List Listener) → Named (is_foreign listeners) listeners
own-Named [] = tt
own-Named (d ∷ ds) = (ground (arith, =s_refl d.name), weaken_Named d ds ds (own-Named ds))

-- The merge leaves the listeners of other names alone: they stay as they are and in their order.
pub keep-merge_listeners :
    (existing listeners : List Listener)
    → keep (λ l. is_foreign listeners l.name) (merge_listeners existing listeners).0
      ≡ keep (λ l. is_foreign listeners l.name) existing
unfolding merge_listeners
keep-merge_listeners existing listeners =
    keep-replace_loop (is_foreign listeners) existing (listener_map listeners []) false
      (listener_map-Named (is_foreign listeners) listeners [] (own-Named listeners) tt)
