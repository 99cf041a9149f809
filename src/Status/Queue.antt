-- ===== src/Status/Queue.antt =====
-- The work queue of pkg/status/status.go: which items it holds for each pod state.
pub mod Pods
pub mod Work
pub mod Steps
pub mod Drain
pub mod Idle
pub mod Settle
pub mod Open
pub mod Asked
use net_gateway_api.Base.{
  ℕ, zero, suc, ◌+◌, ◌≡◌, refl, sym, ap, ◌∙◌, Bool, true, false, ◌||◌, Option, none, some, List, [],
  ◌∷◌, ◌++◌, get_elem?, ◌==◌, if◌then◌else◌, arith, inl, inr, Bool-cases, Option-cases,
}
use net_gateway_api.Base.Int.{ℤ, pos}
use net_gateway_api.Status.Prober.{RouteState, PodState, WorkItem, Prober, modify}
use net_gateway_api.Status.Events.{route_cancelled, pod_done}
use net_gateway_api.Status.Store.{over, get_elem?-modify}

-- The items of a pod state.
abbrev pub items_of : ℕ → List WorkItem → ℕ
items_of p [] = 0
items_of p (item ∷ items) = (if item.pod == p then 1 else 0) + items_of p items

pub items_of-append :
    (p : ℕ) (xs ys : List WorkItem) → items_of p (xs ++ ys) ≡ items_of p xs + items_of p ys
items_of-append p [] ys = omega arith
items_of-append p (x ∷ xs) ys = omega (arith, items_of-append p xs ys)

-- A pod state that is not done counts its items in the queue, where `done` tells of each route
-- state whether it is cancelled.
abbrev pub Counts : (ℕ → Bool) → Option PodState → ℕ → Type 0
Counts done none n = n ≡ 0
Counts done (some pod) n = (pod.cancelled || done pod.route) ≡ false → pod.pending_count ≡ pos n

abbrev pub cancelled_in : List RouteState → ℕ → Bool
cancelled_in rs id = elim (get_elem? rs id) [ none ↦ false | some r ↦ r.cancelled ]

abbrev pub QueuedAt : Prober → ℕ → Type 0
QueuedAt m p = Counts (cancelled_in m.routes) (get_elem? m.pods p) (items_of p m.work_queue)

abbrev pub IsQueued : Prober → Type 0
IsQueued m = m.shut_down ≡ false → (p : ℕ) → QueuedAt m p

-- More route states may be cancelled.
pub Counts-weaken :
    (done done' : ℕ → Bool)
    → ((id : ℕ) → done id ≡ true → done' id ≡ true)
    → (o : Option PodState) (n : ℕ) → Counts done o n
    → Counts done' o n
Counts-weaken done done' w none n h = h
Counts-weaken done done' w (some pod) n h = λ e. h (ground (arith, w pod.route, e))

pub cancelled_in-modify :
    (rs : List RouteState) (i : ℕ) (f : RouteState → RouteState)
    → ((r : RouteState) → r.cancelled ≡ true → (f r).cancelled ≡ true)
    → (id : ℕ) → cancelled_in rs id ≡ true
    → cancelled_in (modify rs i f) id ≡ true
unfolding modify
cancelled_in-modify [] i f w id h = h
cancelled_in-modify (r ∷ rs) zero f w zero h = w r h
cancelled_in-modify (r ∷ rs) zero f w (suc id) h = h
cancelled_in-modify (r ∷ rs) (suc i) f w zero h = h
cancelled_in-modify (r ∷ rs) (suc i) f w (suc id) h = cancelled_in-modify rs i f w id h

pub cancelled_in-append :
    (rs ss : List RouteState) (id : ℕ)
    → cancelled_in rs id ≡ true
    → cancelled_in (rs ++ ss) id ≡ true
cancelled_in-append [] ss id h = cc
cancelled_in-append (r ∷ rs) ss zero h = h
cancelled_in-append (r ∷ rs) ss (suc id) h = cancelled_in-append rs ss id h

-- A change of the route states that uncancels none.
pub routes-IsQueued :
    (m : Prober) (rs : List RouteState)
    → ((id : ℕ) → cancelled_in m.routes id ≡ true → cancelled_in rs id ≡ true)
    → IsQueued m
    → IsQueued (record m { routes = rs })
routes-IsQueued m rs w h s p =
    Counts-weaken (cancelled_in m.routes) (cancelled_in rs) w (get_elem? m.pods p)
      (items_of p m.work_queue) (h s p)

-- A write to a route state that leaves it cancelled if it is.
pub modify_routes-IsQueued :
    (m : Prober) (i : ℕ) (f : RouteState → RouteState)
    → ((r : RouteState) → r.cancelled ≡ true → (f r).cancelled ≡ true)
    → IsQueued m
    → IsQueued (record m { routes = modify m.routes i f })
modify_routes-IsQueued m i f w =
    routes-IsQueued m (modify m.routes i f) (cancelled_in-modify m.routes i f w)

over-Counts :
    (done : ℕ → Bool) (f : PodState → PodState)
    → ((pod : PodState) → (f pod).cancelled ≡ true)
    → (o : Option PodState) (n : ℕ) → Counts done o n
    → Counts done (over f o) n
over-Counts done f w none n h = h
over-Counts done f w (some pod) n h =
    λ e. absurd (never (f pod).cancelled (done (f pod).route) (w pod) e)
  where
    never : (a b : Bool) → a ≡ true → (a || b) ≡ false → ⊥
    never a b t e = ground (arith, t, e)

-- A write to a pod state that cancels it.
pub cancel_pods-IsQueued :
    (m : Prober) (i : ℕ) (f : PodState → PodState)
    → ((pod : PodState) → (f pod).cancelled ≡ true)
    → IsQueued m
    → IsQueued (record m { pods = modify m.pods i f })
cancel_pods-IsQueued m i f w h s p =
    let o = get_elem? m.pods p in
    rw (get_elem?-modify m.pods i p f)
      (ground (arith, h s p, over-Counts (cancelled_in m.routes) f w o (items_of p m.work_queue)))

pub pod_done-at :
    (p : ℕ) (m : Prober) (pod : PodState)
    → get_elem? m.pods p ≡ some pod
    → pod_done p m ≡ (pod.cancelled || cancelled_in m.routes pod.route)
unfolding pod_done route_cancelled
pod_done-at p m pod e = rw (e, pod_done) refl
