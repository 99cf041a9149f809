-- ===== src/Status/Prober.antt =====
-- The `Prober` of pkg/status/status.go. Pointers are indices into lists that only grow: route
-- states, pod states, and the contexts of pod IPs. A context is the flag that it is cancelled; the
-- context of a pod is done if its own flag or its route's is set, and the goroutine that joins it
-- to the context of its IP is the event `join`.
use net_gateway_api.Base.{
  ℕ, zero, suc, String, Bool, true, false, Option, none, some, List, [], ◌∷◌, ◌++◌, length,
  get_elem?, ◌==◌, if◌then◌else◌, Result, ok, err, panic,
}
use net_gateway_api.Base.Text.{◌=s◌}
use net_gateway_api.Base.Int.{ℤ, pos, is_zero}
use net_gateway_api.Model.Names.{NamespacedName, NamespacedName-discrete, deep_equal}
use net_gateway_api.Status.Types.{Url, ProbeTarget, ProbeState, Backends}

pub record RouteState : Type 0 where
  pub version : String
  pub key : NamespacedName
  pub callback_key : NamespacedName
  pub pending_count : ℤ
  pub last_accessed : ℕ
  pub cancelled : Bool

pub record PodState : Type 0 where
  -- the route state that its work items point to, and the context of its IP
  pub route : ℕ
  pub ip_context : ℕ
  pub pending_count : ℤ
  pub cancelled : Bool

pub record WorkItem : Type 0 where
  pub route : ℕ
  pub pod : ℕ
  pub url : Url
  pub pod_ip : String
  pub pod_port : String

pub record Prober : Type 0 where
  pub routes : List RouteState
  pub pods : List PodState
  pub contexts : List Bool
  pub route_states : List (NamespacedName × ℕ)
  pub pod_contexts : List (String × ℕ)
  pub work_queue : List WorkItem
  pub shut_down : Bool
  -- each call of `readyCallback`, with the route state that it is made for
  pub callbacks : List (ℕ × NamespacedName)

-- `NewProber`
unfoldable pub new_prober : Prober
new_prober = record {
  routes = [];
  pods = [];
  contexts = [];
  route_states = [];
  pod_contexts = [];
  work_queue = [];
  shut_down = false;
  callbacks = [];
}

module _ {ℓ} {A : Type ℓ} where
  -- A write through a pointer.
  unfoldable pub modify : List A → ℕ → (A → A) → List A
  modify [] i f = []
  modify (x ∷ xs) zero f = f x ∷ xs
  modify (x ∷ xs) (suc i) f = x ∷ modify xs i f

module _ {ℓ} {V : Type ℓ} where
  unfoldable pub lookup : NamespacedName → List (NamespacedName × V) → Option V
  unfolding NamespacedName-discrete
  lookup k [] = none
  lookup k ((j, v) ∷ m) = if deep_equal NamespacedName-discrete j k then some v else lookup k m

  unfoldable pub delete : NamespacedName → List (NamespacedName × V) → List (NamespacedName × V)
  unfolding NamespacedName-discrete
  delete k [] = []
  delete k ((j, v) ∷ m) =
      let rest = delete k m in
      if deep_equal NamespacedName-discrete j k then rest else (j, v) ∷ rest

  unfoldable pub lookup_ip : String → List (String × V) → Option V
  unfolding ◌=s◌
  lookup_ip k [] = none
  lookup_ip k ((j, v) ∷ m) = if j =s k then some v else lookup_ip k m

  unfoldable pub delete_ip : String → List (String × V) → List (String × V)
  unfolding ◌=s◌
  delete_ip k [] = []
  delete_ip k ((j, v) ∷ m) = let rest = delete_ip k m in if j =s k then rest else (j, v) ∷ rest

-- The route state that the map holds for a key.
unfoldable pub route_at : Prober → NamespacedName → Option (ℕ × RouteState)
unfolding lookup
route_at m key = elim (lookup key m.route_states) [
  | none ↦ none
  | some id ↦ elim (get_elem? m.routes id) [ none ↦ none | some r ↦ some (id, r) ]
]

abbrev pub state_of : RouteState → ProbeState
state_of r = record { version = r.version; ready = is_zero r.pending_count }

-- `IsProbeActive`
unfoldable pub is_probe_active : NamespacedName → Prober → ProbeState × Bool
unfolding route_at
is_probe_active key m = elim (route_at m key) [
  | none ↦ (record { version = ""; ready = false }, false)
  | some (id, r) ↦ (state_of r, true)
]

-- `routeState.cancel()`
unfoldable pub cancel_route : ℕ → Prober → Prober
unfolding modify
cancel_route id m = record m { routes = modify m.routes id (λ r. record r { cancelled = true }) }

-- `state.lastAccessed = time.Now()`
unfoldable pub touch : ℕ → ℕ → Prober → Prober
unfolding modify
touch now id m = record m { routes = modify m.routes id (λ r. record r { last_accessed = now }) }

-- The section of `DoProbes` under the lock: the current state where the version is the same, and
-- otherwise the outdated one is cancelled.
unfoldable pub current_state : ℕ → Backends → Prober → Prober × Option ProbeState
unfolding route_at cancel_route touch delete ◌=s◌
current_state now b m = elim (route_at m b.key) [
  | none ↦ (m, none)
  | some (id, r) ↦
      if r.version =s b.version
      then (touch now id m, some (state_of r))
      else (record (cancel_route id m) { route_states = delete b.key m.route_states }, none)
]

-- `workItems[ip] = append(workItems[ip], …)`
unfoldable pub append_item :
    String
    → Url × String
    → List (String × List (Url × String))
    → List (String × List (Url × String))
unfolding ◌=s◌
append_item ip item [] = (ip, item ∷ []) ∷ []
append_item ip item ((j, items) ∷ m) =
    if j =s ip then (j, items ++ item ∷ []) ∷ m else (j, items) ∷ append_item ip item m

abbrev pub Grouped : Type 0
Grouped = List (String × List (Url × String))

unfoldable pub group_urls : String → String → List Url → Grouped → Grouped
unfolding append_item
group_urls ip port [] m = m
group_urls ip port (u ∷ urls) m = group_urls ip port urls (append_item ip (u, port) m)

unfoldable pub group_ips : List String → String → List Url → Grouped → Grouped
unfolding group_urls
group_ips [] port urls m = m
group_ips (ip ∷ ips) port urls m = group_ips ips port urls (group_urls ip port urls m)

-- The loops that fill `workItems`: for each IP, the URL and the port of each item.
unfoldable pub group_targets : List ProbeTarget → Grouped → Grouped
unfolding group_ips
group_targets [] m = m
group_targets (t ∷ ts) m = group_targets ts (group_ips t.pod_ips t.pod_port t.urls m)

-- "Get or create the context for that IP".
unfoldable pub ip_context : String → Prober → ℕ × Prober
unfolding lookup_ip
ip_context ip m = elim (lookup_ip ip m.pod_contexts) [
  | some c ↦ (c, m)
  | none ↦ (
    length m.contexts,
    record m {
      contexts = m.contexts ++ false ∷ [];
      pod_contexts = (ip, length m.contexts) ∷ m.pod_contexts;
    },
  )
]

unfoldable pub queue_items : ℕ → ℕ → String → List (Url × String) → List WorkItem
queue_items route pod ip [] = []
queue_items route pod ip ((u, port) ∷ items) =
    record { route = route; pod = pod; url = u; pod_ip = ip; pod_port = port }
    ∷ queue_items route pod ip items

-- `AddAfter` and `AddRateLimited`: a queue that is shut down takes no more items.
unfoldable pub enqueue : Prober → List WorkItem → List WorkItem
enqueue m items = if m.shut_down then m.work_queue else m.work_queue ++ items

-- The body of the loop over `workItems`: a pod state and its items.
unfoldable pub add_pod : ℕ → String → List (Url × String) → Prober → Prober
unfolding ip_context queue_items enqueue
add_pod route ip items m =
    let (c, m') = ip_context ip m in
    record m' {
      pods =
          m'.pods
          ++ record {
            route = route;
            ip_context = c;
            pending_count = pos (length items);
            cancelled = false;
          }
            ∷ [];
      work_queue = enqueue m' (queue_items route (length m'.pods) ip items);
    }

unfoldable pub add_pods : ℕ → Grouped → Prober → Prober
unfolding add_pod
add_pods route [] m = m
add_pods route ((ip, items) ∷ rest) m = add_pods route rest (add_pod route ip items m)

-- The route state that `probeRequest` makes, and sets to the number of IPs.
abbrev pub new_route : ℕ → Backends → ℕ → RouteState
new_route now b count = record {
  version = b.version;
  key = b.key;
  callback_key = b.callback_key;
  pending_count = pos count;
  last_accessed = now;
  cancelled = false;
}

-- The prober with the new route state and its work.
unfoldable pub started : ℕ → Backends → Grouped → Prober → Prober
unfolding add_pods
started now b groups m =
    add_pods (length m.routes) groups
      (record m { routes = m.routes ++ new_route now b (length groups) ∷ [] })

-- `probeRequest`
unfoldable pub probe_request : ℕ → Backends → List ProbeTarget → Prober → Prober × Bool
unfolding group_targets started delete
probe_request now b targets m =
    let groups = group_targets targets [] in
    let m' = started now b groups m in
    (
      record m' { route_states = (b.key, length m.routes) ∷ delete b.key m'.route_states },
      (length groups == 0),
    )

-- `DoProbes`, over the lister of targets.
unfoldable pub do_probes :
    (Backends → Result (List ProbeTarget)) → ℕ → Backends → Prober → Prober × Result ProbeState
unfolding current_state probe_request
do_probes list_targets now b m =
    let (m', current) = current_state now b m in
    elim current [
      | some state ↦ (m', ok state)
      | none ↦ elim (list_targets b) [
        | err e ↦ (m', err e)
        | panic e ↦ (m', panic e)
        | ok targets ↦
            let (m'', ready) = probe_request now b targets m' in
            (m'', ok (record { version = b.version; ready = ready }))
      ]
    ]
