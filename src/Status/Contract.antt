-- ===== src/Status/Contract.antt =====
-- What the `Prober` of pkg/status/status.go promises to its callers: for each key that is probed a
-- version and whether it is ready, and what each event may change of them.
pub mod Keyed
pub mod Puts
pub mod Views
pub mod Ends
pub mod Locked
pub mod Requests
pub mod Refines
pub mod Stable
pub mod Announce
use net_gateway_api.Base.{
  ℕ, String, ◌≡◌, ◌≢◌, Bool, true, false, Option, none, some, List, if◌then◌else◌, ◌⊎◌, Result, ok,
  err, panic, [], length, ◌==◌, not,
}
use net_gateway_api.Base.Text.{◌=s◌}
use net_gateway_api.Model.Names.{NamespacedName, NamespacedName-discrete, deep_equal}
use net_gateway_api.Status.Types.{ProbeTarget, ProbeState, Backends}
use net_gateway_api.Status.Prober.{Prober, is_probe_active, group_targets}
use net_gateway_api.Status.Events.{
  Event, probes, cancel_ingress, cancel_pod, works, joins, notices, shuts_down,
}

-- The probed keys.
abbrev pub View : Type 0
View = NamespacedName → Option ProbeState

-- What `IsProbeActive` answers for each key.
abbrev pub view : Prober → View
view m k = let (s, found) = is_probe_active k m in if found then some s else none

abbrev pub Stays : View → View → Type 0
Stays v v' = (k : NamespacedName) → v' k ≡ v k

-- Only the answer for one key changes, to `o`.
abbrev pub same_key : NamespacedName → NamespacedName → Bool
same_key j k = deep_equal NamespacedName-discrete j k

abbrev pub put : NamespacedName → Option ProbeState → View → View
put key o v k = if same_key key k then o else v k

abbrev pub Becomes : NamespacedName → Option ProbeState → View → View → Type 0
Becomes key o v v' = Stays (put key o v) v'

abbrev pub state : String → Bool → ProbeState
state version ready = record { version = version; ready = ready }

-- Some key that was not ready is.
abbrev pub GetsReady : View → View → Type 0
GetsReady v v' =
    (key : NamespacedName) × (version : String) × ((v key ≡ some (state version false))
      × Becomes key (some (state version true)) v v')

-- The version of the backends is not active.
abbrev pub outdated : Backends → Option ProbeState → Bool
outdated b none = true
outdated b (some s) = not (s.version =s b.version)

abbrev pub Outdated : Backends → View → Type 0
Outdated b v = outdated b (v b.key) ≡ true

abbrev pub fails : Result (List ProbeTarget) → Bool
fails (ok ts) = false
fails (err e) = true
fails (panic e) = true

-- A call of `DoProbes`: the version is active already; or it becomes active, and ready exactly if
-- no IP is to be probed; or the key is forgotten since the targets cannot be listed.
abbrev pub Requested : (Backends → Result (List ProbeTarget)) → Backends → View → View → Type 0
Requested list_targets b v v' =
    ((ready : Bool) × ((v b.key ≡ some (state b.version ready)) × Stays v v'))
    ⊎ ((Outdated b v
          × ((ts : List ProbeTarget) × ((list_targets b ≡ ok ts)
                × Becomes b.key (some (state b.version (length (group_targets ts []) == 0))) v v')))
        ⊎ (Outdated b v × ((fails (list_targets b) ≡ true) × Becomes b.key none v v')))

-- What an event may do.
abbrev pub Spec : Event → View → View → Type 0
Spec (probes list_targets now b) v v' = Requested list_targets b v v'
Spec (cancel_ingress key) v v' = Stays v v' ⊎ Becomes key none v v'
Spec (cancel_pod ip) v v' = Stays v v'
Spec (works T) v v' = Stays v v' ⊎ GetsReady v v'
Spec (joins p) v v' = Stays v v'
Spec (notices p) v v' = Stays v v' ⊎ GetsReady v v'
Spec shuts_down v v' = Stays v v'
