-- ===== src/Examples/Probing.antt =====
-- The theorems on the prober and the lister, at concrete events.
use net_gateway_api.Base.{String, ◌≡◌, ◌≢◌, refl, ap, true, false, some, List, [], ◌∷◌, ◌++◌, ◌==◌}
use net_gateway_api.Base.Int.{pos}
use net_gateway_api.Base.Text.{◌=s◌, =s-apart}
use net_gateway_api.Status.Types.{ProbeState, Backends}
use net_gateway_api.Status.Prober.{
  RouteState, Prober, new_prober, route_at, is_probe_active, do_probes,
}
use net_gateway_api.Status.Events.{
  Transport, Event, probes, cancel_pod, works, joins, notices, run, cancel_ingress_probing_by_key,
}
use net_gateway_api.Status.Answers.{do_probes-is_probe_active}
use net_gateway_api.Status.Counters.{CountsOf, active}
use net_gateway_api.Status.Counters.Runs.{run-CountsOf, run-ready}
use net_gateway_api.Status.Keys.{seal, cancel_ingress_probing_by_key_entry}
use net_gateway_api.Status.Prober.{PodState}
use net_gateway_api.Status.Queue.{items_of}
use net_gateway_api.Status.Queue.Steps.{run-pending_count}
use net_gateway_api.Status.Queue.Settle.{settle, settle-ready}
use net_gateway_api.Status.Contract.{Spec, view, state}
use net_gateway_api.Status.Contract.Refines.{run-Spec}
use net_gateway_api.Status.Contract.Stable.{leaves, run-leaves}
use net_gateway_api.Status.Events.{step, passes}
use net_gateway_api.Examples.Objects.{name_of, list_targets}

abbrev backends : String → Backends
backends version = record {
  callback_key = name_of "ing";
  key = name_of "b.example";
  version = version;
  urls = [];
  http_option = "";
}

-- A pod that serves the version "v1".
abbrev pub transport : Transport
transport = record {
  probe = λ item url verify. verify (record { status_code = 200; hash = "v1" });
  health_check_path = "/healthz";
}

-- Both pods answer, and the version changes; one pod is gone.
abbrev events : List Event
events =
    probes list_targets 0 (backends "v1")
    ∷ works transport
    ∷ works transport
    ∷ probes list_targets 1 (backends "v2")
    ∷ cancel_pod "10.0.0.1"
    ∷ joins 2
    ∷ notices 2
    ∷ works transport
    ∷ []

run-CountsOf_example : CountsOf (run events new_prober) 0
run-CountsOf_example = run-CountsOf events 0

abbrev pub first_events : List Event
first_events = probes list_targets 0 (backends "v1") ∷ works transport ∷ []

abbrev first_route : RouteState
first_route = record {
  version = "v1";
  key = name_of "b.example";
  callback_key = name_of "ing";
  pending_count = pos 1;
  last_accessed = 0;
  cancelled = false;
}

run-ready_example :
    is_probe_active (name_of "b.example") (run first_events new_prober)
    ≡ (record { version = "v1"; ready = active 0 (run first_events new_prober).pods == 0 }, true)
unfolding run new_prober route_at
run-ready_example = run-ready first_events (name_of "b.example") 0 first_route refl

abbrev probed : Prober
probed = (do_probes list_targets 0 (backends "v1") new_prober).0

abbrev waiting : ProbeState
waiting = record { version = "v1"; ready = false }

do_probes-is_probe_active_example :
    (is_probe_active (name_of "b.example") probed ≡ (waiting, true)) × (waiting.version ≡ "v1")
unfolding do_probes new_prober
do_probes-is_probe_active_example =
    do_probes-is_probe_active list_targets 0 (backends "v1") new_prober probed waiting refl

abbrev probed_route : RouteState
probed_route = record first_route { pending_count = pos 2 }

apart : name_of "b.example" ≢ name_of "ing"
unfolding ◌=s◌
apart e = =s-apart "b.example" "ing" refl (ap (λ n. n.name) e)

cancel_ingress_probing_by_key_entry_example :
    (route_at (cancel_ingress_probing_by_key (name_of "ing") probed) (name_of "b.example")
      ≡ some (0, seal probed_route))
    × (is_probe_active (name_of "b.example") (cancel_ingress_probing_by_key (name_of "ing") probed)
        ≡ is_probe_active (name_of "b.example") probed)
unfolding do_probes new_prober route_at
cancel_ingress_probing_by_key_entry_example =
    cancel_ingress_probing_by_key_entry (name_of "ing") (name_of "b.example") probed 0 probed_route
      apart refl refl

abbrev second_pod : PodState
second_pod = record { route = 0; ip_context = 1; pending_count = pos 1; cancelled = false }

run-pending_count_example :
    second_pod.pending_count ≡ pos (items_of 1 (run first_events new_prober).work_queue)
unfolding run new_prober
run-pending_count_example = run-pending_count first_events 1 second_pod refl refl refl

-- A pod that serves any version.
abbrev agreeable : Transport
agreeable = record {
  probe = λ item url verify. verify (record { status_code = 200; hash = "" });
  health_check_path = "/healthz";
}

abbrev asked : List Event
asked = probes list_targets 0 (backends "v1") ∷ []

abbrev ready_route : RouteState
ready_route = record first_route { pending_count = pos 0 }

settle-ready_example :
    ((run (asked ++ settle agreeable (run asked new_prober)) new_prober).work_queue ≡ [])
    × (is_probe_active
          (name_of "b.example")
          (run (asked ++ settle agreeable (run asked new_prober)) new_prober)
        ≡ (record { version = "v1"; ready = true }, true))
unfolding run new_prober route_at passes
settle-ready_example =
    settle-ready agreeable (λ item m. refl) asked (name_of "b.example") 0 ready_route refl refl

run-Spec_example :
    Spec
      (works transport)
      (view (run first_events new_prober))
      (view (step (works transport) (run first_events new_prober)))
run-Spec_example = run-Spec first_events (works transport)

abbrev ready_events : List Event
ready_events = probes list_targets 0 (backends "v1") ∷ works transport ∷ works transport ∷ []

abbrev later_events : List Event
later_events =
    probes list_targets 1 (backends "v1")
    ∷ cancel_pod "10.0.0.1"
    ∷ joins 1
    ∷ notices 1
    ∷ works transport
    ∷ []

run-leaves_example :
    view (run later_events (run ready_events new_prober)) (name_of "b.example")
    ≡ some (state "v1" true)
unfolding run new_prober is_probe_active leaves
run-leaves_example =
    run-leaves ready_events later_events (name_of "b.example") "v1" refl
      (refl, (refl, (refl, (refl, (refl, tt)))))
