-- ===== src/Reconcile/Route/Phases.antt =====
-- The phases of `reconcileHTTPRouteUpdate`, by the version that is probed. The versions are a hash
-- alone, or a hash after one of the two prefixes.
use text.Mathlib.Text.{is_eq}
use text.Mathlib.TextPositions.{slice-append_left}
use Prim.Native.String.{compare}
use net_gateway_api.Base.{
  String, ◌<>◌, Bool, true, false, ◌≡◌, refl, sym, ap, ◌∙◌, List, [], ◌∷◌, if◌then◌else◌, arith, ok,
  >>=-eq-ok, ok-injective,
}
use net_gateway_api.Base.Text.{
  ◌=s◌, =s_refl, has_prefix, trim_prefix, has_prefix-append, trim_prefix-append, trim_prefix_none,
}
use net_gateway_api.Config.{GatewayPlugin}
use net_gateway_api.Model.Gateway.{HttpRoute}
use net_gateway_api.Model.Ingress.{IngressBackendSplit, Ingress, IngressRule}
use net_gateway_api.Resources.Constants.{Kmeta}
use net_gateway_api.Resources.Make.{make_http_route}
use net_gateway_api.Reconcile.Route.{
  Phase, finish, transition, wait, endpoints, replace, has_new, phase_of, probe_hash, Desired,
  desired_of, endpoint_prefix, transition_prefix,
}
use net_gateway_api.Status.Types.{ProbeState}

-- A hash that neither prefix starts, as the hexadecimal ones.
abbrev pub IsPlain : String → Type 0
IsPlain h = (has_prefix h endpoint_prefix ≡ false) × (has_prefix h transition_prefix ≡ false)

abbrev pub state : String → Bool → ProbeState
state version ready = record { version = version; ready = ready }

probe_hash-plain : (h : String) (b : Bool) → IsPlain h → probe_hash (state h b) ≡ h
unfolding probe_hash
probe_hash-plain h b (e, t) =
    ap (λ s. trim_prefix s transition_prefix) (trim_prefix_none h endpoint_prefix e)
    ∙ trim_prefix_none h transition_prefix t

probe_hash-endpoint :
    (h : String) (b : Bool) → IsPlain h → probe_hash (state (endpoint_prefix <> h) b) ≡ h
unfolding probe_hash
probe_hash-endpoint h b (e, t) =
    ap (λ s. trim_prefix s transition_prefix) (trim_prefix-append endpoint_prefix h)
    ∙ trim_prefix_none h transition_prefix t

transition_apart : (h : String) → has_prefix (transition_prefix <> h) endpoint_prefix ≡ false
unfolding has_prefix
transition_apart h =
    ap (λ t. is_eq (compare t endpoint_prefix)) (slice-append_left transition_prefix h)

endpoint_apart : (h : String) → has_prefix (endpoint_prefix <> h) transition_prefix ≡ false
unfolding has_prefix
endpoint_apart h =
    ap (λ t. is_eq (compare t transition_prefix)) (slice-append_left endpoint_prefix h)

probe_hash-transition : (h : String) (b : Bool) → probe_hash (state (transition_prefix <> h) b) ≡ h
unfolding probe_hash
probe_hash-transition h b =
    ap (λ s. trim_prefix s transition_prefix)
      (trim_prefix_none (transition_prefix <> h) endpoint_prefix (transition_apart h))
    ∙ trim_prefix-append transition_prefix h

-- What is probed for a hash: the final rules, the new backends, or the transition.
pub data Stage : Type 0 where
  final : Stage
  probing : Stage
  moving : Stage

abbrev pub version : Stage → String → String
version final h = h
version probing h = endpoint_prefix <> h
version moving h = transition_prefix <> h

-- The branch for an earlier or unknown hash.
abbrev pub start : List IngressBackendSplit → Phase
start [] = replace
start (split ∷ splits) = endpoints

-- The branch for the hash that is probed.
abbrev pub advance : Stage → Bool → Phase
advance final ready = wait
advance probing ready = if ready then transition else wait
advance moving ready = if ready then finish else wait

starts : (new : List IngressBackendSplit) → (if has_new new then endpoints else replace) ≡ start new
unfolding has_new
starts [] = refl
starts (split ∷ splits) = refl

-- Where a stage of the hash `old`, which no prefix starts, is probed: if it is the hash of the
-- Ingress, a ready probe of the new backends goes on to the transition, a ready probe of the
-- transition to the final rules, and all else waits; if it is another one (the empty version of a
-- route that is not probed included), the rollout starts, with the endpoints where a backend is new
-- and by replacement where none is.
pub phase_of-stage :
    (hash old : String) (s : Stage) (ready : Bool) (new : List IngressBackendSplit)
    → IsPlain old
    → phase_of hash (state (version s old) ready) new
      ≡ (if old =s hash then advance s ready else start new)
unfolding phase_of has_new
phase_of-stage hash old final ready new (e, t) =
    rw (probe_hash-plain old ready (e, t), e, t) (ground (arith, starts new))
phase_of-stage hash old probing ready new (e, t) =
    rw
      (
        probe_hash-endpoint old ready (e, t),
        has_prefix-append endpoint_prefix old,
        endpoint_apart old,
      )
      (ground (arith, starts new))
phase_of-stage hash old moving ready new (e, t) =
    rw
      (
        probe_hash-transition old ready,
        has_prefix-append transition_prefix old,
        transition_apart old,
      )
      (ground (arith, starts new))

-- The stage that a branch probes for.
abbrev pub stage_of : Phase → Stage
stage_of finish = final
stage_of transition = moving
stage_of wait = final
stage_of endpoints = probing
stage_of replace = final

-- Each branch probes its hash under the version of its stage.
pub desired_of-hash :
    (K : Kmeta) (plugin : GatewayPlugin) (p : Phase) (hash : String) (ing : Ingress)
    (rule : IngressRule) (r : HttpRoute) (d : Desired)
    → desired_of K plugin p hash ing rule r ≡ ok d
    → d.hash ≡ version (stage_of p) hash
unfolding desired_of
desired_of-hash K plugin finish hash ing rule r d h =
    let (made, a, b) =
      >>=-eq-ok (make_http_route K plugin ing rule)
        (λ made. ok (record { hash = hash; route = made; current = r })) h in
    sym (ap Desired.hash (ok-injective b))
desired_of-hash K plugin transition hash ing rule r d h =
    let (made, a, b) = >>=-eq-ok (make_http_route K plugin ing rule) _ h in
    sym (ap Desired.hash (ok-injective b))
desired_of-hash K plugin wait hash ing rule r d h = sym (ap Desired.hash (ok-injective h))
desired_of-hash K plugin endpoints hash ing rule r d h = sym (ap Desired.hash (ok-injective h))
desired_of-hash K plugin replace hash ing rule r d h =
    let (made, a, b) = >>=-eq-ok (make_http_route K plugin ing rule) _ h in
    sym (ap Desired.hash (ok-injective b))

-- The branch that follows once what a branch probes is ready.
abbrev pub successor : Phase → Phase
successor finish = wait
successor transition = finish
successor wait = wait
successor endpoints = transition
successor replace = wait

advances : (p : Phase) → advance (stage_of p) true ≡ successor p
advances finish = refl
advances transition = refl
advances wait = refl
advances endpoints = refl
advances replace = refl

-- For a hash that no prefix starts: once the probes of what a branch desired are ready, the next
-- reconciliation of the same hash takes the successor of the branch, whatever backends are new by
-- then: the endpoints lead to the transition, the transition to the final rules, and these wait.
pub desired_of-successor :
    (K : Kmeta) (plugin : GatewayPlugin) (p : Phase) (hash : String) (ing : Ingress)
    (rule : IngressRule) (r : HttpRoute) (d : Desired) (new : List IngressBackendSplit)
    → desired_of K plugin p hash ing rule r ≡ ok d
    → IsPlain hash
    → phase_of hash (state d.hash true) new ≡ successor p
desired_of-successor K plugin p hash ing rule r d new h k =
    ap (λ v. phase_of hash (state v true) new) (desired_of-hash K plugin p hash ing rule r d h)
    ∙ phase_of-stage hash hash (stage_of p) true new k
    ∙ ap (λ b. if b then advance (stage_of p) true else start new) (=s_refl hash)
    ∙ advances p
