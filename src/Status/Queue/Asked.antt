-- ===== src/Status/Queue/Asked.antt =====
-- `DoProbes` of pkg/status/status.go, and the workers until all is probed.
use mathlib.Core.Option.{some-injective}
use net_gateway_api.Base.{
  ℕ, zero, suc, String, ◌≡◌, refl, sym, ap, ◌∙◌, Bool, true, false, Option, none, some, List, [],
  ◌∷◌, ◌++◌, All, All-append, ◌⊎◌, inl, inr, Option-cases, Result, length, if◌then◌else◌,
}
use net_gateway_api.Model.Names.{NamespacedName}
use net_gateway_api.Status.Types.{ProbeTarget, ProbeState, Backends}
use net_gateway_api.Status.Prober.{
  RouteState, WorkItem, Prober, new_prober, route_at, is_probe_active,
}
use net_gateway_api.Status.Events.{
  Transport, passes, Event, probes, cancel_ingress, cancel_pod, works, joins, notices, shuts_down,
  step, run,
}
use net_gateway_api.Status.Contract.{View, view, state, Stays, GetsReady, fails, Requested}
use net_gateway_api.Status.Contract.Puts.{key_cases, Becomes-own, Becomes-other}
use net_gateway_api.Status.Contract.Refines.{run-Spec, step-Spec}
use net_gateway_api.Status.Counters.{IsCounted}
use net_gateway_api.Status.Counters.Runs.{step-IsCounted, run-CountsOf}
use net_gateway_api.Status.Contract.Keyed.{IsKeyed}
use net_gateway_api.Status.Contract.Keyed.Steps.{step-IsKeyed, run-IsKeyed}
use net_gateway_api.Status.Queue.Drain.{drain}
use net_gateway_api.Status.Queue.Idle.{notices_below}
use net_gateway_api.Status.Queue.Settle.{settle, run-append, settle-ready, settle-shut_down}
use net_gateway_api.Status.Queue.Open.{do_probes-shut_down}
use mathlib.Core.Path.{subst}

-- The events of the workers and of the goroutines of the pods.
abbrev IsWork : Event → Type 0
IsWork (works T) = Unit
IsWork (notices p) = Unit
IsWork _ = ⊥

-- These keep the version of a key.
keeps :
    (k : NamespacedName) (version : String) (ready : Bool) (v v' : View)
    → v k ≡ some (state version ready)
    → Stays v v' ⊎ GetsReady v v'
    → (ready' : Bool) × (v' k ≡ some (state version ready'))
keeps k version ready v v' h (inl s) = (ready, s k ∙ h)
keeps k version ready v v' h (inr (key, w, (a, b))) = elim (key_cases k key) [
  | inl (e, d) ↦ (ready, Becomes-other key (some (state w true)) v v' b k d ∙ h)
  | inr (e, q) ↦
      let same : state w false ≡ state version ready =
        some-injective _ _ (sym a ∙ ap v (sym q) ∙ h) in
      (
        true,
        ap v' q
            ∙ Becomes-own key (some (state w true)) v v' b
            ∙ ap (λ s. some (state (ProbeState.version s) true)) same,
      )
]

step-keeps :
    (e : Event) (m : Prober) (k : NamespacedName) (version : String) (ready : Bool)
    → IsWork e
    → IsCounted m
    → IsKeyed m
    → view m k ≡ some (state version ready)
    → (ready' : Bool) × (view (step e m) k ≡ some (state version ready'))
step-keeps (works T) m k version ready i c h a =
    keeps k version ready (view m) _ a (step-Spec (works T) m c h)
step-keeps (notices p) m k version ready i c h a =
    keeps k version ready (view m) _ a (step-Spec (notices p) m c h)
step-keeps (probes list_targets now b) m k version ready i c h a = absurd i
step-keeps (cancel_ingress key) m k version ready i c h a = absurd i
step-keeps (cancel_pod ip) m k version ready i c h a = absurd i
step-keeps (joins p) m k version ready i c h a = absurd i
step-keeps shuts_down m k version ready i c h a = absurd i

run_work-keeps :
    (es : List Event) (m : Prober) (k : NamespacedName) (version : String) (ready : Bool)
    → All IsWork es
    → IsCounted m
    → IsKeyed m
    → view m k ≡ some (state version ready)
    → (ready' : Bool) × (view (run es m) k ≡ some (state version ready'))
unfolding run
run_work-keeps [] m k version ready i c h a = (ready, a)
run_work-keeps (e ∷ es) m k version ready (i, is) c h a =
    let (ready', a') = step-keeps e m k version ready i c h a in
    run_work-keeps es (step e m) k version ready' is (step-IsCounted e m c) (step-IsKeyed e m h) a'

drain-IsWork : (T : Transport) (items : List WorkItem) → All IsWork (drain T items)
drain-IsWork T [] = tt
drain-IsWork T (item ∷ items) = (tt, drain-IsWork T items)

notices_below-IsWork : (n : ℕ) → All IsWork (notices_below n)
notices_below-IsWork zero = tt
notices_below-IsWork (suc n) = (tt, notices_below-IsWork n)

settle-IsWork : (T : Transport) (m : Prober) → All IsWork (settle T m)
settle-IsWork T m =
    All-append IsWork (drain T m.work_queue) _ (drain-IsWork T m.work_queue)
      (notices_below-IsWork (length (run (drain T m.work_queue) m).pods))

-- Where the targets can be listed, the version is active after a call of `DoProbes`.
Requested-active :
    (list_targets : Backends → Result (List ProbeTarget)) (b : Backends) (v v' : View)
    → fails (list_targets b) ≡ false
    → Requested list_targets b v v'
    → (ready : Bool) × (v' b.key ≡ some (state b.version ready))
Requested-active list_targets b v v' f (inl (ready, (a, s))) = (ready, s b.key ∙ a)
Requested-active list_targets b v v' f (inr (inl (d, (ts, (t, c))))) =
    (_, Becomes-own b.key _ v v' c)
Requested-active list_targets b v v' f (inr (inr (d, (e, c)))) = cc

-- What the answer of `IsProbeActive` says of the route state.
active-route :
    (m : Prober) (k : NamespacedName) (s : ProbeState)
    → view m k ≡ some s
    → (id : ℕ) × (r : RouteState) × (route_at m k ≡ some (id, r))
unfolding is_probe_active
active-route m k s h = elim (Option-cases (route_at m k)) [
  | inl e ↦ absurd (never (sym (rw (e, is_probe_active) refl) ∙ h))
  | inr ((id, r), e) ↦ (id, r, e)
]
  where
    never : {s : ProbeState} → ◌≡◌ {A = Option ProbeState} none (some s) → ⊥
    never h = cc

run-snoc :
    (es : List Event) (e : Event) → run (es ++ e ∷ []) new_prober ≡ step e (run es new_prober)
unfolding run
run-snoc es e = run-append es (e ∷ []) new_prober

module _ (T : Transport) (answers : (item : WorkItem) (m : Prober) → passes T item m ≡ true) where
  settled :
      (es : List Event) (k : NamespacedName) (version : String) (ready : Bool)
      → (run es new_prober).shut_down ≡ false
      → view (run es new_prober) k ≡ some (state version ready)
      → is_probe_active k (run (settle T (run es new_prober)) (run es new_prober))
        ≡ (state version true, true)
  settled es k version ready s a =
      let m : Prober = run es new_prober in
      let e : run (es ++ settle T m) new_prober ≡ run (settle T m) m =
        run-append es (settle T m) new_prober in
      let m' : Prober = run (es ++ settle T m) new_prober in
      let (ready', a') =
        run_work-keeps (settle T m) m k version ready (settle-IsWork T m) (run-CountsOf es)
          (run-IsKeyed es) a in
      let shown : view m' k ≡ some (state version ready') = ap (λ m. view m k) e ∙ a' in
      let (id, r, at) = active-route m' k (state version ready') shown in
      let active : is_probe_active k m' ≡ (state r.version true, true) =
        (settle-ready T answers es k id r s at).1 in
      let same : state r.version true ≡ state version ready' =
        some-injective _ _
          (sym (ap (λ (p : ProbeState × Bool). if p.1 then some p.0 else none) active) ∙ shown) in
      ap (is_probe_active k) (sym e)
      ∙ active
      ∙ ap (λ s. (state (ProbeState.version s) true, true)) same

  -- From every prober that some events made and whose queue is open, and where every probe passes:
  -- once `DoProbes` was called with backends whose targets can be listed, each queued item was
  -- taken by a worker and each pod's goroutine looked at its context, the answer for the key of
  -- the backends is their version, ready, whatever was probed under the key before; and the queue
  -- is still open.
  pub probes-settle :
      (es : List Event) (list_targets : Backends → Result (List ProbeTarget)) (now : ℕ)
      (b : Backends)
      → (run es new_prober).shut_down ≡ false
      → fails (list_targets b) ≡ false
      → let m = step (probes list_targets now b) (run es new_prober) in
        let m' = run (settle T m) m in
        (is_probe_active b.key m' ≡ (state b.version true, true)) × (m'.shut_down ≡ false)
  probes-settle es list_targets now b s f =
      let m0 : Prober = run es new_prober in
      let m : Prober = step (probes list_targets now b) m0 in
      let fs = es ++ probes list_targets now b ∷ [] in
      let e : run fs new_prober ≡ m = run-snoc es (probes list_targets now b) in
      let (ready, a) =
        Requested-active list_targets b (view m0) (view m) f
          (run-Spec es (probes list_targets now b)) in
      let open_ : m.shut_down ≡ false = do_probes-shut_down list_targets now b m0 ∙ s in
      let shut : (run fs new_prober).shut_down ≡ false = ap Prober.shut_down e ∙ open_ in
      (
        subst (λ m. is_probe_active b.key (run (settle T m) m) ≡ (state b.version true, true)) e
            (settled fs b.key b.version ready shut (ap (λ m. view m b.key) e ∙ a)),
        subst (λ m. (run (settle T m) m).shut_down ≡ false) e (settle-shut_down T answers fs shut),
      )
