-- ===== src/Reconcile/Ingress/Settled/Probed.antt =====
-- The prober of pkg/status/status.go, asked again for a version that is ready.
use net_gateway_api.Base.{
  ℕ, ◌≡◌, refl, sym, ap, ◌∙◌, Bool, true, false, Option, none, some, List, Result, ok, inl, inr,
  Option-cases,
}
use net_gateway_api.Model.Names.{NamespacedName}
use net_gateway_api.Status.Types.{ProbeTarget, ProbeState, Backends}
use net_gateway_api.Status.Prober.{Prober, route_at, state_of, is_probe_active, touch, do_probes}
use net_gateway_api.Status.Events.{manager}
use net_gateway_api.Status.Answers.{do_probes-same}
use net_gateway_api.Status.Contract.{view}
use net_gateway_api.Status.Contract.Views.{modify-Stays}
use net_gateway_api.Reconcile.Route.Phases.{state}
use net_gateway_api.Reconcile.Ingress.Settled.{Steady}

abbrev answer : Option ProbeState → ProbeState × Bool
answer none = (record { version = ""; ready = false }, false)
answer (some s) = (s, true)

is_probe_active-view : (m : Prober) (k : NamespacedName) → is_probe_active k m ≡ answer (view m k)
unfolding is_probe_active
is_probe_active-view m k = elim (Option-cases (route_at m k)) [
  | inl e ↦ rw (e, is_probe_active) refl
  | inr ((id, r), e) ↦ rw (e, is_probe_active) refl
]

-- A touch shows in no answer.
touch-same :
    (now id : ℕ) (m : Prober) (k : NamespacedName)
    → is_probe_active k (touch now id m) ≡ is_probe_active k m
unfolding touch
touch-same now id m k =
    is_probe_active-view (touch now id m) k
    ∙ ap answer (modify-Stays m id (λ r. record r { last_accessed = now }) (λ r e. refl) k)
    ∙ sym (is_probe_active-view m k)

module _ (list_targets : Backends → Result (List ProbeTarget)) where
  abbrev Again : ℕ → Backends → Prober → Type 0
  Again now b m =
      (m' : Prober) × ((do_probes list_targets now b m ≡ (m', ok (state b.version true)))
        × ((k : NamespacedName) → is_probe_active k m' ≡ is_probe_active k m))

  pub do_probes-Again :
      (now : ℕ) (b : Backends) (m : Prober)
      → (is_probe_active b.key m).0 ≡ state b.version true
      → Again now b m
  unfolding is_probe_active
  do_probes-Again now b m h = elim (Option-cases (route_at m b.key)) [
    | inl e ↦
        let gone : is_probe_active b.key m ≡ answer none = rw (e, is_probe_active) refl in
        absurd (never (sym (ap (λ p. p.0.ready) gone) ∙ ap (λ s. s.ready) h))
    | inr ((id, r), e) ↦
        let here : is_probe_active b.key m ≡ (state_of r, true) = rw (e, is_probe_active) refl in
        let same : state_of r ≡ state b.version true = sym (ap (λ p. p.0) here) ∙ h in
        (
          touch now id m,
          (
            do_probes-same list_targets now b m id r e (ap (λ s. s.version) same)
                ∙ ap (λ s. (touch now id m, ok s)) same,
            touch-same now id m,
          ),
        )
  ]
    where
      never : false ≡ true → ⊥
      never e = cc

  abbrev pub prober_steady : Steady (manager list_targets)
  prober_steady = record { do_probes = do_probes-Again }
