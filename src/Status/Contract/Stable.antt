-- ===== src/Status/Contract/Stable.antt =====
-- A route that pkg/status/status.go answers to be ready, from its contract alone.
use mathlib.Core.Option.{some-injective}
use net_gateway_api.Base.{
  String, ◌≡◌, sym, ap, ◌∙◌, Bool, true, false, not, ◌||◌, Option, none, some, List, [], ◌∷◌, inl,
  inr, Bool-cases, All, arith,
}
use net_gateway_api.Base.Text.{◌=s◌, =s_iff}
use net_gateway_api.Model.Names.{NamespacedName, NamespacedName-discrete, deep_equal_iff}
use net_gateway_api.Status.Types.{ProbeState, Backends}
use net_gateway_api.Status.Prober.{Prober, new_prober}
use net_gateway_api.Status.Events.{
  Event, probes, cancel_ingress, cancel_pod, works, joins, notices, shuts_down, step, run,
}
use net_gateway_api.Status.Contract.Puts.{key_cases, Becomes-other, outdated-apart}
use net_gateway_api.Status.Contract.{
  same_key, View, view, Becomes, GetsReady, state, Outdated, Spec,
}
use net_gateway_api.Status.Counters.{IsCounted}
use net_gateway_api.Status.Counters.Runs.{step-IsCounted, run-CountsOf}
use net_gateway_api.Status.Contract.Keyed.{IsKeyed}
use net_gateway_api.Status.Contract.Keyed.Steps.{step-IsKeyed, run-IsKeyed}
use net_gateway_api.Status.Contract.Refines.{step-Spec}

-- Whether an event neither asks for another version of a key nor cancels it.
unfoldable pub leaves : NamespacedName → String → Event → Bool
leaves k version (probes list_targets now b) = not (same_key b.key k) || (b.version =s version)
leaves k version (cancel_ingress key) = not (same_key key k)
leaves k version (cancel_pod ip) = true
leaves k version (works T) = true
leaves k version (joins p) = true
leaves k version (notices p) = true
leaves k version shuts_down = true

module _ (k : NamespacedName) (version : String) (v v' : View)
    (before : v k ≡ some (state version true)) where
  GetsReady-leaves : GetsReady v v' → v' k ≡ some (state version true)
  GetsReady-leaves (key, w, (a, b)) = elim (key_cases k key) [
    | inl (e, d) ↦ Becomes-other key (some (state w true)) v v' b k d ∙ before
    | inr (e, q) ↦ absurd (
        never (some-injective (state w false) (state version true) (sym a ∙ ap v (sym q) ∙ before)))
  ]
    where
      never : {w : String} → state w false ≡ state version true → ⊥
      never q = cc (ap (λ s. s.ready) q)

  Becomes-leaves :
      (key : NamespacedName) (o : Option ProbeState)
      → not (same_key key k) ≡ true
      → Becomes key o v v'
      → v' k ≡ some (state version true)
  Becomes-leaves key o l b = elim (key_cases k key) [
    | inl (e, d) ↦ Becomes-other key o v v' b k d ∙ before
    | inr (e, q) ↦ absurd (never (same_key key k) e l)
  ]
    where
      never : (b : Bool) → b ≡ true → not b ≡ true → ⊥
      never true e l = cc
      never false e l = cc

  Outdated-leaves :
      (b : Backends) (o : Option ProbeState)
      → (not (same_key b.key k) || (b.version =s version)) ≡ true
      → Outdated b v
      → Becomes b.key o v v'
      → v' k ≡ some (state version true)
  Outdated-leaves b o l d c = elim (Bool-cases (same_key b.key k)) [
    | inr e ↦ Becomes-leaves b.key o (ap not e) c
    | inl e ↦ absurd (
        outdated-apart b (v b.key) true d (
          ap v ((deep_equal_iff NamespacedName-discrete b.key k).0 e)
          ∙ before
          ∙ ap (λ w. some (state w true)) (sym (asked e))))
  ]
    where
      asked : same_key b.key k ≡ true → b.version ≡ version
      asked e = (=s_iff b.version version).0 (ground (arith, l, e))

  Spec-leaves :
      (e : Event) → leaves k version e ≡ true → Spec e v v' → v' k ≡ some (state version true)
  unfolding leaves
  Spec-leaves (probes list_targets now b) l (inl (ready, (a, s))) = s k ∙ before
  Spec-leaves (probes list_targets now b) l (inr (inl (d, (ts, (t, c))))) =
      Outdated-leaves b _ l d c
  Spec-leaves (probes list_targets now b) l (inr (inr (d, (t, c)))) = Outdated-leaves b none l d c
  Spec-leaves (cancel_ingress key) l (inl s) = s k ∙ before
  Spec-leaves (cancel_ingress key) l (inr c) = Becomes-leaves key none l c
  Spec-leaves (cancel_pod ip) l s = s k ∙ before
  Spec-leaves (works T) l (inl s) = s k ∙ before
  Spec-leaves (works T) l (inr g) = GetsReady-leaves g
  Spec-leaves (joins p) l s = s k ∙ before
  Spec-leaves (notices p) l (inl s) = s k ∙ before
  Spec-leaves (notices p) l (inr g) = GetsReady-leaves g
  Spec-leaves shuts_down l s = s k ∙ before

run_from-leaves :
    (k : NamespacedName) (version : String) (fs : List Event) (m : Prober)
    → IsCounted m
    → IsKeyed m
    → All (λ e. leaves k version e ≡ true) fs
    → view m k ≡ some (state version true)
    → view (run fs m) k ≡ some (state version true)
unfolding run
run_from-leaves k version [] m c h l b = b
run_from-leaves k version (e ∷ fs) m c h (l, ls) b =
    run_from-leaves k version fs (step e m) (step-IsCounted e m c) (step-IsKeyed e m h) ls
      (Spec-leaves k version (view m) (view (step e m)) b e l (step-Spec e m c h))

-- A route that is ready stays ready, with its version, through any further events in any order
-- that neither ask for another version under its key nor cancel an Ingress with that very key.
pub run-leaves :
    (es fs : List Event) (k : NamespacedName) (version : String)
    → view (run es new_prober) k ≡ some (state version true)
    → All (λ e. leaves k version e ≡ true) fs
    → view (run fs (run es new_prober)) k ≡ some (state version true)
run-leaves es fs k version b ls =
    run_from-leaves k version fs (run es new_prober) (run-CountsOf es) (run-IsKeyed es) ls b
