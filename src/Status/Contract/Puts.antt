-- ===== src/Status/Contract/Puts.antt =====
-- Views in which one key changes, for the contract of pkg/status/status.go.
use net_gateway_api.Base.{
  ◌≡◌, ◌≢◌, refl, sym, ap, ◌∙◌, Bool, true, false, Option, some, ◌⊎◌, inl, inr, Bool-cases,
  if◌then◌else◌,
}
use net_gateway_api.Base.Text.{=s_iff}
use net_gateway_api.Model.Names.{NamespacedName, NamespacedName-discrete, deep_equal_iff}
use net_gateway_api.Status.Types.{ProbeState, Backends}
use net_gateway_api.Status.Contract.{View, Becomes, state, outdated, same_key}

-- Another key, or the same one.
pub key_cases :
    (k j : NamespacedName) → ((same_key j k ≡ false) × (k ≢ j)) ⊎ ((same_key j k ≡ true) × (k ≡ j))
key_cases k j = elim (Bool-cases (same_key j k)) [
  | inl e ↦ inr (e, sym ((deep_equal_iff NamespacedName-discrete j k).0 e))
  | inr e ↦ inl (e, λ q. cc (e, (deep_equal_iff NamespacedName-discrete j k).1 (sym q)))
]

module _ (key : NamespacedName) (o : Option ProbeState) (v v' : View) where
  pub becomes : v' key ≡ o → ((k : NamespacedName) → k ≢ key → v' k ≡ v k) → Becomes key o v v'
  becomes own others k = elim (key_cases k key) [
    | inl (e, d) ↦ rw e (others k d)
    | inr (e, q) ↦ rw e (ap v' q ∙ own)
  ]

  pub Becomes-own : Becomes key o v v' → v' key ≡ o
  Becomes-own h =
      h key
      ∙ ap (λ b. if b then o else v key) ((deep_equal_iff NamespacedName-discrete key key).1 refl)

  pub Becomes-other : Becomes key o v v' → (k : NamespacedName) → k ≢ key → v' k ≡ v k
  Becomes-other h k d = elim (key_cases k key) [
    | inl (e, n) ↦ h k ∙ ap (λ b. if b then o else v k) e
    | inr (e, q) ↦ absurd (d q)
  ]

-- Two changes of the same key.
pub Becomes-twice :
    (key : NamespacedName) (o o' : Option ProbeState) (v v' v'' : View)
    → Becomes key o v v'
    → Becomes key o' v' v''
    → Becomes key o' v v''
Becomes-twice key o o' v v' v'' a b =
    becomes key o' v v'' (Becomes-own key o' v' v'' b)
      (λ k d. Becomes-other key o' v' v'' b k d ∙ Becomes-other key o v v' a k d)

pub outdated-apart :
    (b : Backends) (o : Option ProbeState) (ready : Bool)
    → outdated b o ≡ true
    → o ≢ some (state b.version ready)
outdated-apart b o ready h e = cc (sym h ∙ ap (outdated b) e, (=s_iff b.version b.version).1 refl)
