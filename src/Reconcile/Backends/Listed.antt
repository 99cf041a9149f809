-- ===== src/Reconcile/Backends/Listed.antt =====
-- The sets of URLs of a request of pkg/reconciler/ingress/reconcile_resources.go.
use net_gateway_api.Base.{
  String, ◌≡◌, refl, sym, ap, ◌∙◌, Bool, true, false, ◌&&◌, ◌||◌, List, [], ◌∷◌, any, if◌then◌else◌,
  Result, ok, err, panic, Yields, inl, inr, Bool-cases, arith,
}
use net_gateway_api.Base.Text.{◌=s◌, =s_refl}
use net_gateway_api.Model.Names.{deep_equal, deep_equal_iff}
use net_gateway_api.Status.Types.{Url, UrlSet, Url-discrete, insert_url, insert_visibility}

abbrev pub same_url : Url → Url → Bool
same_url x u = deep_equal Url-discrete x u

-- Whether a URL is listed for a visibility.
abbrev pub listed : String → Url → List (String × UrlSet) → Bool
listed v u [] = false
listed v u ((w, urls) ∷ m) = if w =s v then any (λ x. same_url x u) urls else listed v u m

absorbed : (a b : Bool) → (a ≡ true → b ≡ true) → b ≡ (a || b)
absorbed true b h = h refl
absorbed false b h = refl

pub swapped : (a b c : Bool) → (a || (b || c)) ≡ ((b || a) || c)
swapped a b c = ground arith

pub one : (a b : Bool) → (a || b) ≡ ((a || false) || b)
one a b = ground arith

pub covered : (a h : Bool) → (a || (h && a)) ≡ a
covered a h = ground arith

pub or_false : (a : Bool) → (a || false) ≡ a
or_false a = ground arith

pub weaken :
    {A : Type 0} (P Q : A → Type 0) (r : Result A) → ((a : A) → P a → Q a) → Yields P r → Yields Q r
weaken P Q (ok a) f h = f a h
weaken P Q (err e) f h = tt
weaken P Q (panic m) f h = tt

any-found :
    (x u : Url) (urls : UrlSet)
    → same_url x u ≡ true
    → any (λ y. same_url y x) urls ≡ true
    → any (λ y. same_url y u) urls ≡ true
any-found x u urls e h =
    ap (λ x. any (λ y. same_url y x) urls) (sym ((deep_equal_iff Url-discrete x u).0 e)) ∙ h

any-insert_url :
    (x u : Url) (urls : UrlSet)
    → any (λ y. same_url y u) (insert_url x urls) ≡ (same_url x u || any (λ y. same_url y u) urls)
unfolding insert_url
any-insert_url x u urls = elim (Bool-cases (any (λ y. same_url y x) urls)) [
  | inl h ↦ rw h (absorbed (same_url x u) _ (λ e. any-found x u urls e h))
  | inr h ↦ rw h refl
]

pub listed-insert_visibility :
    (v : String) (x u : Url) (m : List (String × UrlSet))
    → listed v u (insert_visibility v x m) ≡ (same_url x u || listed v u m)
unfolding insert_visibility
listed-insert_visibility v x u [] = rw (=s_refl v) refl
listed-insert_visibility v x u ((w, urls) ∷ m) = elim (Bool-cases (w =s v)) [
  | inl e ↦ rw e (rw e (any-insert_url x u urls))
  | inr e ↦ rw e (rw e (listed-insert_visibility v x u m))
]
