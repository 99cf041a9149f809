-- ===== src/Resources/Probes/Removal.antt =====
-- `RemoveEndpointProbes` of pkg/reconciler/ingress/resources/httproute.go against the rules that
-- it is meant to leave, and against the rules that `AddEndpointProbe` and `AddOldBackend` add.
use mathlib.Core.List.{append_assoc}
use text.Mathlib.TextLemmas
use net_gateway_api.Base.{
  ℕ, zero, suc, String, ◌<>◌, ◌≡◌, refl, sym, ap, if◌then◌else◌, ◌∙◌, Bool, true, false, not, List,
  [], ◌∷◌, ◌++◌, length, All, All-append, any, keep, concat_map, arith, inl, inr, Bool-cases,
}
use net_gateway_api.Base.Text.{has_prefix, has_prefix-append}
use net_gateway_api.Model.Gateway.{HttpRouteMatch, HttpRouteRule, HttpRoute, HttpBackendRef}
use net_gateway_api.Model.Ingress.{IngressBackendSplit}
use net_gateway_api.Resources.Probes.{
  with_rules, is_endpoint_match, kept_copies, remove_endpoint_probes, probe_matches, endpoint_path,
  add_endpoint_probe, add_old_backend,
}

-- A rule that has exactly one match, as the rules that this controller makes.
abbrev pub HasOneMatch : HttpRouteRule → Type 0
HasOneMatch rule = length rule.matches ≡ 1

abbrev pub is_traffic : HttpRouteRule → Bool
is_traffic rule = not (any is_endpoint_match rule.matches)

kept_copies_one :
    (rule : HttpRouteRule) (ms : List HttpRouteMatch) (rest : List HttpRouteRule)
    → length ms ≡ 1
    → kept_copies rule ms ++ rest ≡ keep (λ _. not (any is_endpoint_match ms)) (rule ∷ []) ++ rest
unfolding kept_copies
kept_copies_one rule [] rest h = absurd (omega arith)
kept_copies_one rule (m ∷ []) rest h = ground arith
kept_copies_one rule (m ∷ n ∷ ms) rest h = absurd (omega arith)

kept_rules :
    (rules : List HttpRouteRule)
    → All HasOneMatch rules
    → concat_map (λ rule. kept_copies rule rule.matches) rules ≡ keep is_traffic rules
kept_rules [] h = refl
kept_rules (rule ∷ rules) (h, hs) =
    kept_copies_one rule rule.matches _ h ∙ ground (arith, kept_rules rules hs)

-- Of a route whose rules have one match each, `RemoveEndpointProbes` keeps, in order and once
-- each, the rules whose match is not under the probe path, and nothing else.
pub remove_endpoint_probes-eq-keep :
    (r : HttpRoute)
    → All HasOneMatch r.spec.rules
    → remove_endpoint_probes r ≡ with_rules r (keep is_traffic r.spec.rules)
unfolding remove_endpoint_probes
remove_endpoint_probes-eq-keep r h = rw (kept_rules r.spec.rules h)

abbrev pub replicate {ℓ} : {A : Type ℓ} → ℕ → A → List A
replicate zero a = []
replicate (suc n) a = a ∷ replicate n a

-- The matches before the first one that is under the probe path.
abbrev pub before_probe : List HttpRouteMatch → List HttpRouteMatch
before_probe [] = []
before_probe (m ∷ ms) = let rest = before_probe ms in if is_endpoint_match m then [] else m ∷ rest

copies :
    (rule : HttpRouteRule) (ms : List HttpRouteMatch)
    → kept_copies rule ms ≡ replicate (length (before_probe ms)) rule
unfolding kept_copies
copies rule [] = refl
copies rule (m ∷ ms) = elim (Bool-cases (is_endpoint_match m)) [
  | inl e ↦ rw e refl
  | inr e ↦ rw e (ap (◌∷◌ rule) (copies rule ms))
]

concat_map-append {ℓ κ} :
    {A : Type ℓ} {B : Type κ} (f : A → List B) (xs ys : List A)
    → concat_map f (xs ++ ys) ≡ concat_map f xs ++ concat_map f ys
concat_map-append f [] ys = refl
concat_map-append f (x ∷ xs) ys =
    ap (λ l. f x ++ l) (concat_map-append f xs ys)
    ∙ sym (append_assoc (f x) (concat_map f xs) (concat_map f ys))

-- Wherever a rule stands, `RemoveEndpointProbes` keeps it as often as it has matches before the
-- first one under the probe path, in its place between what is kept of the rules before it and of
-- those after it: a rule without probes is doubled by a second match, and lost without one.
pub remove_endpoint_probes_copies :
    (r : HttpRoute) (before after : List HttpRouteRule) (rule : HttpRouteRule)
    → (remove_endpoint_probes (with_rules r (before ++ rule ∷ after))).spec.rules
      ≡ (remove_endpoint_probes (with_rules r before)).spec.rules
        ++ (replicate (length (before_probe rule.matches)) rule
            ++ (remove_endpoint_probes (with_rules r after)).spec.rules)
unfolding remove_endpoint_probes
remove_endpoint_probes_copies r before after rule =
    let kept : HttpRouteRule → List HttpRouteRule = λ rule. kept_copies rule rule.matches in
    concat_map-append kept before (rule ∷ after)
    ∙ ap (λ l. concat_map kept before ++ (l ++ concat_map kept after)) (copies rule rule.matches)

pub endpoint_path-prefix :
    (s : String) → has_prefix ("/.well-known/knative/revision/" <> s) endpoint_path ≡ true
endpoint_path-prefix s =
    ap (λ t. has_prefix t endpoint_path)
      (TextLemmas.append_assoc "/.well-known/knative" "/revision/" s)
    ∙ has_prefix-append "/.well-known/knative" ("/revision/" <> s)

probe_matches-copies :
    (rule : HttpRouteRule) (namespace name : String)
    → kept_copies rule (probe_matches namespace name) ≡ []
unfolding kept_copies probe_matches is_endpoint_match
probe_matches-copies rule namespace name = rw (endpoint_path-prefix (namespace <> "/" <> name))

concat_map-skip {ℓ κ} :
    {A : Type ℓ} {B : Type κ} (f : A → List B) (xs : List A) (x : A)
    → f x ≡ []
    → concat_map f (xs ++ x ∷ []) ≡ concat_map f xs
concat_map-skip f [] x e = rw e
concat_map-skip f (y ∷ ys) x e = ap (λ l. f y ++ l) (concat_map-skip f ys x e)

-- A rule that is removed may be added without a difference.
add_removed :
    (r : HttpRoute) (rule : HttpRouteRule)
    → kept_copies rule rule.matches ≡ []
    → remove_endpoint_probes (with_rules r (r.spec.rules ++ rule ∷ [])) ≡ remove_endpoint_probes r
unfolding remove_endpoint_probes
add_removed r rule e = ap (with_rules r) (concat_map-skip _ r.spec.rules rule e)

-- The probes that the controller adds are removed again: `RemoveEndpointProbes` takes away what
-- `AddEndpointProbe` and `AddOldBackend` have added, and treats the other rules alike.
pub remove_endpoint_probes-add :
    (r : HttpRoute) (hash : String) (backend : IngressBackendSplit) (old : HttpBackendRef)
    → (remove_endpoint_probes (add_endpoint_probe r hash backend) ≡ remove_endpoint_probes r)
      × (remove_endpoint_probes (add_old_backend r hash old) ≡ remove_endpoint_probes r)
unfolding add_endpoint_probe add_old_backend
remove_endpoint_probes-add r hash backend old = (
  add_removed r _ (probe_matches-copies _ backend.service_namespace backend.service_name),
  add_removed r _ (probe_matches-copies _ r.namespace old.name),
)

-- A first match that is not under the probe path keeps the rule.
pub kept_copies-first :
    (rule : HttpRouteRule) (m : HttpRouteMatch) (ms : List HttpRouteMatch)
    → is_endpoint_match m ≡ false
    → kept_copies rule (m ∷ ms) ≡ rule ∷ kept_copies rule ms
unfolding kept_copies
kept_copies-first rule m ms e = rw e refl

kept_copies-All :
    (P : HttpRouteRule → Type 0) (rule : HttpRouteRule) (ms : List HttpRouteMatch)
    → P rule
    → All P (kept_copies rule ms)
unfolding kept_copies
kept_copies-All P rule [] h = tt
kept_copies-All P rule (m ∷ ms) h = elim (Bool-cases (is_endpoint_match m)) [
  | inl e ↦ rw e tt
  | inr e ↦ rw e (h, kept_copies-All P rule ms h)
]

concat_copies-All :
    (P : HttpRouteRule → Type 0) (rules : List HttpRouteRule)
    → All P rules
    → All P (concat_map (λ rule. kept_copies rule rule.matches) rules)
concat_copies-All P [] h = tt
concat_copies-All P (rule ∷ rules) (h, hs) =
    All-append P (kept_copies rule rule.matches) _ (kept_copies-All P rule rule.matches h)
      (concat_copies-All P rules hs)

-- `RemoveEndpointProbes` makes no new rules.
pub remove_endpoint_probes-All :
    (P : HttpRouteRule → Type 0) (r : HttpRoute)
    → All P r.spec.rules
    → All P (remove_endpoint_probes r).spec.rules
unfolding remove_endpoint_probes
remove_endpoint_probes-All P r h = concat_copies-All P r.spec.rules h
