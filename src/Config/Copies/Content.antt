-- ===== src/Config/Copies/Content.antt =====
-- What the pointers of a configuration stand for, and which changes of the memory keep it.
use net_gateway_api.Base.{
  ℕ, zero, suc, ◌≤◌, String, ◌≡◌, refl, sym, ap, ◌∙◌, Option, none, some, List, [], ◌∷◌, ◌++◌,
  length, get_elem?, set, arith, inl, inr, Option-cases,
}
use net_gateway_api.Config.{Gateway, GatewayPlugin}
use net_gateway_api.Model.Names.{NamespacedName}
use net_gateway_api.Config.Copies.{
  GatewayRef, PluginRef, Cell, Heap, service_in, features_in, gateways_in,
}

-- What a pointer stands for in a heap; a nil slice or map stands for an empty one.
abbrev pub IsService : Heap → Option ℕ → Option NamespacedName → Type 0
IsService h none o = o ≡ none
IsService h (some a) none = ⊥
IsService h (some a) (some name) = service_in (get_elem? h a) ≡ some name

abbrev pub IsFeatures : Heap → Option ℕ → List String → Type 0
IsFeatures h none names = names ≡ []
IsFeatures h (some a) names = features_in (get_elem? h a) ≡ some names

abbrev pub IsGateway : Heap → GatewayRef → Gateway → Type 0
IsGateway h r gw =
    ((r.namespaced_name ≡ gw.namespaced_name) × (r.class ≡ gw.class))
    × (IsService h r.service gw.service × IsFeatures h r.supported_features gw.supported_features)

abbrev pub AreGateways : Heap → List GatewayRef → List Gateway → Type 0
AreGateways h [] [] = Unit
AreGateways h [] (gw ∷ gws) = ⊥
AreGateways h (r ∷ rs) [] = ⊥
AreGateways h (r ∷ rs) (gw ∷ gws) = IsGateway h r gw × AreGateways h rs gws

abbrev pub IsSlice : Heap → Option ℕ → List Gateway → Type 0
IsSlice h none gws = gws ≡ []
IsSlice h (some a) gws =
    (rs : List GatewayRef) × ((gateways_in (get_elem? h a) ≡ some rs) × AreGateways h rs gws)

abbrev pub IsPlugin : Heap → PluginRef → GatewayPlugin → Type 0
IsPlugin h r p =
    IsSlice h r.external_gateways p.external_gateways × IsSlice h r.local_gateways p.local_gateways

-- The cells of a heap are in another one.
abbrev pub Keeps : Heap → Heap → Type 0
Keeps h h' = (a : ℕ) (c : Cell) → get_elem? h a ≡ some c → get_elem? h' a ≡ some c

pub Keeps-append : (h t : Heap) → Keeps h (h ++ t)
Keeps-append [] t a c e = cc e
Keeps-append (x ∷ h) t zero c e = e
Keeps-append (x ∷ h) t (suc a) c e = Keeps-append h t a c e

-- A write outside of a heap.
pub Keeps-set : (h h' : Heap) (a : ℕ) (c : Cell) → length h ≤ a → Keeps h h' → Keeps h (set h' a c)
Keeps-set [] h' a c l k b d e = cc e
Keeps-set (x ∷ h) h' zero c l k b d e = absurd (omega (arith, l))
Keeps-set (x ∷ h) [] (suc a) c l k b d e = k b d e
Keeps-set (x ∷ h) (y ∷ h') (suc a) c l k zero d e = k zero d e
Keeps-set (x ∷ h) (y ∷ h') (suc a) c l k (suc b) d e =
    Keeps-set h h' a c (omega (arith, l)) (λ i. k (suc i)) b d e

abbrev pub Content : Type 0 → Type 0
Content A = Option Cell → Option A

-- The content of a cell that is kept.
pub content-Keeps :
    {A : Type 0} (content : Content A) (h h' : Heap) (a : ℕ) (x : A)
    → content none ≡ none
    → Keeps h h'
    → content (get_elem? h a) ≡ some x
    → content (get_elem? h' a) ≡ some x
content-Keeps content h h' a x z k e = elim (Option-cases (get_elem? h a)) [
  | inl n ↦ absurd (cc (n, z, e))
  | inr (c, n) ↦ ap content (k a c n ∙ sym n) ∙ e
]

pub IsService-Keeps :
    (h h' : Heap) (p : Option ℕ) (o : Option NamespacedName)
    → Keeps h h'
    → IsService h p o
    → IsService h' p o
IsService-Keeps h h' none o k i = i
IsService-Keeps h h' (some a) none k i = absurd i
IsService-Keeps h h' (some a) (some name) k i = content-Keeps service_in h h' a name refl k i

pub IsFeatures-Keeps :
    (h h' : Heap) (p : Option ℕ) (names : List String)
    → Keeps h h'
    → IsFeatures h p names
    → IsFeatures h' p names
IsFeatures-Keeps h h' none names k i = i
IsFeatures-Keeps h h' (some a) names k i = content-Keeps features_in h h' a names refl k i

pub IsGateway-Keeps :
    (h h' : Heap) (r : GatewayRef) (gw : Gateway)
    → Keeps h h'
    → IsGateway h r gw
    → IsGateway h' r gw
IsGateway-Keeps h h' r gw k (n, (s, f)) = (
  n,
  (
    IsService-Keeps h h' r.service gw.service k s,
    IsFeatures-Keeps h h' r.supported_features gw.supported_features k f,
  ),
)

pub AreGateways-Keeps :
    (h h' : Heap) (rs : List GatewayRef) (gws : List Gateway)
    → Keeps h h'
    → AreGateways h rs gws
    → AreGateways h' rs gws
AreGateways-Keeps h h' [] [] k i = tt
AreGateways-Keeps h h' [] (gw ∷ gws) k i = absurd i
AreGateways-Keeps h h' (r ∷ rs) [] k i = absurd i
AreGateways-Keeps h h' (r ∷ rs) (gw ∷ gws) k (i, is) =
    (IsGateway-Keeps h h' r gw k i, AreGateways-Keeps h h' rs gws k is)

pub IsSlice-Keeps :
    (h h' : Heap) (p : Option ℕ) (gws : List Gateway)
    → Keeps h h'
    → IsSlice h p gws
    → IsSlice h' p gws
IsSlice-Keeps h h' none gws k i = i
IsSlice-Keeps h h' (some a) gws k (rs, (e, is)) =
    (rs, (content-Keeps gateways_in h h' a rs refl k e, AreGateways-Keeps h h' rs gws k is))
