-- ===== src/Config/Copies/Fresh.antt =====
-- The content and the memory of the copies that zz_generated.deepcopy.go makes.
use net_gateway_api.Base.{
  ℕ, ◌≤◌, String, ◌≡◌, refl, ap, Option, none, some, List, [], ◌∷◌, ◌++◌, length, get_elem?, set,
  All, arith, length-append,
}
use net_gateway_api.Config.{Gateway, GatewayPlugin}
use net_gateway_api.Model.Names.{NamespacedName}
use net_gateway_api.Status.Store.{get_elem?-last}
use net_gateway_api.Config.Copies.{
  GatewayRef, PluginRef, Cell, service_cell, features_cell, gateways_cell, Heap, gateways_in,
  copy_service, copy_features, copy_gateway, copy_loop, copy_slice, copy_plugin,
}
use net_gateway_api.Config.Copies.Content.{
  IsService, IsFeatures, IsGateway, AreGateways, IsSlice, IsPlugin, Keeps, Keeps-append, Keeps-set,
  IsService-Keeps, IsFeatures-Keeps, AreGateways-Keeps, IsGateway-Keeps, content-Keeps,
  IsSlice-Keeps,
}

-- Addresses from `n` on.
abbrev pub FreshPointer : ℕ → Option ℕ → Type 0
FreshPointer n none = Unit
FreshPointer n (some a) = n ≤ a

abbrev pub FreshGateway : ℕ → GatewayRef → Type 0
FreshGateway n r = FreshPointer n r.service × FreshPointer n r.supported_features

-- A copy from a heap to a longer one of which nothing is lost.
abbrev pub Grows : ℕ → Heap → Heap → Type 0
Grows n h h' = (n ≤ length h') × Keeps h h'

snoc-Grows : (n : ℕ) (h : Heap) (c : Cell) → n ≤ length h → Grows n h (h ++ c ∷ [])
snoc-Grows n h c l = (omega (arith, l, length-append h (c ∷ [])), Keeps-append h (c ∷ []))

Grows-step : (n : ℕ) (h h' h'' : Heap) → Grows n h h' → Grows n h' h'' → Grows n h h''
Grows-step n h h' h'' (l, k) (l', k') = (l', λ a c e. k' a c (k a c e))

copy_service-Fresh :
    (n : ℕ) (h : Heap) (p : Option ℕ) (o : Option NamespacedName)
    → n ≤ length h
    → IsService h p o
    → let (h', p') = copy_service h p in Grows n h h' × (IsService h' p' o × FreshPointer n p')
unfolding copy_service
copy_service-Fresh n h none o l i = ((l, λ a c e. e), (i, tt))
copy_service-Fresh n h (some a) none l i = absurd i
copy_service-Fresh n h (some a) (some name) l i =
    rw (i, copy_service)
      (snoc-Grows n h (service_cell name) l, (rw (get_elem?-last h (service_cell name)) refl, l))

copy_features-Fresh :
    (n : ℕ) (h : Heap) (p : Option ℕ) (names : List String)
    → n ≤ length h
    → IsFeatures h p names
    → let (h', p') = copy_features h p in
      Grows n h h' × (IsFeatures h' p' names × FreshPointer n p')
unfolding copy_features
copy_features-Fresh n h none names l i = ((l, λ a c e. e), (i, tt))
copy_features-Fresh n h (some a) names l i =
    rw (i, copy_features)
      (
        snoc-Grows n h (features_cell names) l,
        (rw (get_elem?-last h (features_cell names)) refl, l),
      )

copy_gateway-Fresh :
    (n : ℕ) (h : Heap) (r : GatewayRef) (gw : Gateway)
    → n ≤ length h
    → IsGateway h r gw
    → let (h', r') = copy_gateway h r in Grows n h h' × (IsGateway h' r' gw × FreshGateway n r')
unfolding copy_gateway
copy_gateway-Fresh n h r gw l (m, (s, f)) =
    let (h1, p1) = copy_service h r.service in
    let (g1, (s1, q1)) = copy_service-Fresh n h r.service gw.service l s in
    let (h2, p2) = copy_features h1 r.supported_features in
    let (g2, (f2, q2)) =
      copy_features-Fresh n h1 r.supported_features gw.supported_features g1.0
        (IsFeatures-Keeps h h1 r.supported_features gw.supported_features g1.1 f) in
    (Grows-step n h h1 h2 g1 g2, ((m, (IsService-Keeps h1 h2 p1 gw.service g2.1 s1, f2)), (q1, q2)))

copy_loop-Fresh :
    (n : ℕ) (h : Heap) (rs : List GatewayRef) (gws : List Gateway)
    → n ≤ length h
    → AreGateways h rs gws
    → let (h', rs') = copy_loop h rs in
      Grows n h h' × (AreGateways h' rs' gws × All (FreshGateway n) rs')
unfolding copy_loop
copy_loop-Fresh n h [] [] l i = ((l, λ a c e. e), (tt, tt))
copy_loop-Fresh n h [] (gw ∷ gws) l i = absurd i
copy_loop-Fresh n h (r ∷ rs) [] l i = absurd i
copy_loop-Fresh n h (r ∷ rs) (gw ∷ gws) l (i, is) =
    let (h1, r') = copy_gateway h r in
    let (g1, (i1, q1)) = copy_gateway-Fresh n h r gw l i in
    let (h2, rs') = copy_loop h1 rs in
    let (g2, (i2, q2)) = copy_loop-Fresh n h1 rs gws g1.0 (AreGateways-Keeps h h1 rs gws g1.1 is) in
    (Grows-step n h h1 h2 g1 g2, ((IsGateway-Keeps h1 h2 r' gw g2.1 i1, i2), (q1, q2)))

-- A slice and its elements lie at addresses from `n` on.
abbrev pub FreshSlice : ℕ → Heap → Option ℕ → Type 0
FreshSlice n h none = Unit
FreshSlice n h (some a) =
    (n ≤ a)
    × ((rs : List GatewayRef) × ((gateways_in (get_elem? h a) ≡ some rs) × All (FreshGateway n) rs))

FreshSlice-Keeps :
    (n : ℕ) (h h' : Heap) (p : Option ℕ) → Keeps h h' → FreshSlice n h p → FreshSlice n h' p
FreshSlice-Keeps n h h' none k f = f
FreshSlice-Keeps n h h' (some a) k (l, (rs, (e, fs))) =
    (l, (rs, (content-Keeps gateways_in h h' a rs refl k e, fs)))

copy_slice-Fresh :
    (n : ℕ) (h : Heap) (p : Option ℕ) (gws : List Gateway)
    → n ≤ length h
    → IsSlice h p gws
    → let (h', p') = copy_slice h p in Grows n h h' × (IsSlice h' p' gws × FreshSlice n h' p')
unfolding copy_slice
copy_slice-Fresh n h none gws l i = ((l, λ a c e. e), (i, tt))
copy_slice-Fresh n h (some a) gws l (rs, (e, is)) =
    let (h1, rs') = copy_loop h rs in
    let (g1, (i1, q1)) = copy_loop-Fresh n h rs gws l is in
    let g2 : Grows n h1 (h1 ++ gateways_cell rs' ∷ []) = snoc-Grows n h1 (gateways_cell rs') g1.0 in
    let at : gateways_in (get_elem? (h1 ++ gateways_cell rs' ∷ []) (length h1)) ≡ some rs' =
      ap gateways_in (get_elem?-last h1 (gateways_cell rs')) in
    rw (e, copy_slice)
      (
        Grows-step n h h1 (h1 ++ gateways_cell rs' ∷ []) g1 g2,
        (
          (rs', (at, AreGateways-Keeps h1 (h1 ++ gateways_cell rs' ∷ []) rs' gws g2.1 i1)),
          (g1.0, (rs', (at, q1))),
        ),
      )

abbrev pub FreshPlugin : ℕ → Heap → PluginRef → Type 0
FreshPlugin n h p = FreshSlice n h p.external_gateways × FreshSlice n h p.local_gateways

copy_plugin-Fresh :
    (n : ℕ) (h : Heap) (p : PluginRef) (v : GatewayPlugin)
    → n ≤ length h
    → IsPlugin h p v
    → let (h', p') = copy_plugin h p in Grows n h h' × (IsPlugin h' p' v × FreshPlugin n h' p')
unfolding copy_plugin
copy_plugin-Fresh n h p v l (e, o) =
    let (h1, p1) = copy_slice h p.external_gateways in
    let (g1, (i1, q1)) = copy_slice-Fresh n h p.external_gateways v.external_gateways l e in
    let (h2, p2) = copy_slice h1 p.local_gateways in
    let (g2, (i2, q2)) =
      copy_slice-Fresh n h1 p.local_gateways v.local_gateways g1.0
        (IsSlice-Keeps h h1 p.local_gateways v.local_gateways g1.1 o) in
    (
      Grows-step n h h1 h2 g1 g2,
      (
        (IsSlice-Keeps h1 h2 p1 v.external_gateways g2.1 i1, i2),
        (FreshSlice-Keeps n h1 h2 p1 g2.1 q1, q2),
      ),
    )

-- A deep copy of a configuration has its content; its slices, services and features all lie in
-- new cells; and whatever is written to a cell that is new, the original keeps its content.
pub copy_plugin-IsPlugin :
    (h : Heap) (p : PluginRef) (v : GatewayPlugin) (a : ℕ) (c : Cell)
    → IsPlugin h p v
    → length h ≤ a
    → let (h', p') = copy_plugin h p in
      IsPlugin h' p' v × (FreshPlugin (length h) h' p' × IsPlugin (set h' a c) p v)
copy_plugin-IsPlugin h p v a c i l =
    let (h', p') = copy_plugin h p in
    let (g, (j, f)) = copy_plugin-Fresh (length h) h p v (omega arith) i in
    let k : Keeps h (set h' a c) = Keeps-set h h' a c l g.1 in
    (
      j,
      (
        f,
        (
          IsSlice-Keeps h (set h' a c) p.external_gateways v.external_gateways k i.0,
          IsSlice-Keeps h (set h' a c) p.local_gateways v.local_gateways k i.1,
        ),
      ),
    )
