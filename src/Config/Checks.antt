-- ===== src/Config/Checks.antt =====
-- What `FromConfigMap` of pkg/reconciler/ingress/config/gateway.go accepts.
use mathlib.Core.Path.{subst}
use net_gateway_api.Base.{
  String, ◌≡◌, ◌⊎◌, refl, false, List, [], ◌∷◌, Result, ok, >>=-eq-ok, ok-injective, sym, ap, ◌∙◌,
  arith, inl, inr,
}
use net_gateway_api.Model.Names.{StringMap}
use net_gateway_api.Config.{
  Gateway, GatewayPlugin, GatewayEntry, Parsers, first, external_gateway, local_gateway,
  default_external_gateways, default_local_gateways, is_blank, check_class, lookup, parse_service,
  parse_entry, parse_entries, parse_key, one_or_default, from_config_map,
}

one_or_default-one :
    (kind : String) (defaults gws : List Gateway) {gws' : List Gateway}
    → one_or_default kind defaults gws ≡ ok gws'
    → ((gws ≡ []) × (gws' ≡ defaults)) ⊎ ((gw : Gateway) × (gws ≡ gw ∷ []) × (gws' ≡ gw ∷ []))
unfolding one_or_default
one_or_default-one kind defaults [] h = inl (refl, sym (ok-injective h))
one_or_default-one kind defaults (gw ∷ []) h = inr (gw, refl, sym (ok-injective h))
one_or_default-one kind defaults (gw ∷ gw' ∷ gws) h = cc

module _ (P : Parsers) where
  -- The gateways that a key asks for.
  abbrev pub asked : String → StringMap → Result (List Gateway)
  asked key cm = parse_key P key (lookup key cm)

  -- A list of gateways that the configuration gives: the one that a key asks for, or the default
  -- where it asks for none.
  abbrev pub IsChoice : Result (List Gateway) → List Gateway → Gateway → Type 0
  IsChoice r defaults gw = ((r ≡ ok []) × (defaults ≡ gw ∷ [])) ⊎ (r ≡ ok (gw ∷ []))

  choice :
      (kind : String) (default : Gateway) (r : Result (List Gateway)) (gws : List Gateway)
      {gws' : List Gateway}
      → r ≡ ok gws
      → one_or_default kind (default ∷ []) gws ≡ ok gws'
      → (gw : Gateway) × (gws' ≡ gw ∷ []) × IsChoice r (default ∷ []) gw
  choice kind default r gws e h = elim (one_or_default-one kind (default ∷ []) gws h) [
    | inl (none', all) ↦ (default, all, inl (e ∙ ap ok none', refl))
    | inr (gw, one, all) ↦ (gw, all, inr (e ∙ ap ok one))
  ]

  -- A configuration that is accepted has one external and one local gateway, so that the
  -- accessors of both never fail: the one that its key asks for, or the default where the key is
  -- absent or its list empty.
  pub from_config_map-single :
      (cm : StringMap) {g : GatewayPlugin}
      → from_config_map P cm ≡ ok g
      → (ext : Gateway) × (loc : Gateway) × (external_gateway g ≡ ok ext)
        × (local_gateway g ≡ ok loc)
        × IsChoice (asked "external-gateways" cm) default_external_gateways ext
        × IsChoice (asked "local-gateways" cm) default_local_gateways loc
  unfolding from_config_map external_gateway local_gateway
  from_config_map-single cm {g} h =
      let (e, e0, h1) = >>=-eq-ok (asked "external-gateways" cm) _ h in
      let (l, l0, h2) = >>=-eq-ok (asked "local-gateways" cm) _ h1 in
      let (e', e1, h3) = >>=-eq-ok (one_or_default "external" default_external_gateways e) _ h2 in
      let (l', l1, h4) = >>=-eq-ok (one_or_default "local" default_local_gateways l) _ h3 in
      let (ext, e2, e3) = choice "external" _ _ e e0 e1 in
      let (loc, l2, l3) = choice "local" _ _ l l0 l1 in
      let same = sym (ok-injective h4) in
      (
        ext,
        loc,
        ap first (ap (λ g. g.external_gateways) same ∙ e2),
        ap first (ap (λ g. g.local_gateways) same ∙ l2),
        e3,
        l3,
      )

  check_class-ok :
      (gw : Gateway) {gw' : Gateway}
      → check_class gw ≡ ok gw'
      → (gw' ≡ gw) × (is_blank gw.class ≡ false)
  unfolding check_class
  check_class-ok gw h = ground arith

  -- What an entry of the YAML text comes to.
  abbrev pub Parsed : GatewayEntry → Gateway → Type 0
  Parsed entry gw =
      (gw.class ≡ entry.class)
      × (is_blank gw.class ≡ false)
      × (gw.supported_features ≡ entry.supported_features)
      × (P.as_namespaced_name "gateway" entry.gateway ≡ ok gw.namespaced_name)
      × (parse_service P entry.service ≡ ok gw.service)

  parse_entry-Parsed :
      (entry : GatewayEntry) {gw : Gateway} → parse_entry P entry ≡ ok gw → Parsed entry gw
  unfolding parse_entry
  parse_entry-Parsed entry {gw} h =
      let (name, n, h1) = >>=-eq-ok (P.as_namespaced_name "gateway" entry.gateway) _ h in
      let (service, s, h2) = >>=-eq-ok (parse_service P entry.service) _ h1 in
      let (e, blank) = check_class-ok _ h2 in
      (ap (λ g. g.class) e, rw e blank, ap (λ g. g.supported_features) e, rw e n, rw e s)

  abbrev pub AllParsed : List GatewayEntry → List Gateway → Type 0
  AllParsed [] [] = Unit
  AllParsed [] (gw ∷ gws) = ⊥
  AllParsed (entry ∷ entries) [] = ⊥
  AllParsed (entry ∷ entries) (gw ∷ gws) = Parsed entry gw × AllParsed entries gws

  -- The gateways of an accepted text are its entries, in order, each with a class that is not
  -- blank.
  pub parse_entries-AllParsed :
      (entries : List GatewayEntry) (gws : List Gateway)
      → parse_entries P entries ≡ ok gws
      → AllParsed entries gws
  unfolding parse_entries
  parse_entries-AllParsed [] [] h = tt
  parse_entries-AllParsed [] (gw ∷ gws) h = cc
  parse_entries-AllParsed (entry ∷ entries) gws h =
      let (gw, e, more) = >>=-eq-ok (parse_entry P entry) _ h in
      let (rest, f, all) = >>=-eq-ok (parse_entries P entries) _ more in
      subst (AllParsed (entry ∷ entries)) (ok-injective all)
        (parse_entry-Parsed entry e, parse_entries-AllParsed entries rest f)
