-- ===== src/Resources/Headers/Order.antt =====
-- The header lists of a route do not depend on the order in which Go's maps are iterated.
use mathlib.Core.List.{Permᴰ}
use Prim.Native.String.{compare}
use text.Mathlib.Text.{is_le}
use net_gateway_api.Base.{String, ◌≡◌, true, arith}
use net_gateway_api.Base.Text.{◌≤s◌, ≤s_trans, ≤s_total, ≤s_antisymm}
use net_gateway_api.Base.Sort.{IsOrder, Untied, map-permᴰ, Pairs, Untied-map, sort-eq_of_permᴰ}
use net_gateway_api.Model.Names.{StringMap}
use net_gateway_api.Model.Gateway.{HttpHeaderMatch}
use net_gateway_api.Resources.Headers.{
  compare_http_header, not_after, sort_headers, headers_of, match_less, match_not_after,
  sort_matches, matches_of,
}

pub not_after-IsOrder : IsOrder not_after
unfolding compare_http_header ◌≤s◌
not_after-IsOrder = record {
  total = λ x y. ≤s_total x.name y.name;
  trans = λ x y z. ≤s_trans x.name y.name z.name;
}

pub match-IsOrder : IsOrder match_not_after
unfolding match_less
match-IsOrder = record {
  total = λ x y h. ground (arith, ≤s_total y.name x.name);
  trans = λ x y z p q. ground (arith, ≤s_trans z.name y.name x.name);
}

name_antisymm : (k j : String) → is_le (compare k j) ≡ true → is_le (compare j k) ≡ true → k ≡ j
unfolding ◌≤s◌
name_antisymm = ≤s_antisymm

-- No key is met twice, as in a map.
abbrev pub KeysDistinct : StringMap → Type 0
KeysDistinct = Pairs (λ p q. ¬ (p.0 ≡ q.0))

headers_of-Untied : (m : StringMap) → KeysDistinct m → Untied not_after (headers_of m)
unfolding headers_of compare_http_header
headers_of-Untied =
    Untied-map not_after _ (λ p q. ¬ (p.0 ≡ q.0)) (λ p q h a b. h (name_antisymm p.0 q.0 a b))

match_antisymm :
    (a b : HttpHeaderMatch)
    → match_not_after a b ≡ true
    → match_not_after b a ≡ true
    → a.name ≡ b.name
unfolding match_less
match_antisymm a b p q = ≤s_antisymm a.name b.name (ground arith) (ground arith)

matches_of-Untied : (m : StringMap) → KeysDistinct m → Untied match_not_after (matches_of m)
unfolding matches_of
matches_of-Untied =
    Untied-map match_not_after _ (λ p q. ¬ (p.0 ≡ q.0)) (λ p q h a b. h (match_antisymm _ _ a b))

-- The headers that a filter sets, and the header matches of a rule, are the same for every order
-- in which the entries of their map are met. The keys of a map are distinct.
pub sort_headers-eq_of_permᴰ :
    {m n : StringMap}
    → Permᴰ m n
    → KeysDistinct m
    → (sort_headers (headers_of m) ≡ sort_headers (headers_of n))
      × (sort_matches (matches_of m) ≡ sort_matches (matches_of n))
unfolding sort_headers sort_matches headers_of matches_of
sort_headers-eq_of_permᴰ {m} p h = (
  sort-eq_of_permᴰ not_after not_after-IsOrder (map-permᴰ _ p) (headers_of-Untied m h),
  sort-eq_of_permᴰ match_not_after match-IsOrder (map-permᴰ _ p) (matches_of-Untied m h),
)
