-- ===== src/Resources/Headers.antt =====
-- The header lists of pkg/reconciler/ingress/resources/httproute.go, and their orders.
pub mod Order
use Prim.Native.Nat.{Ordering}
use Prim.Native.String.{compare}
use text.Mathlib.Text.{is_le}
use net_gateway_api.Base.{Bool, not, List, map, length, get_elem?, set, some, none, ℕ, String}
use net_gateway_api.Base.Text.{◌≤s◌}
use net_gateway_api.Base.Sort.{sort}
use net_gateway_api.Model.Names.{StringMap}
use net_gateway_api.Model.Gateway.{HttpHeader, HttpHeaderMatch}
use net_gateway_api.Resources.Constants.{exact}

unfoldable pub compare_http_header : HttpHeader → HttpHeader → Ordering
compare_http_header a b = compare a.name b.name

-- `slices.SortFunc(headers, compareHTTPHeader)`
abbrev pub not_after : HttpHeader → HttpHeader → Bool
not_after a b = is_le (compare_http_header a b)

unfoldable pub sort_headers : List HttpHeader → List HttpHeader
unfolding compare_http_header sort
sort_headers = sort not_after

-- The loop `for k, v := range m` that appends a header for each entry.
unfoldable pub headers_of : StringMap → List HttpHeader
headers_of = map (λ (k, v). record { name = k; value = v })

-- `HTTPHeaderMatchList.Less` on the two items that it compares: names in descending order.
unfoldable pub match_less : HttpHeaderMatch → HttpHeaderMatch → Bool
unfolding ◌≤s◌
match_less a b = not (a.name ≤s b.name)

abbrev pub match_not_after : HttpHeaderMatch → HttpHeaderMatch → Bool
match_not_after a b = not (match_less b a)

-- `sort.Sort(HTTPHeaderMatchList(headerMatchList))`
unfoldable pub sort_matches : List HttpHeaderMatch → List HttpHeaderMatch
unfolding match_less sort
sort_matches = sort match_not_after

-- The loop `for k, v := range path.Headers`.
unfoldable pub matches_of : StringMap → List HttpHeaderMatch
matches_of = map (λ (k, v). record { type = some exact; name = k; value = v })
