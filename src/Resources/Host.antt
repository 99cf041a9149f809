-- ===== src/Resources/Host.antt =====
-- pkg/reconciler/ingress/resources/helpers.go
pub mod Greatest
use net_gateway_api.Base.{String, List, none, some, Result, ok, panic, last?}
use net_gateway_api.Base.Text.{◌≤s◌}
use net_gateway_api.Base.Sort.{sort}

-- `LongestHost`. `slices.Sort` sorts the caller's slice in place, so the result carries the slice
-- too; the index `len(hosts)-1` is out of range for no hosts.
unfoldable pub longest_host : List String → Result (String × List String)
unfolding ◌≤s◌ sort
longest_host hosts =
    let sorted = sort ◌≤s◌ hosts in
    elim (last? sorted) [ none ↦ panic "index out of range [-1]" | some host ↦ ok (host, sorted) ]
