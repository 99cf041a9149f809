-- ===== src/Examples/Gateways.antt =====
-- The theorems on the configuration, the Gateway's listeners and the grants, at concrete objects.
use mathlib.Core.List.{Permᴰ}
use net_gateway_api.Base.{◌≡◌, true, false, List, [], ◌∷◌, keep, All, ok}
use net_gateway_api.Model.Gateway.{Listener}
use net_gateway_api.Reconcile.Listeners.{find, merge_listeners, clear_listeners}
use net_gateway_api.Reconcile.Listeners.Clear.{others, clear_listeners-perm}
use net_gateway_api.Reconcile.Listeners.Again.{merge_listeners-again}
use net_gateway_api.Reconcile.Listeners.Merge.{
  overlay, find_last, is_foreign, find-merge_listeners, keep-merge_listeners,
}
use net_gateway_api.Examples.Objects.{listener}

abbrev existing : List Listener
existing = listener "http" "c.example" ∷ listener "kni-1" "a.example" ∷ []

abbrev desired : List Listener
desired = listener "kni-1" "b.example" ∷ listener "kni-2" "d.example" ∷ []

find-merge_listeners_example :
    find "kni-1" (merge_listeners existing desired).0
    ≡ overlay (find_last "kni-1" desired) (find "kni-1" existing)
find-merge_listeners_example = find-merge_listeners "kni-1" existing desired

merge_listeners-again_example :
    merge_listeners (merge_listeners existing desired).0 desired
    ≡ ((merge_listeners existing desired).0, false)
merge_listeners-again_example = merge_listeners-again existing desired

keep-merge_listeners_example :
    keep (λ l. is_foreign desired l.name) (merge_listeners existing desired).0
    ≡ keep (λ l. is_foreign desired l.name) existing
keep-merge_listeners_example = keep-merge_listeners existing desired

clear_listeners-perm_example :
    (ys : List Listener) × (clear_listeners "kni-1" existing ≡ ok ys)
    × Permᴰ ys (keep (others "kni-1") existing)
    × All (λ l. others "kni-1" l ≡ true) ys
clear_listeners-perm_example = clear_listeners-perm "kni-1" existing
