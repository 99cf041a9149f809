-- ===== src/Status/Types.antt =====
-- The data that pkg/status/status.go takes and gives, and its `Manager` interface.
use net_gateway_api.Base.{ℕ, String, Bool, List, [], ◌∷◌, any, if◌then◌else◌, Result}
use net_gateway_api.Base.Text.{◌=s◌}
use net_gateway_api.Model.Names.{NamespacedName, String-discrete, deep_equal}

-- url.URL
pub record Url : Type 0 where
  pub scheme : String
  pub host : String
  pub path : String

unfoldable pub Url-discrete : Discrete Url
unfolding String-discrete
Url-discrete = hlevel String-discrete

-- A set of URLs: no URL is listed twice.
abbrev pub UrlSet : Type 0
UrlSet = List Url

-- `sets.Set.Insert`
unfoldable pub insert_url : Url → UrlSet → UrlSet
unfolding Url-discrete
insert_url u urls = if any (λ v. deep_equal Url-discrete v u) urls then urls else u ∷ urls

pub record ProbeTarget : Type 0 where
  pub pod_ips : List String
  pub pod_port : String
  pub urls : List Url

pub record ProbeState : Type 0 where
  pub version : String
  pub ready : Bool

pub record Backends : Type 0 where
  pub callback_key : NamespacedName
  pub key : NamespacedName
  pub version : String
  pub urls : List (String × UrlSet)
  pub http_option : String

-- Insertion into the set of a visibility, which is made where it is missing.
unfoldable pub insert_visibility : String → Url → List (String × UrlSet) → List (String × UrlSet)
unfolding ◌=s◌ insert_url
insert_visibility v u [] = (v, insert_url u []) ∷ []
insert_visibility v u ((w, urls) ∷ m) =
    if w =s v then (w, insert_url u urls) ∷ m else (w, urls) ∷ insert_visibility v u m

-- `Backends.AddURL`
unfoldable pub add_url : Backends → String → Url → Backends
unfolding insert_visibility
add_url b v u = record b { urls = insert_visibility v u b.urls }

-- The interface `Manager`, over the state behind it. `do_probes` also takes the time.
pub record Manager : Type 1 where
  pub State : Type 0
  pub is_probe_active : NamespacedName → State → ProbeState × Bool
  pub do_probes : ℕ → Backends → State → State × Result ProbeState
