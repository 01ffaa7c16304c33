-- ===== src/Proxy/Server.antt =====
-- crates/modeld-proxy/src/server.rs: which requests are admitted, and where they go. A request is
-- what tiny_http hands over: its headers are the values of the first header of that name.
pub mod Url
pub mod Gate
mod Tests
use model_id.Base.{
  Bool, true, false, ◌&&◌, not, Option, none, some, ℕ, if◌then◌else◌, list_eq, nat_eq, ◌==◌, List,
}
use model_id.Base.Text.{Text, codes, strip_prefix}
use model_id.Proxy.Config.{ProxyConfig}
use model_id.Proxy.Auth.{check_auth, check_ip}
use model_id.Proxy.Server.Url.{HfProxyParts, match_blob_url, match_hf_proxy_url}

pub record Request : Type 0 where
  pub is_get : Bool
  pub url : Text
  pub peer_ip : Text
  pub authorization : Option Text
  pub range : Option Text

pub data Route : Type 0 where
  health : Route
  list_models : Route
  get_blob : Text → Route
  hf_proxy : HfProxyParts → Route
  -- an answer without a handler: the status code
  refused : ℕ → Route

unfoldable pub bearer_token : Request → Option Text
bearer_token r = elim r.authorization [ none ↦ none | some v ↦ strip_prefix (codes "Bearer ") v ]

abbrev pub is_none {ℓ} : {A : Type ℓ} → Option A → Bool
is_none none = true
is_none (some a) = false

abbrev if_get : Bool → Route → Route
if_get is_get r = if is_get then r else refused 405

abbrev hf_route : Bool → Option HfProxyParts → Route
hf_route is_get (some parts) = if_get is_get (hf_proxy parts)
hf_route is_get none = refused 404

abbrev blob_route : Request → Option Text → Route
blob_route r (some hash) = if_get r.is_get (get_blob hash)
blob_route r none = hf_route r.is_get (match_hf_proxy_url r.url)

-- The route table of `handle_request`.
unfoldable pub route : Request → Route
route r =
    if r.url == codes "/v1/models" && r.is_get
    then list_models
    else blob_route r (match_blob_url r.url)

unfoldable pub handle_request : ProxyConfig → Request → Route
handle_request cfg r =
    if r.url == codes "/health" && r.is_get
    then health
    else if not (check_ip r.peer_ip cfg.network)
    then refused 403
    else if not cfg.network.allow_anonymous && is_none (bearer_token r)
    then refused 401
    else if not (check_auth (bearer_token r) cfg.auth)
    then refused 401
    else route r
