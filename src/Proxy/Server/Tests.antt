-- ===== src/Proxy/Server/Tests.antt =====
-- The request handler at concrete requests.
use model_id.Base.{◌≡◌, ◌&&◌, refl, true, false, none, some, list_eq, nat_eq, ◌==◌}
use model_id.Base.Text.{codes, strip_prefix, starts_with, split, split_once}
use model_id.Proxy.Config.{default}
use model_id.Proxy.Server.{Request, handle_request, route}
use model_id.Proxy.Server.Url.{
  HfProxyParts, match_hf_proxy_url, join, IsProxyUrl, match_hf_proxy_url-IsProxyUrl,
}
use model_id.Proxy.Server.Gate.{Serves, IsAdmitted, handle_request_exact}

abbrev list_request : Request
list_request = record {
  is_get = true;
  url = codes "/v1/models";
  peer_ip = codes "127.0.0.1";
  authorization = some (codes "Bearer made-up");
  range = none;
}

handle_request_exact_example :
    (Serves (handle_request default list_request) → IsAdmitted default list_request)
    × (IsAdmitted default list_request
        → (list_request.url == codes "/health" && list_request.is_get) ≡ false
        → handle_request default list_request ≡ route list_request)
handle_request_exact_example = handle_request_exact default list_request

abbrev nested_file : HfProxyParts
nested_file = record {
  org = codes "org";
  repo = codes "repo";
  revision = codes "main";
  file = codes "sub/a.gguf";
}

match_hf_proxy_url-IsProxyUrl_example :
    IsProxyUrl (codes "/v1/hf-proxy/org/repo/resolve/main/sub/a.gguf") nested_file
unfolding match_hf_proxy_url strip_prefix starts_with split join split_once list_eq nat_eq
match_hf_proxy_url-IsProxyUrl_example =
    match_hf_proxy_url-IsProxyUrl (codes "/v1/hf-proxy/org/repo/resolve/main/sub/a.gguf")
      nested_file refl
