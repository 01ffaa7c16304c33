-- ===== src/Proxy/Server/Gate.antt =====
-- Who is admitted by `handle_request`.
use mathlib.Core.Bool.{not}
use model_id.Base.{
  ◌≡◌, ◌≢◌, refl, true, false, ◌&&◌, Option, none, some, arith, Bool-cases, inl, inr, list_eq,
  nat_eq, ◌==◌, contains,
}
use model_id.Base.Text.{Text, codes}
use model_id.Proxy.Config.{ProxyConfig, default}
use model_id.Proxy.Auth.{check_auth, check_ip}
use model_id.Proxy.Server.{
  Request, Route, list_models, get_blob, hf_proxy, handle_request, route, bearer_token, is_none,
}

-- The request reaches a handler that reads the store.
abbrev pub Serves : Route → Type 0
Serves list_models = Unit
Serves (get_blob h) = Unit
Serves (hf_proxy p) = Unit
Serves _ = ⊥

-- The conditions on address and credentials.
pub record IsAdmitted (cfg : ProxyConfig) (r : Request) : Type 0 where
  pub address : check_ip r.peer_ip cfg.network ≡ true
  pub named : cfg.network.allow_anonymous ≡ false → bearer_token r ≢ none
  pub listed :
      cfg.auth.require_token ≡ true
      → (t : Text) × (bearer_token r ≡ some t) × (contains cfg.auth.tokens t ≡ true)

listed_of_check :
    (cfg : ProxyConfig) (token : Option Text)
    → check_auth token cfg.auth ≡ true
    → cfg.auth.require_token ≡ true
    → (t : Text) × (token ≡ some t) × (contains cfg.auth.tokens t ≡ true)
unfolding check_auth
listed_of_check cfg none h q = absurd (ground arith)
listed_of_check cfg (some t) h q = (t, refl, ground arith)

check_of_listed :
    (cfg : ProxyConfig) (token : Option Text)
    → (cfg.auth.require_token ≡ true
        → (t : Text) × (token ≡ some t) × (contains cfg.auth.tokens t ≡ true))
    → check_auth token cfg.auth ≡ true
unfolding check_auth
check_of_listed cfg token h = elim (Bool-cases cfg.auth.require_token) [
  | inl q ↦ let (t, e, c) = h q in rw e (ground arith)
  | inr q ↦ rw q
]

passed :
    (cfg : ProxyConfig) (r : Request)
    → Serves (handle_request cfg r)
    → (check_ip r.peer_ip cfg.network ≡ true)
      × (check_auth (bearer_token r) cfg.auth ≡ true)
      × ((not cfg.network.allow_anonymous && is_none (bearer_token r)) ≡ false)
unfolding handle_request
passed cfg r h = ground arith

-- A request reaches a handler of the store only if its address passes the rules, it carries a token
-- or anonymous access is on, and, where tokens are required, its token is one of the list. And a
-- request of which this holds is answered as the route table says, `GET /health` apart, which is
-- open to all.
pub handle_request_exact :
    (cfg : ProxyConfig) (r : Request)
    → (Serves (handle_request cfg r) → IsAdmitted cfg r)
      × (IsAdmitted cfg r
          → (r.url == codes "/health" && r.is_get) ≡ false
          → handle_request cfg r ≡ route r)
handle_request_exact cfg r = (
  λ h.
      let (a, c, n) = passed cfg r h in
      record {
        address = a;
        named = λ off none_given. ground arith;
        listed = listed_of_check cfg (bearer_token r) c;
      },
  λ v open_route.
      let c : check_auth (bearer_token r) cfg.auth ≡ true =
        check_of_listed cfg (bearer_token r) v.listed in
      unfold handle_request in ground (arith, v.address, v.named),
)

-- With the default configuration every request that carries some bearer token, whatever it is,
-- `GET /health` apart, is answered as the route table says.
pub default_admits_any_token :
    (r : Request) (t : Text)
    → bearer_token r ≡ some t
    → (r.url == codes "/health" && r.is_get) ≡ false
    → handle_request default r ≡ route r
unfolding handle_request check_auth check_ip
default_admits_any_token r t e h = ground arith
