-- ===== src/Proxy/Config.antt =====
-- crates/modeld-proxy/src/config.rs: the configuration, its defaults and its command line. Reading
-- `modeld.toml` is left to the TOML package; what it yields enters `into_config`.
use model_id.Base.{ℕ, Bool, true, false, List, [], ◌∷◌, ◌++◌, Option, none, some}
use model_id.Base.Text.{Text, codes}
use model_id.Base.Decimal.{show}

pub record AuthConfig : Type 0 where
  pub require_token : Bool
  pub tokens : List Text

pub record NetworkConfig : Type 0 where
  pub allow_anonymous : Bool
  pub allowed_ips : List Text
  pub denied_ips : List Text

pub record ProxyConfig : Type 0 where
  pub port : ℕ
  pub bind_address : Text
  pub store_path : Text
  pub auth : AuthConfig
  pub network : NetworkConfig

abbrev pub auth_default : AuthConfig
auth_default = record { require_token = false; tokens = [] }

abbrev pub network_default : NetworkConfig
network_default = record { allow_anonymous = false; allowed_ips = []; denied_ips = [] }

abbrev pub default : ProxyConfig
default = record {
  port = 8234;
  bind_address = codes "127.0.0.1";
  store_path = codes ".modeld";
  auth = auth_default;
  network = network_default;
}

abbrev pub unwrap_or {ℓ} : {A : Type ℓ} → Option A → A → A
unwrap_or none d = d
unwrap_or (some a) d = a

abbrev with_token : Option Text → AuthConfig → AuthConfig
with_token none a = a
with_token (some t) a = record { require_token = true; tokens = a.tokens ++ t ∷ [] }

unfoldable pub from_cli : Option ℕ → Option Text → Text → Option Text → Bool → ProxyConfig
from_cli port bind store_path token allow_anonymous = record {
  port = unwrap_or port default.port;
  bind_address = unwrap_or bind default.bind_address;
  store_path = store_path;
  auth = with_token token default.auth;
  network = record default.network { allow_anonymous = allow_anonymous };
}

unfoldable pub bind_addr : ProxyConfig → Text
bind_addr c = c.bind_address ++ b':' ∷ show c.port

unfoldable pub with_open_access : ProxyConfig → ProxyConfig
with_open_access c = record c { network = record c.network { allow_anonymous = true } }

-- The `[proxy]` table as it was read, each field absent or given.
pub record ProxyConfigFile : Type 0 where
  pub port : Option ℕ
  pub bind_address : Option Text
  pub store_path : Option Text
  pub auth : AuthConfig
  pub network : NetworkConfig

unfoldable pub into_config : ProxyConfigFile → ProxyConfig
into_config f = record {
  port = unwrap_or f.port default.port;
  bind_address = unwrap_or f.bind_address default.bind_address;
  store_path = unwrap_or f.store_path default.store_path;
  auth = f.auth;
  network = f.network;
}
