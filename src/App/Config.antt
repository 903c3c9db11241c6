-- ===== src/App/Config.antt =====
-- src/coordinator/src/app/config.rs: what the coordinator reads from its environment.
use coordinator.Base.{
  Text, Bool, true, false, ◌&&◌, Option, none, some, Outcome, ok, ◌>>=◌, ok_or, codes, text_eq,
}
use coordinator.Base.Map.{get}
use coordinator.Init.Setup.{Environment}

pub record Config : Type 0 where
  pub bind_addr : Text
  pub libp2p_listen : Text
  pub database_url : Text
  pub redis_url : Text
  pub tls_cert_pem : Option Text
  pub tls_key_pem : Option Text

abbrev pub var_or : Option Text → Text → Text
var_or none t = t
var_or (some s) t = s

unfoldable pub from_env : Environment → Outcome Text Config
from_env env =
    let bind_addr : Text = var_or (get (codes "PINAIVU_BIND") env) (codes "127.0.0.1:4000") in
    let libp2p_listen : Text =
      var_or (get (codes "PINAIVU_LIBP2P_LISTEN") env) (codes "/ip4/0.0.0.0/tcp/0") in
    ok_or (get (codes "DATABASE_URL") env)
      (codes "DATABASE_URL not set (required for receipts + jobs storage)")
    >>= λ database_url.
        ok_or (get (codes "REDIS_URL") env)
          (codes "REDIS_URL not set (required for replay-nonce caching)")
        >>= λ redis_url. ok (record {
          bind_addr = bind_addr;
          libp2p_listen = libp2p_listen;
          database_url = database_url;
          redis_url = redis_url;
          tls_cert_pem = get (codes "PINAIVU_TLS_CERT") env;
          tls_key_pem = get (codes "PINAIVU_TLS_KEY") env;
        })

abbrev pub is_some : Option Text → Bool
is_some none = false
is_some (some t) = true

unfoldable pub has_tls_certs : Config → Bool
has_tls_certs c = is_some c.tls_cert_pem && is_some c.tls_key_pem
