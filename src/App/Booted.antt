-- ===== src/App/Booted.antt =====
-- The coordinator's configuration under src/init/src/main.rs.
use coordinator.Base.{
  List, Text, Bytes, Option, none, some, Outcome, ok, codes, ◌≡◌, refl, ◌∙◌, text_eq,
}
use coordinator.Base.Map.{get}
use coordinator.Init.Setup.{Environment, child_environment, or_else}
use coordinator.Init.Environment.{pushed, fixed_vars, default_vars, get-child_environment}
use coordinator.App.Config.{Config, from_env, var_or}

-- What the config pushed last for a variable, or else what init's own environment has.
abbrev pub given : List (Text × Text) → Environment → Text → Option Text
given pairs env k = or_else (pushed k pairs) (get k env)

or_else-some :
    (o p : Option Text) (d : Text) → or_else o (or_else p (some d)) ≡ some (var_or (or_else o p) d)
or_else-some none none d = refl
or_else-some none (some y) d = refl
or_else-some (some x) p d = refl

or_else-none : (o p : Option Text) → or_else o (or_else p none) ≡ or_else o p
or_else-none none none = refl
or_else-none none (some y) = refl
or_else-none (some x) p = refl

module _ (pairs : List (Text × Text)) (entropy : Outcome Text Bytes) (env : Environment) where
  pub with_default :
      (k d : Text)
      → get k fixed_vars ≡ none
      → get k (default_vars entropy) ≡ some d
      → get k (child_environment pairs entropy env) ≡ some (var_or (given pairs env k) d)
  with_default k d f h =
      get-child_environment k pairs entropy env
      ∙ (rw (f, h) (or_else-some (pushed k pairs) (get k env) d))

  without_default :
      (k : Text)
      → get k fixed_vars ≡ none
      → get k (default_vars entropy) ≡ none
      → get k (child_environment pairs entropy env) ≡ given pairs env k
  without_default k f h =
      get-child_environment k pairs entropy env
      ∙ (rw (f, h) (or_else-none (pushed k pairs) (get k env)))

-- The configuration under init: what was given for each variable, or its default.
abbrev pub configured : List (Text × Text) → Outcome Text Bytes → Environment → Config
configured pairs entropy env =
    let v = given pairs env in
    record {
      bind_addr = var_or (v (codes "PINAIVU_BIND")) (codes "127.0.0.1:4000");
      libp2p_listen = var_or (v (codes "PINAIVU_LIBP2P_LISTEN")) (codes "/ip4/0.0.0.0/tcp/4001");
      database_url =
          var_or (v (codes "DATABASE_URL"))
            (codes "postgresql://coordinator@127.0.0.1:5432/coordinator");
      redis_url = var_or (v (codes "REDIS_URL")) (codes "redis://127.0.0.1:6379");
      tls_cert_pem = v (codes "PINAIVU_TLS_CERT");
      tls_key_pem = v (codes "PINAIVU_TLS_KEY");
    }

-- A coordinator that init started has a configuration, whatever the parent pushed: each field is
-- what was given for its variable, and the addresses and URLs have a default where nothing was.
pub from_env-child_environment :
    (pairs : List (Text × Text)) (entropy : Outcome Text Bytes) (env : Environment)
    → from_env (child_environment pairs entropy env) ≡ ok (configured pairs entropy env)
unfolding from_env
from_env-child_environment pairs entropy env =
    let d = with_default pairs entropy env in
    let n = without_default pairs entropy env in
    rw
      (
        d (codes "PINAIVU_BIND") (codes "127.0.0.1:4000") refl refl,
        d (codes "PINAIVU_LIBP2P_LISTEN") (codes "/ip4/0.0.0.0/tcp/4001") refl refl,
        d (codes "DATABASE_URL") (codes "postgresql://coordinator@127.0.0.1:5432/coordinator") refl
            refl,
        d (codes "REDIS_URL") (codes "redis://127.0.0.1:6379") refl refl,
        n (codes "PINAIVU_TLS_CERT") refl refl,
        n (codes "PINAIVU_TLS_KEY") refl refl,
      )
      refl
