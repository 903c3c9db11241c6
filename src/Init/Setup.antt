-- ===== src/Init/Setup.antt =====
-- src/init/src/main.rs: the environment, the hosts file and the bridges that `main` sets up before
-- it starts the sidecar and the coordinator.
use coordinator.Base.{
  ℕ, List, [], ◌∷◌, ◌++◌, Text, Bytes, Option, none, some, Outcome, ok, err, null, nat_beq, trim,
  strip_prefix, codes, text_eq, if◌then◌else◌, ◌/◌, ◌%◌, ltb, ◌+◌,
}
use coordinator.Base.Map.{Map, get, insert}

-- The variables of the process.
abbrev pub Environment : Type 0
Environment = Map Text Text

abbrev pub apply_pairs : List (Text × Text) → Environment → Environment
apply_pairs [] env = env
apply_pairs ((k, v) ∷ pairs) env = apply_pairs pairs (insert k v env)

-- `if var(k).is_err() { set_var(k, v) }`.
abbrev pub default_from : Option Text → Text → Text → Environment → Environment
default_from none k v env = insert k v env
default_from (some old) k v env = env

abbrev pub default_var : Text → Text → Environment → Environment
default_var k v env = default_from (get k env) k v env

unfoldable pub apply_defaults : Environment → Environment
apply_defaults env =
    let env = insert (codes "SSL_CERT_FILE") (codes "/etc/ssl/certs/ca-certificates.crt") env in
    let env = insert (codes "PATH") (codes "/bin:/sbin:/usr/bin:/usr/sbin:/") env in
    let env = default_var (codes "PINAIVU_BIND") (codes "127.0.0.1:4000") env in
    let env = default_var (codes "PINAIVU_LIBP2P_LISTEN") (codes "/ip4/0.0.0.0/tcp/4001") env in
    let env =
      default_var (codes "DATABASE_URL")
        (codes "postgresql://coordinator@127.0.0.1:5432/coordinator") env in
    default_var (codes "REDIS_URL") (codes "redis://127.0.0.1:6379") env

abbrev pub hex_digit : ℕ → ℕ
hex_digit n = if ltb n 10 then b'0' + n else 87 + n

-- `format!("{:02x}", b)` of each byte.
abbrev pub to_hex : Bytes → Text
to_hex [] = []
to_hex (b ∷ bytes) = hex_digit (b / 16) ∷ hex_digit (b % 16) ∷ to_hex bytes

-- `unwrap_or_default` on what `get_entropy(32)` answers.
abbrev pub bytes_or_none : Outcome Text Bytes → Bytes
bytes_or_none (ok bytes) = bytes
bytes_or_none (err e) = []

unfoldable pub coordinate_sidecar : Outcome Text Bytes → Environment → Environment
coordinate_sidecar entropy env =
    let env = default_var (codes "SIDECAR_URL") (codes "http://127.0.0.1:8200") env in
    default_var (codes "SIDECAR_SECRET") (to_hex (bytes_or_none entropy)) env

-- The environment that the sidecar and the coordinator inherit.
unfoldable pub child_environment :
    List (Text × Text) → Outcome Text Bytes → Environment → Environment
child_environment pairs entropy env =
    coordinate_sidecar entropy (apply_defaults (apply_pairs pairs env))

abbrev pub hosts_line : Text → Text
hosts_line h = codes "127.0.0.1 " ++ h ++ codes "\n"

abbrev pub named_host : Text → Text
named_host h = if null h then [] else hosts_line h

abbrev pub bridge_host : Option Text → Text
bridge_host none = []
bridge_host (some h) = named_host (trim h)

-- `split(d).next()`: the text before the first delimiter, or all of it.
abbrev pub before : ℕ → Text → Text
before d [] = []
before d (c ∷ s) = if nat_beq c d then [] else c ∷ before d s

abbrev pub or_else : Option Text → Option Text → Option Text
or_else none b = b
or_else (some a) b = some a

abbrev pub host_of_rest : Option Text → Text
host_of_rest none = []
host_of_rest (some rest) = before b':' (before b'/' rest)

unfoldable pub host_of_url : Text → Text
host_of_url url =
    host_of_rest
      (or_else (strip_prefix (codes "https://") url) (strip_prefix (codes "http://") url))

abbrev pub rpc_host : Option Text → Text
rpc_host none = []
rpc_host (some url) = named_host (host_of_url url)

-- What is written to /etc/hosts.
unfoldable pub hosts_file : Environment → Text
hosts_file env =
    codes "127.0.0.1 localhost\n"
    ++ bridge_host (get (codes "POSTGRES_BRIDGE_HOST") env)
    ++ bridge_host (get (codes "REDIS_BRIDGE_HOST") env)
    ++ rpc_host (get (codes "SUI_RPC_URL") env)
