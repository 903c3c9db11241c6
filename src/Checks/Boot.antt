-- ===== src/Checks/Boot.antt =====
-- The theorems on the init process and the start-up, at concrete runs.
use coordinator.Base.{
  List, [], ◌∷◌, map, Text, Bytes, true, some, none, ok, err, codes, ◌≡◌, refl, arith, nat_eq,
}
use coordinator.Init.Config.{lines, read_config}
use coordinator.Init.Parsing.{IsPlain, env_file, read_config-env_file}
use coordinator.Init.Forward.{
  Forwarder, opened, connecting, looking, sending, outside, forward_at, look_at, send_rest,
  open_connection,
}
use coordinator.Init.Relay.{IsRelayed, Relays, start, append, act, Relays-IsRelayed}
use coordinator.Init.CatchUp.{CatchesUp, Relays-CatchesUp}
use coordinator.System.{get_entropy}
use coordinator.System.Entropy.{Filled, get_entropy-Filled}
use coordinator.Registry
use coordinator.Mesh.{channel, with_pg_and_settlement}
use coordinator.Init.Setup.{Environment, child_environment}
use coordinator.App.Config.{from_env, has_tls_certs}
use coordinator.App.State.{
  libp2p, postgres, with_full_archive_and_chain, set_pg_pool, set_tls_cert_fingerprint,
}
use coordinator.Attestation.{AttestationDoc}
use coordinator.App.Tls.{self_signed, san_ips}
use coordinator.App.Startup.{
  Crates, Started, sidecar_from_env, spawn_libp2p_mesh_full, setup_tls, generate_self_signed_tls,
  registered, run,
}
use coordinator.App.Wiring.{Wired, run-Wired}
use coordinator.App.Boot.{Works, run-child_environment}
use coordinator.Checks.Toy.{toy}
use coordinator.Checks.Web.{toy_crypto}
use coordinator.Checks.Data.{enclave_key}

abbrev some_pairs : List (Text × Text)
some_pairs = (codes "URL", codes "a=b c") ∷ (codes "KEY", []) ∷ []

url-IsPlain : IsPlain (codes "URL", codes "a=b c")
url-IsPlain = record {
  key_named = refl;
  key_bare = (refl, refl);
  key_single = (refl, (refl, (refl, tt)));
  one_line = ((refl, (refl, (refl, tt))), (refl, (refl, (refl, (refl, (refl, tt))))));
  not_comment = refl;
  value_bare = (refl, refl);
  value_unquoted = (refl, refl);
}

key-IsPlain : IsPlain (codes "KEY", [])
key-IsPlain = record {
  key_named = refl;
  key_bare = (refl, refl);
  key_single = (refl, (refl, (refl, tt)));
  one_line = ((refl, (refl, (refl, tt))), tt);
  not_comment = refl;
  value_bare = (refl, refl);
  value_unquoted = (refl, refl);
}

read_config-env_file_example : read_config (map some (lines (env_file some_pairs))) ≡ some_pairs
read_config-env_file_example = read_config-env_file some_pairs (url-IsPlain, (key-IsPlain, tt))

-- A chunk of two bytes is read, one is sent, and the connection is lost; the log has grown since.
abbrev log : Bytes
log = 1 ∷ 2 ∷ 3 ∷ []

abbrev lost : Forwarder
lost = record { phase = outside; pos = 0; wire = (1 ∷ []) ∷ [] }

lost-Relays : Relays (1 ∷ 2 ∷ 3 ∷ 4 ∷ []) lost
unfolding forward_at look_at send_rest open_connection
lost-Relays = append (4 ∷ []) (
    act (sending none) tt refl (
      act (sending (some 1)) (omega arith) refl (
        act (looking (opened log true (some 2))) (refl, refl, omega arith, omega arith) refl
          (act (connecting true) tt refl (start log)))))

Relays-IsRelayed_example : IsRelayed (1 ∷ 2 ∷ 3 ∷ 4 ∷ []) outside 0 ((1 ∷ []) ∷ [])
Relays-IsRelayed_example = Relays-IsRelayed lost-Relays

Relays-CatchesUp_example : CatchesUp (1 ∷ 2 ∷ 3 ∷ 4 ∷ []) lost
Relays-CatchesUp_example = Relays-CatchesUp lost-Relays

get_entropy-Filled_example :
    Filled 2 (get_entropy true 2 (map some ((7 ∷ 8 ∷ 9 ∷ []) ∷ (6 ∷ []) ∷ [])))
get_entropy-Filled_example =
    get_entropy-Filled 2 ((7 ∷ 8 ∷ 9 ∷ []) ∷ (6 ∷ []) ∷ [])
      ((omega arith, omega arith), ((omega arith, omega arith), tt)) (omega arith)

abbrev some_doc : AttestationDoc
some_doc = record {
  pcr0 = [];
  pcr1 = [];
  pcr2 = [];
  public_key = [];
  timestamp_ms = 1;
  raw_cbor_hex = codes "cb";
}

abbrev pub some_crates : Crates
some_crates = record {
  generated_key = enclave_key;
  connect_postgres = ok tt;
  connect_redis = ok tt;
  job_store = ok tt;
  http_client = ok tt;
  parse_multiaddr = some;
  libp2p_identity = ok tt;
  build_swarm = ok tt;
  subscribe_topics = ok tt ∷ ok tt ∷ [];
  listen_on = λ a. ok tt;
  listen_addrs = [];
  attestation = ok some_doc;
  tls_from_pem = ok tt;
  self_signed_der = λ sans. ok (codes "der");
  now_ms = 5;
  socket_addr = some;
}

some-Works : Works some_crates (codes "/ip4/0.0.0.0/tcp/4001") (codes "127.0.0.1:4000")
some-Works = record {
  postgres_up = refl;
  redis_up = refl;
  jobs_up = refl;
  client_built = refl;
  identity_made = refl;
  swarm_built = refl;
  subscribed = (refl, (refl, tt));
  addr = codes "/ip4/0.0.0.0/tcp/4001";
  listen_parsed = refl;
  listens = refl;
  pem_taken = refl;
  generates = λ sans. (codes "der", refl);
  socket = codes "127.0.0.1:4000";
  bind_parsed = refl;
}

run-child_environment_example :
    (s : Started) × (run toy toy_crypto some_crates
        (child_environment [] (err (codes "no device")) [])
      ≡ ok s)
    × (s.settlement_worker ≡ true)
run-child_environment_example =
    run-child_environment toy toy_crypto some_crates [] (err (codes "no device")) [] some-Works

abbrev pub some_env : Environment
some_env =
    (codes "DATABASE_URL", codes "pg")
    ∷ (codes "REDIS_URL", codes "redis")
    ∷ (codes "SIDECAR_SECRET", codes "s")
    ∷ []

abbrev pub some_started : Started
some_started = record {
  state = record {
    enclave_key = enclave_key;
    mesh = libp2p;
    peer_registry = record { inner = []; ttl = 600000 };
    receipt_archive = postgres;
    on_chain = none;
    has_pg_pool = true;
    started_at_ms = 5;
    tls_cert_fingerprint = some (codes "der");
  };
  event_loop = record {
    bid_subscribers = [];
    peer_registry = record { inner = []; ttl = 600000 };
    enclave_key = enclave_key;
    has_pg_pool = true;
    settlement_tx = some (channel 64);
    in_flight = [];
    listen_addrs = [];
    ready_tx = some 0;
    pending_inference = [];
  };
  settlement_worker = true;
  registration = some (codes "cb");
  tls = self_signed (codes "localhost" ∷ []) (codes "der");
  bound_to = codes "127.0.0.1:4000";
}

pub some_run : run toy toy_crypto some_crates some_env ≡ ok some_started
unfolding run from_env sidecar_from_env spawn_libp2p_mesh_full setup_tls has_tls_certs san_ips
    generate_self_signed_tls registered with_full_archive_and_chain set_pg_pool
    set_tls_cert_fingerprint Registry.new with_pg_and_settlement
some_run = refl

run-Wired_example : Wired toy toy_crypto some_crates some_env some_started
run-Wired_example = run-Wired toy toy_crypto some_crates some_env some_started some_run
