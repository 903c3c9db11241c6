-- ===== src/App/Startup.antt =====
-- `run` of src/coordinator/src/main.rs, with `from_env` of onchain/sui.rs, the TLS helpers of lib.rs
-- and `spawn_libp2p_mesh_full` of mesh/mod.rs. What the crates' calls answer is an argument. Logging,
-- the .env file, timeouts and the shutdown signal are left out.
use coordinator.Base.{
  ℕ, List, [], ◌∷◌, Text, Bytes, Bool, true, false, Option, none, some, Outcome, ok, err, ◌>>=◌,
  ◌>>◌, ok_or, codes, text_eq, if◌then◌else◌,
}
use coordinator.Base.Map.{get}
use coordinator.Protocol.External.{External}
use coordinator.Api.Crypto.{CryptoExternal}
use coordinator.Registry
use coordinator.Registry.{PeerRegistry}
use coordinator.Registry.Addrs.{Multiaddr}
use coordinator.Mesh.{EventLoop, Channel, channel, with_pg_and_settlement}
use coordinator.Settlement.Worker.{SettlementJob}
use coordinator.Init.Setup.{Environment}
use coordinator.Attestation.{AttestationDoc}
use coordinator.App.Config.{Config, var_or, from_env, has_tls_certs}
use coordinator.App.State.{
  AppState, libp2p, postgres, with_full_archive_and_chain, set_pg_pool, set_tls_cert_fingerprint,
}
use coordinator.App.Tls.{first_block, san_ips, Tls, operator, self_signed}

pub record SidecarClient : Type 0 where
  pub base_url : Text
  pub secret : Text

-- `SidecarClient::from_env`; `built` is what building the HTTP client answers.
unfoldable pub sidecar_from_env : Outcome Text (Unit {0}) → Environment → Outcome Text SidecarClient
sidecar_from_env built env =
    ok_or (get (codes "SIDECAR_SECRET") env)
      (codes "SIDECAR_SECRET not set — init should populate this")
    >>= λ secret.
        (built
          >> ok (record {
            base_url = var_or (get (codes "SIDECAR_URL") env) (codes "http://127.0.0.1:8200");
            secret = secret;
          }))

-- The task that takes the settlement jobs from their channel and stores them in apalis' table: a job
-- that cannot be stored is logged and lost.
unfoldable pub forward_jobs :
    (SettlementJob → Outcome Text (Unit {0})) → List SettlementJob → List SettlementJob
forward_jobs push [] = []
forward_jobs push (job ∷ queue) = elim (push job) [
  | ok done ↦ job ∷ forward_jobs push queue
  | err e ↦ forward_jobs push queue
]

-- What the crates answer at the start, in the order of the calls.
pub record Crates : Type 0 where
  pub generated_key : Bytes
  pub connect_postgres : Outcome Text (Unit {0})
  pub connect_redis : Outcome Text (Unit {0})
  pub job_store : Outcome Text (Unit {0})
  pub http_client : Outcome Text (Unit {0})
  pub parse_multiaddr : Text → Option Multiaddr
  pub libp2p_identity : Outcome Text (Unit {0})
  pub build_swarm : Outcome Text (Unit {0})
  pub subscribe_topics : List (Outcome Text (Unit {0}))
  pub listen_on : Multiaddr → Outcome Text (Unit {0})
  pub listen_addrs : List Multiaddr
  pub attestation : Outcome Text AttestationDoc
  pub tls_from_pem : Outcome Text (Unit {0})
  pub self_signed_der : List Text → Outcome Text Bytes
  pub now_ms : ℕ
  pub socket_addr : Text → Option Text

-- What runs at the end: the state of the handlers, the event loop, and the tasks beside them.
pub record Started : Type 0 where
  pub state : AppState
  pub event_loop : EventLoop
  pub settlement_worker : Bool
  pub registration : Option Text
  pub tls : Tls
  pub bound_to : Text

module _ (x : External) (c : CryptoExternal) (crates : Crates) where
  abbrev pub fingerprint_of : Option Bytes → Option Text
  fingerprint_of none = none
  fingerprint_of (some der) = some (c.hex_encode (x.sha256 der))

  -- The PEM is a text already, being a variable.
  unfoldable pub cert_fingerprint_from_pem : Text → Option Text
  cert_fingerprint_from_pem pem = fingerprint_of (c.base64_decode (first_block pem))

  abbrev pub with_certs : Config → Option Text → Option Text → Outcome Text (Tls × Text)
  with_certs cfg (some cert) (some key) =
      crates.tls_from_pem
      >> ok (operator cert key, var_or (cert_fingerprint_from_pem cert) (codes "unknown"))
  with_certs cfg cert key = err (codes "unreachable")

  unfoldable pub generate_self_signed_tls : List Text → Outcome Text (Tls × Text)
  generate_self_signed_tls ips =
      let sans : List Text = codes "localhost" ∷ ips in
      crates.self_signed_der sans >>= λ der.
      (crates.tls_from_pem >> ok (self_signed sans der, c.hex_encode (x.sha256 der)))

  unfoldable pub setup_tls : Config → Option Text → Outcome Text (Tls × Text)
  setup_tls cfg ips =
      if has_tls_certs cfg
      then with_certs cfg cfg.tls_cert_pem cfg.tls_key_pem
      else generate_self_signed_tls (san_ips ips)

  abbrev pub subscribe_all : List (Outcome Text (Unit {0})) → Outcome Text (Unit {0})
  subscribe_all [] = ok tt
  subscribe_all (r ∷ rs) = r >> subscribe_all rs

  -- The event loop that is spawned; the reply that waits for the first address is number 0.
  unfoldable pub spawn_libp2p_mesh_full :
      Bytes
      → Multiaddr
      → PeerRegistry
      → Bool
      → Option (Channel SettlementJob)
      → Outcome Text EventLoop
  spawn_libp2p_mesh_full key addr registry has_pg_pool settlement_tx =
      crates.libp2p_identity
      >> (crates.build_swarm
          >> (subscribe_all crates.subscribe_topics
              >> (crates.listen_on addr
                  >> ok (with_pg_and_settlement registry 0 key has_pg_pool settlement_tx))))

  abbrev pub channel_of : Outcome Text SidecarClient → Option (Channel SettlementJob)
  channel_of (ok sidecar) = some (channel 64)
  channel_of (err e) = none

  abbrev pub is_ok : Outcome Text SidecarClient → Bool
  is_ok (ok sidecar) = true
  is_ok (err e) = false

  -- The attestation that is registered, in base64: none without a sidecar or a readable document.
  abbrev pub encoded : Option Bytes → Option Text
  encoded none = none
  encoded (some att) = some (c.base64_encode att)

  abbrev pub attested : Outcome Text AttestationDoc → Option Text
  attested (err e) = none
  attested (ok doc) = encoded (x.hex_decode doc.raw_cbor_hex)

  unfoldable pub registered : Outcome Text SidecarClient → Option Text
  registered (err e) = none
  registered (ok sidecar) = attested crates.attestation

  abbrev pub serve :
      Config
      → Environment
      → Outcome Text SidecarClient
      → PeerRegistry
      → EventLoop
      → Outcome Text Started
  serve cfg env sidecar registry loop =
      setup_tls cfg (get (codes "PINAIVU_TLS_SAN_IPS") env) >>= λ tls.
      let state =
        with_full_archive_and_chain crates.now_ms crates.generated_key libp2p registry postgres
          none in
      ok_or (crates.socket_addr cfg.bind_addr) (codes "invalid PINAIVU_BIND") >>= λ bind_addr.
      ok (record {
        state = set_tls_cert_fingerprint tls.1 (set_pg_pool state);
        event_loop = loop;
        settlement_worker = is_ok sidecar;
        registration = registered sidecar;
        tls = tls.0;
        bound_to = bind_addr;
      })

  unfoldable pub run : Environment → Outcome Text Started
  run env = from_env env >>= λ cfg.
      (crates.connect_postgres
        >> (crates.connect_redis
            >> (crates.job_store
                >> (let sidecar = sidecar_from_env crates.http_client env in
                    let registry = Registry.new 600000 in
                    ok_or (crates.parse_multiaddr cfg.libp2p_listen)
                      (codes "PINAIVU_LIBP2P_LISTEN must be a multiaddr")
                    >>= λ addr.
                        spawn_libp2p_mesh_full crates.generated_key addr registry true
                          (channel_of sidecar)
                        >>= λ loop. serve cfg env sidecar registry loop))))
