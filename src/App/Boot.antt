-- ===== src/App/Boot.antt =====
-- src/init/src/main.rs and src/coordinator/src/main.rs together: the coordinator in the environment
-- that init made.
use coordinator.Base.{
  List, [], ◌∷◌, All, Text, Bytes, true, ◌&&◌, if◌then◌else◌, Option, none, some, Outcome, ok,
  ok-bind, ◌>>=◌, ok_or, codes, text_eq, ◌≡◌, refl, ap, ◌∙◌,
}
use coordinator.Base.Map.{get}
use coordinator.Protocol.External.{External}
use coordinator.Api.Crypto.{CryptoExternal}
use coordinator.Registry
use coordinator.Registry.{PeerRegistry}
use coordinator.Registry.Addrs.{Multiaddr}
use coordinator.Mesh.{EventLoop, with_pg_and_settlement}
use coordinator.Init.Setup.{Environment, child_environment, to_hex, bytes_or_none}
use coordinator.App.Config.{Config, from_env, var_or, has_tls_certs, is_some}
use coordinator.App.Booted.{configured, given, with_default, from_env-child_environment}
use coordinator.App.State.{
  libp2p, postgres, set_pg_pool, set_tls_cert_fingerprint, with_full_archive_and_chain,
}
use coordinator.App.Tls.{Tls, operator, self_signed, san_ips}
use coordinator.App.Startup.{
  registered, SidecarClient, sidecar_from_env, cert_fingerprint_from_pem, Crates, Started,
  setup_tls, generate_self_signed_tls, with_certs, spawn_libp2p_mesh_full, channel_of, is_ok, serve,
  run, subscribe_all,
}

-- The crates do their work, and take the addresses of this configuration.
pub record Works (crates : Crates) (listen bind : Text) : Type 0 where
  pub postgres_up : crates.connect_postgres ≡ ok tt
  pub redis_up : crates.connect_redis ≡ ok tt
  pub jobs_up : crates.job_store ≡ ok tt
  pub client_built : crates.http_client ≡ ok tt
  pub identity_made : crates.libp2p_identity ≡ ok tt
  pub swarm_built : crates.build_swarm ≡ ok tt
  pub subscribed : All (λ r. r ≡ ok tt) crates.subscribe_topics
  pub addr : Multiaddr
  pub listen_parsed : crates.parse_multiaddr listen ≡ some addr
  pub listens : crates.listen_on addr ≡ ok tt
  pub pem_taken : crates.tls_from_pem ≡ ok tt
  pub generates : (sans : List Text) → (der : Bytes) × (crates.self_signed_der sans ≡ ok der)
  pub socket : Text
  pub bind_parsed : crates.socket_addr bind ≡ some socket

module _ (x : External) (c : CryptoExternal) (crates : Crates) where
  generated :
      (sans : List Text)
      → crates.tls_from_pem ≡ ok tt
      → ((names : List Text) → (der : Bytes) × (crates.self_signed_der names ≡ ok der))
      → (tls : Tls × Text) × (generate_self_signed_tls x c crates sans ≡ ok tls)
  unfolding generate_self_signed_tls
  generated sans p g =
      let (der, d) = g (codes "localhost" ∷ sans) in
      ((self_signed (codes "localhost" ∷ sans) der, c.hex_encode (x.sha256 der)), rw (d, p) refl)

  tls_made :
      (cfg : Config) (sans : List Text) (cert key : Option Text)
      → crates.tls_from_pem ≡ ok tt
      → ((names : List Text) → (der : Bytes) × (crates.self_signed_der names ≡ ok der))
      → (tls : Tls × Text) × ((if is_some cert && is_some key
            then with_certs x c crates cfg cert key
            else generate_self_signed_tls x c crates sans)
          ≡ ok tls)
  unfolding generate_self_signed_tls
  tls_made cfg sans (some cert) (some key) p g = (
    (operator cert key, var_or (cert_fingerprint_from_pem x c crates cert) (codes "unknown")),
    rw p refl,
  )
  tls_made cfg sans (some cert) none p g = generated sans p g
  tls_made cfg sans none key p g = generated sans p g

  setup_tls-ok :
      (cfg : Config) (ips : Option Text) (listen bind : Text)
      → Works crates listen bind
      → (tls : Tls × Text) × (setup_tls x c crates cfg ips ≡ ok tls)
  unfolding setup_tls has_tls_certs
  setup_tls-ok cfg ips listen bind w =
      tls_made cfg (san_ips ips) cfg.tls_cert_pem cfg.tls_key_pem w.pem_taken w.generates

  sidecar-ok :
      (pairs : List (Text × Text)) (entropy : Outcome Text Bytes) (env : Environment)
      → crates.http_client ≡ ok tt
      → (sidecar : SidecarClient) × (sidecar_from_env crates.http_client
            (child_environment pairs entropy env)
          ≡ ok sidecar)
  unfolding sidecar_from_env
  sidecar-ok pairs entropy env h = (
    record {
      base_url =
          var_or (get (codes "SIDECAR_URL") (child_environment pairs entropy env))
            (codes "http://127.0.0.1:8200");
      secret = var_or (given pairs env (codes "SIDECAR_SECRET")) (to_hex (bytes_or_none entropy));
    },
    rw
        (
          with_default pairs entropy env (codes "SIDECAR_SECRET") (to_hex (bytes_or_none entropy))
              refl refl,
          h,
        )
        refl,
  )

  all_subscribed :
      (rs : List (Outcome Text (Unit {0})))
      → All (λ r. r ≡ ok tt) rs
      → subscribe_all x c crates rs ≡ ok tt
  all_subscribed [] h = refl
  all_subscribed (r ∷ rs) (h, hs) = rw h (all_subscribed rs hs)

  spawns :
      (registry : PeerRegistry) (sidecar : Outcome Text SidecarClient) (listen bind : Text)
      (w : Works crates listen bind)
      → spawn_libp2p_mesh_full x c crates crates.generated_key w.addr registry true
          (channel_of x c crates sidecar)
        ≡ ok (
            with_pg_and_settlement registry 0 crates.generated_key true
              (channel_of x c crates sidecar))
  unfolding spawn_libp2p_mesh_full
  spawns registry sidecar listen bind w =
      rw
        (
          w.identity_made,
          w.swarm_built,
          all_subscribed crates.subscribe_topics w.subscribed,
          w.listens,
        )
        refl

  serves :
      (cfg : Config) (env : Environment) (sidecar : Outcome Text SidecarClient)
      (registry : PeerRegistry) (loop : EventLoop) (listen : Text)
      → Works crates listen cfg.bind_addr
      → (s : Started) × (serve x c crates cfg env sidecar registry loop ≡ ok s)
        × (s.settlement_worker ≡ is_ok x c crates sidecar)
  serves cfg env sidecar registry loop listen w =
      let (tls, t) =
        setup_tls-ok cfg (get (codes "PINAIVU_TLS_SAN_IPS") env) listen cfg.bind_addr w in
      let made : Started = record {
        state = set_tls_cert_fingerprint tls.1 (
            set_pg_pool (
              with_full_archive_and_chain crates.now_ms crates.generated_key libp2p registry
                postgres none));
        event_loop = loop;
        settlement_worker = is_ok x c crates sidecar;
        registration = registered x c crates sidecar;
        tls = tls.0;
        bound_to = w.socket;
      } in
      (made, rw (t, w.bind_parsed) refl, refl)

  -- A coordinator that init starts comes up, with the settlement worker running, whatever the parent
  -- pushed and even if it pushed nothing: where the crates do their work and take the two addresses
  -- that were given, or else the defaults.
  pub run-child_environment :
      (pairs : List (Text × Text)) (entropy : Outcome Text Bytes) (env : Environment)
      → let listen =
          var_or
            (given pairs env (codes "PINAIVU_LIBP2P_LISTEN"))
            (codes "/ip4/0.0.0.0/tcp/4001") in
        let bind = var_or (given pairs env (codes "PINAIVU_BIND")) (codes "127.0.0.1:4000") in
        Works crates listen bind
        → (s : Started) × (run x c crates (child_environment pairs entropy env) ≡ ok s)
          × (s.settlement_worker ≡ true)
  unfolding run
  run-child_environment pairs entropy env w =
      let (sidecar, e) = sidecar-ok pairs entropy env w.client_built in
      let child = child_environment pairs entropy env in
      let cfg = configured pairs entropy env in
      let found = sidecar_from_env crates.http_client child in
      let registry = Registry.new 600000 in
      let loop =
        with_pg_and_settlement registry 0 crates.generated_key true (channel_of x c crates found) in
      let spawn = λ (addr : Multiaddr).
        spawn_libp2p_mesh_full x c crates crates.generated_key addr registry true
          (channel_of x c crates found) in
      let next = serve x c crates cfg child found registry in
      let not_addr = codes "PINAIVU_LIBP2P_LISTEN must be a multiaddr" in
      let (s, served, worker) = serves cfg child found registry loop _ w in
      (
        s,
        ok-bind (from_env child) _ cfg s (from_env-child_environment pairs entropy env) (
            ok-bind crates.connect_postgres _ tt s w.postgres_up (
              ok-bind crates.connect_redis _ tt s w.redis_up (
                ok-bind crates.job_store _ tt s w.jobs_up (
                  ok-bind (ok_or (crates.parse_multiaddr cfg.libp2p_listen) not_addr)
                    (λ addr. spawn addr >>= next) w.addr s
                    (ap (λ o. ok_or o not_addr) w.listen_parsed)
                    (ok-bind (spawn w.addr) next loop s (spawns registry found _ _ w) served))))),
        worker ∙ ap (is_ok x c crates) e,
      )
