-- ===== src/App/Wiring.antt =====
-- How the parts that src/coordinator/src/main.rs starts hang together.
use mathlib.Core.Path.{subst}
use coordinator.Base.{
  ◌∷◌, Bool-cases, inl, inr, Option, false, Text, Bytes, true, none, some, Outcome, ok, err, ok_or,
  bind-ok, ok-injective, codes, text_eq, ◌≡◌, refl, sym, ap, if◌then◌else◌,
}
use coordinator.Base.Map.{get}
use coordinator.Protocol.External.{External}
use coordinator.Api.Crypto.{CryptoExternal}
use coordinator.Registry
use coordinator.Registry.{PeerRegistry}
use coordinator.Registry.Addrs.{Multiaddr}
use coordinator.Mesh.{EventLoop, channel, with_pg_and_settlement}
use coordinator.Init.Setup.{Environment}
use coordinator.App.Config.{Config, from_env, var_or, has_tls_certs}
use coordinator.App.Tls.{Tls, operator, self_signed, first_block, san_ips}
use coordinator.App.State.{
  while_at, libp2p, postgres, with_full_archive_and_chain, set_pg_pool, set_tls_cert_fingerprint,
}
use coordinator.App.Startup.{
  generate_self_signed_tls, with_certs, cert_fingerprint_from_pem, fingerprint_of, SidecarClient,
  sidecar_from_env, Crates, Started, setup_tls, spawn_libp2p_mesh_full, channel_of, is_ok,
  registered, serve, run, subscribe_all,
}

-- The certificate that is served, where it can be read.
abbrev pub certificate : CryptoExternal → Tls → Option Bytes
certificate c (operator cert key) = c.base64_decode (first_block cert)
certificate c (self_signed sans der) = some der

-- The text is the hash of the certificate, in hex.
abbrev pub FingerprintOf : External → CryptoExternal → Text → Option Bytes → Type 0
FingerprintOf x c t none = t ≡ codes "unknown"
FingerprintOf x c t (some der) = t ≡ c.hex_encode (x.sha256 der)

-- The operator's certificate where both texts are configured, and otherwise a generated one.
abbrev pub IsChosen : Crates → Config → Option Text → Tls → Type 0
IsChosen crates config ips (operator cert key) =
    (config.tls_cert_pem ≡ some cert) × (config.tls_key_pem ≡ some key)
IsChosen crates config ips (self_signed sans der) =
    (has_tls_certs config ≡ false)
    × (sans ≡ codes "localhost" ∷ san_ips ips)
    × (crates.self_signed_der sans ≡ ok der)

-- What holds of everything that was started: the mesh and the handlers have the same key and, at the
-- start, the same registry, both have the pool, the handlers know the fingerprint of the certificate
-- that is served, and settlement jobs
-- are queued exactly where a worker takes them.
pub record Wired (x : External) (c : CryptoExternal) (crates : Crates) (env : Environment)
    (s : Started) : Type 0 where
  pub config : Config
  pub configured : from_env env ≡ ok config
  pub one_key : s.event_loop.enclave_key ≡ s.state.enclave_key
  pub generated : s.state.enclave_key ≡ crates.generated_key
  pub same_registry : while_at s.event_loop s.state ≡ s.state
  pub pools : (s.event_loop.has_pg_pool ≡ true) × (s.state.has_pg_pool ≡ true)
  pub kept : (s.state.mesh ≡ libp2p) × (s.state.receipt_archive ≡ postgres)
  pub queue : s.event_loop.settlement_tx ≡ (if s.settlement_worker then some (channel 64) else none)
  pub fingerprint : Text
  pub pinned : s.state.tls_cert_fingerprint ≡ some fingerprint
  pub served : FingerprintOf x c fingerprint (certificate c s.tls)
  pub chosen : IsChosen crates config (get (codes "PINAIVU_TLS_SAN_IPS") env) s.tls
  pub announced : s.registration ≡ registered x c crates (sidecar_from_env crates.http_client env)

module _ (x : External) (c : CryptoExternal) (crates : Crates) (env : Environment) where
  spawned_loop :
      (key : Bytes) (addr : Multiaddr) (registry : PeerRegistry)
      (sidecar : Outcome Text SidecarClient) (loop : EventLoop)
      → spawn_libp2p_mesh_full x c crates key addr registry true (channel_of x c crates sidecar)
        ≡ ok loop
      → with_pg_and_settlement registry 0 key true (channel_of x c crates sidecar) ≡ loop
  unfolding spawn_libp2p_mesh_full
  spawned_loop key addr registry sidecar loop h =
      let (u₁, e₁, h₁) = bind-ok crates.libp2p_identity _ loop h in
      let (u₂, e₂, h₂) = bind-ok crates.build_swarm _ loop h₁ in
      let (u₃, e₃, h₃) = bind-ok (subscribe_all x c crates crates.subscribe_topics) _ loop h₂ in
      let (u₄, e₄, h₄) = bind-ok (crates.listen_on addr) _ loop h₃ in ok-injective _ _ h₄

  channel_of-is_ok :
      (sidecar : Outcome Text SidecarClient)
      → channel_of x c crates sidecar
        ≡ (if is_ok x c crates sidecar then some (channel 64) else none)
  channel_of-is_ok (ok sidecar) = refl
  channel_of-is_ok (err e) = refl

  with_certs-served :
      (cfg : Config) (ips : Option Text) (cert key : Option Text) (tls : Tls) (t : Text)
      → cfg.tls_cert_pem ≡ cert
      → cfg.tls_key_pem ≡ key
      → with_certs x c crates cfg cert key ≡ ok (tls, t)
      → FingerprintOf x c t (certificate c tls) × IsChosen crates cfg ips tls
  unfolding cert_fingerprint_from_pem
  with_certs-served cfg ips (some cert) (some key) tls t p q h =
      let (u, e, h₁) = bind-ok crates.tls_from_pem _ (tls, t) h in
      let same = ok-injective _ _ h₁ in
      subst
        (λ (v : Tls × Text).
          FingerprintOf x c v.1 (certificate c v.0) × IsChosen crates cfg ips v.0)
        same (read (c.base64_decode (first_block cert)), (p, q))
    where
      read :
          (o : Option Bytes)
          → FingerprintOf x c (var_or (fingerprint_of x c crates o) (codes "unknown")) o
      read none = refl
      read (some der) = refl
  with_certs-served cfg ips (some cert) none tls t p q h = cc
  with_certs-served cfg ips none key tls t p q h = cc

  setup_tls-served :
      (cfg : Config) (ips : Option Text) (tls : Tls) (t : Text)
      → setup_tls x c crates cfg ips ≡ ok (tls, t)
      → FingerprintOf x c t (certificate c tls) × IsChosen crates cfg ips tls
  unfolding setup_tls generate_self_signed_tls
  setup_tls-served cfg ips tls t h = elim (Bool-cases (has_tls_certs cfg)) [
    | inl own ↦
        with_certs-served cfg ips cfg.tls_cert_pem cfg.tls_key_pem tls t refl refl (rw own at h)
    | inr none_given ↦
        let (der, e, h₁) =
          bind-ok (crates.self_signed_der (codes "localhost" ∷ san_ips ips)) _ (tls, t)
            (rw none_given at h) in
        let (u, e₂, h₂) = bind-ok crates.tls_from_pem _ (tls, t) h₁ in
        subst
          (λ (v : Tls × Text).
            FingerprintOf x c v.1 (certificate c v.0) × IsChosen crates cfg ips v.0)
          (ok-injective _ _ h₂) (refl, (none_given, refl, e))
  ]

  serve-Wired :
      (cfg : Config) (sidecar : Outcome Text SidecarClient) (s : Started)
      → from_env env ≡ ok cfg
      → sidecar ≡ sidecar_from_env crates.http_client env
      → let registry = Registry.new 600000 in
        let loop =
          with_pg_and_settlement registry 0 crates.generated_key true
            (channel_of x c crates sidecar) in
        serve x c crates cfg env sidecar registry loop ≡ ok s → Wired x c crates env s
  unfolding with_pg_and_settlement with_full_archive_and_chain set_pg_pool set_tls_cert_fingerprint
  serve-Wired cfg sidecar s e q h =
      let (tls, t, h₁) = bind-ok (setup_tls x c crates cfg _) _ s h in
      let (bind_addr, b, h₂) = bind-ok (ok_or (crates.socket_addr cfg.bind_addr) _) _ s h₁ in
      subst (Wired x c crates env) (ok-injective _ _ h₂) (record {
        config = cfg;
        configured = e;
        one_key = refl;
        generated = refl;
        same_registry = refl;
        pools = (refl, refl);
        kept = (refl, refl);
        queue = channel_of-is_ok sidecar;
        fingerprint = tls.1;
        pinned = refl;
        served = (setup_tls-served cfg _ tls.0 tls.1 t).0;
        chosen = (setup_tls-served cfg _ tls.0 tls.1 t).1;
        announced = ap (registered x c crates) q;
      })

  -- Whatever the crates answer, what `run` starts is wired together: the mesh, which signs the
  -- receipts, and the HTTP handlers have the one key that was generated, and equal registries at the
  -- start; both have the pool; the certificate that is served is the operator's or a generated one for
  -- the configured names, and the fingerprint that is shown is the hash of it, or "unknown" where the
  -- operator's text holds none; and settlement jobs are queued exactly where the worker runs.
  pub run-Wired : (s : Started) → run x c crates env ≡ ok s → Wired x c crates env s
  unfolding run
  run-Wired s h =
      let (cfg, e₁, h₁) = bind-ok (from_env env) _ s h in
      let (u₂, e₂, h₂) = bind-ok crates.connect_postgres _ s h₁ in
      let (u₃, e₃, h₃) = bind-ok crates.connect_redis _ s h₂ in
      let (u₄, e₄, h₄) = bind-ok crates.job_store _ s h₃ in
      let (addr, e₅, h₅) = bind-ok (ok_or (crates.parse_multiaddr cfg.libp2p_listen) _) _ s h₄ in
      let (loop, e₆, h₆) =
        bind-ok (spawn_libp2p_mesh_full x c crates crates.generated_key addr _ true _) _ s h₅ in
      let made =
        spawned_loop crates.generated_key addr _ (sidecar_from_env crates.http_client env) loop
          e₆ in
      serve-Wired cfg (sidecar_from_env crates.http_client env) s e₁ refl (
        subst
          (λ l.
            serve x c crates cfg env (sidecar_from_env crates.http_client env) (Registry.new 600000)
              l
            ≡ ok s)
          (sym made) h₆)
