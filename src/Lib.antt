-- ===== src/Lib.antt =====
-- The Pinaivu coordinator: a model of its Rust code and what holds of it.
--
-- A client's request runs an auction among GPU nodes over libp2p; the winner gets the job under a
-- signed dispatch token; when the job is done the node sends a completion ack with signed proofs;
-- the coordinator answers with a signed routing receipt, archives it, writes a payment row for each
-- payout and queues a settlement job; a worker then asks a sidecar to pay each row on chain. A
-- second worker watches deadlines and refunds. An HTTP server offers the request and some
-- administration.
--
-- Files and the code they model:
--   Base       lists, texts, results, maps and comparisons that all parts share.
--   Protocol   src/pinaivu-protocol/src. One child for each kind of message: Proof (proof.rs), Token
--              (dispatch_token.rs), Receipt and SuiAddress (routing_receipt.rs), Completion, Recruit
--              and Dispatch (mesh/). Signing holds the checks that every verify makes.
--   Auction    src/coordinator/src/marketplace/auction.rs. Defs is the code, Order and Winner the
--              order on bids and who wins. Float is the interface of f32.
--   Registry   src/coordinator/src/mesh/peer_registry.rs; find_peer is PeerRegistry::get.
--   Store      the tables of src/coordinator/src/persistence/postgres.rs as one World, with actions
--              on it, the receipt archives of src/coordinator/src/receipts, the connections to
--              Postgres and Redis (Connect), the migrations (Schema; Migrations and Migrated are about
--              them), the trait of the archives (Archive) and the nonces of persistence/redis.rs
--              (Nonces).
--   Payments   src/coordinator/src/payments: Split (split.rs), Ledger (mod.rs), Amount (the casts);
--              Book takes the map of addresses up to its look-ups.
--   Settlement src/coordinator/src/settlement (Adapter), SidecarClient::settle of
--              src/coordinator/src/onchain/sui.rs (Sidecar), and the worker of
--              src/coordinator/src/jobs/settlement_worker.rs (Worker; Pending, Drain
--              and Once are about its runs).
--   Jobs       src/coordinator/src/jobs: Job (dispatch_job.rs), Tracking (store.rs), Timeout
--              (worker.rs), and Laws on their life together.
--   Mesh       src/coordinator/src/mesh/event_loop.rs: the loop's state, Ack for
--              handle_completion_ack, Events for the other handlers and the loop as a step relation;
--              Handles is mesh/mod.rs and mesh/test_mesh.rs. Settled joins an ack to its settlement,
--              AckSteps and AckLaws say what an ack does, Waiting who gets the reply to a dispatch, Warm and
--              NextAuction what the next auction sees of it, Sound, Untouched and Reach follow the runs, Added and Bidding the bids of a run.
--   Onchain    wait_ready, register_enclave and spawn_registration of
--              src/coordinator/src/onchain/sui.rs; Retries says how the loops end.
--   Api        src/coordinator/src/api/inference.rs (Messages, Inference), api/admin.rs (Admin),
--              api/models.rs (Models), api/proofs.rs (Proofs), app/error.rs (Errors) and the key
--              agreement of src/nautilus-enclave/src/crypto.rs (Crypto).
--              Health has api/health.rs and api/nodes.rs, Listings and Session the two
--              listings of api/admin.rs (Listed and Turns are about them),
--              Router the routes of src/coordinator/src/lib.rs. Calls has the calls of a chat completion
--              as commands of the event loop; Owed, Served, Journey and Reordered follow one to the end.
--   System     src/system/src/lib.rs and src/aws/src/lib.rs: entropy and the config socket; Sockets has
--              the connections and Calls mount, freopen and insmod.
--   Init       src/init/src: Config (config.rs), Setup (the environment and the hosts file of main.rs),
--              Main (its calls in their order) and Forward (its log relay); Parsing, Environment, Wire,
--              Relay and CatchUp are about them.
--   Attestation src/nautilus-enclave/src/nsm.rs.
--   App        src/coordinator/src/app: Config and State; Startup and Tls are src/coordinator/src/main.rs,
--              with the TLS helpers of lib.rs; Booted, Wiring and Boot say how the parts come up, Trust whose key signs.
--   Checks     concrete inputs, and models of the interfaces below.
--
-- What is not in the repository is an argument: External (ed25519, SHA-256, hex, serde_json, bcs)
-- with SignatureLaws and BindingLaws, Float with FloatLaws, CryptoExternal with CryptoLaws, Json, the
-- reading and writing of JSONB, the security module with IsCertifying, Postgres with IsPostgres,
-- MeshExternal and Swarm. A theorem takes the laws that it needs as hypotheses. BindingLaws takes
-- cryptography to be unbreakable: no signature fits two messages and no two values share a digest,
-- which holds of the real functions only for whoever cannot break them.
--
-- Numbers are natural numbers; casts between u64 and BIGINT are written out. Clocks are arguments.
-- A failing database is a sequence of faults in the World, one for each statement to come. All loops
-- go over lists or count the attempts that are left, so no fuel is chosen; a handler that waits for
-- room in a channel has no result at that step.
--
-- The registry of peers is one Arc in the program; the model has it in the event loop, which alone
-- changes it, and App.State.while_at gives the handlers the loop's.
--
-- Not modelled: the swarm's configuration (src/pinaivu-protocol/src/mesh/behaviour.rs), which is
-- calls of libp2p; logging, the server and its shutdown; what single system calls do; time stamps
-- of payment rows. The structs of src/coordinator/src/reputation are used by nothing.
pub mod Base
pub mod Protocol
pub mod Auction
pub mod Registry
pub mod Store
pub mod Payments
pub mod Settlement
pub mod Jobs
pub mod Mesh
pub mod Api
pub mod Onchain
pub mod System
pub mod Init
pub mod Attestation
pub mod App
pub mod Checks
