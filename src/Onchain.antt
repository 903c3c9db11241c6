-- ===== src/Onchain.antt =====
-- src/coordinator/src/onchain/sui.rs: waiting for the sidecar, and the registration of the enclave.
-- `SidecarClient::settle` is in Settlement/Sidecar. Sleeps are added up, in milliseconds.
pub mod Retries
use coordinator.Base.{
  ℕ, zero, suc, ◌+◌, ◌*◌, min, Text, Bool, true, false, Option, none, some, Outcome, ok, err, codes,
  ◌==◌, nat_eq, text_eq, if◌then◌else◌,
}
use coordinator.Store.Columns.{Failure, sidecar_error, deserialize}
use coordinator.Store.Defs.{HttpReply, unreachable, answered}
use coordinator.Api.Admin.{RegisteredEnclave}

abbrev pub is_success : HttpReply → Bool
is_success unreachable = false
is_success (answered status body) = status

-- The loop of `wait_ready` from an attempt on, with `left` attempts to go; `health n` is what the
-- poll of attempt `n` meets. The result and the time slept.
unfoldable pub poll_from : (ℕ → HttpReply) → ℕ → ℕ → ℕ → Outcome Failure (Unit {0}) × ℕ
poll_from health max_attempts attempt zero = (ok tt, 0)
poll_from health max_attempts attempt (suc left) =
    let rest = poll_from health max_attempts (suc attempt) left in
    if is_success (health attempt)
    then (ok tt, 0)
    else if attempt == max_attempts
    then (err sidecar_error, 500)
    else (rest.0, 500 + rest.1)

unfoldable pub wait_ready : (ℕ → HttpReply) → ℕ → Outcome Failure (Unit {0}) × ℕ
wait_ready health max_attempts = poll_from health max_attempts 1 max_attempts

pub record RegisterEnclaveResp : Type 0 where
  pub tx_digest : Text
  pub enclave_object_id : Option Text

abbrev pub id_or_missing : Option Text → Text
id_or_missing none = codes "<missing>"
id_or_missing (some id) = id

-- The id that is sent on to the sidecar, whose answer is not read.
abbrev pub sent_on : Text → Option Text
sent_on id = if id == codes "<missing>" then none else some id

abbrev pub registered : Option RegisterEnclaveResp → Outcome Failure RegisteredEnclave × Option Text
registered none = (err deserialize, none)
registered (some resp) =
    let id : Text = id_or_missing resp.enclave_object_id in
    (ok (record { tx_digest = resp.tx_digest; enclave_object_id = id }), sent_on id)

-- `resp_from_str` is serde_json.
unfoldable pub register_enclave :
    (Text → Option RegisterEnclaveResp)
    → HttpReply
    → Outcome Failure RegisteredEnclave × Option Text
register_enclave resp_from_str unreachable = (err sidecar_error, none)
register_enclave resp_from_str (answered false body) = (err sidecar_error, none)
register_enclave resp_from_str (answered true body) = registered (resp_from_str body)

abbrev pub max_registrations : ℕ
max_registrations = 5

-- The loop of `spawn_registration`, with `left` attempts to go: the cell that `/enclave_health`
-- reads, and the time slept.
unfoldable pub register_from :
    (ℕ → Outcome Failure RegisteredEnclave)
    → ℕ
    → ℕ
    → ℕ
    → Option RegisteredEnclave
    → Option RegisteredEnclave × ℕ
register_from register attempt backoff zero cell = (cell, 0)
register_from register attempt backoff (suc left) cell =
    let rest = register_from register (suc attempt) (min (backoff * 2) 60000) left cell in
    elim (register attempt) [
      | ok reg ↦ (some reg, 0)
      | err e ↦ if attempt == max_registrations then (cell, 0) else (rest.0, backoff + rest.1)
    ]

abbrev pub after_ready :
    Outcome Failure (Unit {0})
    → (ℕ → Outcome Failure RegisteredEnclave)
    → Option RegisteredEnclave
    → Option RegisteredEnclave × ℕ
after_ready (err e) register cell = (cell, 0)
after_ready (ok done) register cell = register_from register 1 2000 max_registrations cell

-- The task: `health` answers the polls, `register` the attempts at registration.
unfoldable pub registration :
    (ℕ → HttpReply)
    → (ℕ → Outcome Failure RegisteredEnclave)
    → Option RegisteredEnclave
    → Option RegisteredEnclave × ℕ
registration health register cell =
    let ready = wait_ready health 60 in
    let done = after_ready ready.0 register cell in (done.0, ready.1 + done.1)
