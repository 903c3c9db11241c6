-- ===== src/Checks/Startup.antt =====
-- The theorems on the registration at start-up, with a sidecar that answers from a later poll on.
use coordinator.Base.{
  some, false, Bool, Option, ◌≡◌, ◌↔◌, ℕ, ◌≤◌, none, Outcome, ok, err, true, codes, ltb,
  if◌then◌else◌,
}
use coordinator.Store.Columns.{Failure, sidecar_error}
use coordinator.Store.Defs.{HttpReply, unreachable, answered}
use coordinator.Api.Admin.{RegisteredEnclave}
use coordinator.Onchain.{registration}
use coordinator.Onchain.Retries.{Brought, registration-Brought}
use coordinator.System.{vsock_accept}
use coordinator.System.Sockets.{Clean, socket_connect, vsock_connect, sockets-Clean}

abbrev late_health : ℕ → HttpReply
late_health n = if ltb n 2 then unreachable else answered true (codes "ok")

abbrev late_register : ℕ → Outcome Failure RegisteredEnclave
late_register n =
    if ltb n 3
    then err sidecar_error
    else ok (record { tx_digest = codes "d"; enclave_object_id = codes "0x1" })

registration-Brought_example :
    let (after, slept) = registration late_health late_register none in
    (slept ≤ 60000) × Brought late_register none 1 5 after
registration-Brought_example = registration-Brought late_register none late_health

sockets-Clean_example :
    Clean (vsock_connect (record { socket = some 5; connected = false }))
    × (Clean (socket_connect (record { socket = some 5; connected = false }))
        ↔ ((fd : ℕ) → ◌≡◌ {A = Option ℕ} (some 5) (some fd) → ◌≡◌ {A = Bool} false true))
    × (Clean (
          vsock_accept
            (record { listener = some 4; bound = true; listening = true; client = some 6 }))
        ↔ ((fd : ℕ)
            → ◌≡◌ {A = Option ℕ} (some 4) (some fd)
            → (◌≡◌ {A = Bool} true true) × (◌≡◌ {A = Bool} true true)))
sockets-Clean_example =
    sockets-Clean (record { socket = some 5; connected = false })
      (record { listener = some 4; bound = true; listening = true; client = some 6 })
