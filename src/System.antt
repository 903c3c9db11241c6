-- ===== src/System.antt =====
-- src/system/src/lib.rs and src/aws/src/lib.rs: random bytes from the security module, and the
-- socket on which the parent pushes the config. What a system call answers is an argument.
pub mod Entropy
pub mod Sockets
pub mod Calls
use coordinator.Base.{
  ℕ, List, [], ◌∷◌, ◌++◌, Text, Bytes, Bool, true, false, Option, none, some, Outcome, ok, err,
  codes, length, ltb, if◌then◌else◌,
}

-- The loop of `get_entropy` with the `nsm` feature: each answer of `nsm_get_random` is a chunk or an
-- error. `none` where the answers run out before the loop ends.
abbrev pub fill_from : ℕ → Bytes → List (Option Bytes) → Option (Outcome Text Bytes)
fill_from size out [] = if ltb (length out) size then none else some (ok out)
fill_from size out (none ∷ answers) =
    if ltb (length out) size then some (err (codes "NSM get_random failed")) else some (ok out)
fill_from size out (some chunk ∷ answers) =
    let rest = fill_from size (out ++ chunk) answers in
    if ltb (length out) size then rest else some (ok out)

unfoldable pub get_entropy : Bool → ℕ → List (Option Bytes) → Option (Outcome Text Bytes)
get_entropy false size answers = some (err (codes "NSM init failed"))
get_entropy true size answers = fill_from size [] answers

-- `seed_entropy`, with what opening and writing /dev/urandom answer; the bytes written and the result.
abbrev pub write_seed :
    Bytes → Outcome Text (Unit {0}) → Outcome Text (Unit {0}) → Outcome Text ℕ × Bytes
write_seed entropy (err e) written = (err (codes "open /dev/urandom: " ++ e), [])
write_seed entropy (ok f) (err e) = (err (codes "write entropy: " ++ e), [])
write_seed entropy (ok f) (ok done) = (ok (length entropy), entropy)

unfoldable pub seed_entropy :
    Outcome Text Bytes → Outcome Text (Unit {0}) → Outcome Text (Unit {0}) → Outcome Text ℕ × Bytes
seed_entropy (err e) open_result written = (err e, [])
seed_entropy (ok entropy) open_result written = write_seed entropy open_result written

-- What the calls of `vsock_accept` answer: a descriptor where there is one, and success or not.
pub record AcceptCalls : Type 0 where
  pub listener : Option ℕ
  pub bound : Bool
  pub listening : Bool
  pub client : Option ℕ

abbrev pub accepted : Option ℕ → Outcome Text ℕ × List ℕ
accepted none = (err (codes "vsock accept failed"), [])
accepted (some client) = (ok client, client ∷ [])

abbrev pub accept_on : AcceptCalls → Option ℕ → Outcome Text ℕ × List ℕ
accept_on calls none = (err (codes "vsock socket failed"), [])
accept_on calls (some listener) =
    if calls.bound
    then (if calls.listening
        then accepted calls.client
        else (err (codes "vsock listen failed"), listener ∷ []))
    else (err (codes "vsock bind failed"), listener ∷ [])

-- The result, and the descriptors that are open when it returns. The port is left out of the errors.
unfoldable pub vsock_accept : AcceptCalls → Outcome Text ℕ × List ℕ
vsock_accept calls = accept_on calls calls.listener
