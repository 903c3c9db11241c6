-- ===== src/Api/Listings.antt =====
-- `settlement_status` of src/coordinator/src/api/admin.rs: the payment rows of a request. Texts of
-- identifiers and times are made by functions of the crates.
use coordinator.Base.{
  ℕ, List, [], ◌∷◌, map, Text, Bool, true, false, Option, none, some, Outcome, ok, err, codes, ◌==◌,
  nat_eq, if◌then◌else◌,
}
use mathlib.Core.Option
use coordinator.Base.Map.{Map}
use coordinator.Protocol.Types.{Uuid}
use coordinator.Store.Columns.{ℤ, Failure}
use coordinator.Store.Defs
use coordinator.Store.Defs.{
  World, Action, CacheRow, PaymentStatus, pending, submitted, confirmed, failed, fetch,
}
use coordinator.Api.Admin.{Refusal, check_secret}

-- The time columns of a row of `payments`.
pub record PaymentTimes : Type 0 where
  pub created_at : ℕ
  pub submitted_at : Option ℕ
  pub confirmed_at : Option ℕ

-- `Uuid::parse_str`, and `to_string` and `to_rfc3339` of identifiers and times; and the time columns of a
-- payment row, by its id, which the tables of Store leave out.
pub record AdminExternal : Type 0 where
  pub parse_uuid : Text → Option Uuid
  pub uuid_to_string : Uuid → Text
  pub time_to_string : ℕ → Text
  pub payment_times : Uuid → PaymentTimes

pub record PaymentRow : Type 0 where
  pub id : Text
  pub request_id : Text
  pub payee_peer_id : Text
  pub payee_sui_address : Text
  pub amount_nanox : ℤ
  pub status : Text
  pub tx_digest : Option Text
  pub created_at : Text
  pub submitted_at : Option Text
  pub confirmed_at : Option Text

pub record SettlementStatusResp : Type 0 where
  pub request_id : Text
  pub payments : List PaymentRow

-- The text of the status column.
abbrev pub status_text : PaymentStatus → Text
status_text pending = codes "pending"
status_text submitted = codes "submitted"
status_text confirmed = codes "confirmed"
status_text failed = codes "failed"

-- `WHERE request_id = $1`; the table stands in the order of `created_at`.
abbrev pub rows_of : Uuid → Map Uuid Defs.PaymentRow → List (Uuid × Defs.PaymentRow)
rows_of q [] = []
rows_of q ((id, row) ∷ rows) =
    if row.request_id == q then (id, row) ∷ rows_of q rows else rows_of q rows

-- The checks that both listings make, in their order: the secret, the identifier, the pool.
abbrev pub with_pool :
    {A : Type 0} → Bool → (World → Outcome Refusal A × World) → World → Outcome Refusal A × World
with_pool true query w = query w
with_pool false query w = (err (503, codes "pg pool not attached"), w)

abbrev pub with_uuid :
    {A : Type 0}
    → Text
    → Option Uuid
    → Bool
    → (Uuid → World → Outcome Refusal A × World)
    → World
    → Outcome Refusal A × World
with_uuid message none pool query w = (err (400, message), w)
with_uuid message (some q) pool query w = with_pool pool (query q) w

abbrev pub guarded :
    {A : Type 0}
    → Outcome Refusal Text
    → Text
    → Option Uuid
    → Bool
    → (Uuid → World → Outcome Refusal A × World)
    → World
    → Outcome Refusal A × World
guarded (err e) message id pool query w = (err e, w)
guarded (ok secret) message id pool query w = with_uuid message id pool query w

module _ (x : AdminExternal) where
  abbrev pub payment_row : Uuid × Defs.PaymentRow → PaymentRow
  payment_row (id, row) = record {
    id = x.uuid_to_string id;
    request_id = x.uuid_to_string row.request_id;
    payee_peer_id = row.payee_peer_id;
    payee_sui_address = row.payee_sui_address;
    amount_nanox = row.amount_nanox;
    status = status_text row.status;
    tx_digest = row.tx_digest;
    created_at = x.time_to_string (x.payment_times id).created_at;
    submitted_at = Option.map x.time_to_string (x.payment_times id).submitted_at;
    confirmed_at = Option.map x.time_to_string (x.payment_times id).confirmed_at;
  }

  -- The failure's own text is left out of the error.
  abbrev pub listed_payments :
      Text → Outcome Failure (List (Uuid × Defs.PaymentRow)) → Outcome Refusal SettlementStatusResp
  listed_payments request_id (ok rows) =
      ok (record { request_id = request_id; payments = map payment_row rows })
  listed_payments request_id (err e) = err (500, codes "query payments: ")

  abbrev pub query_payments : Text → Uuid → World → Outcome Refusal SettlementStatusResp × World
  query_payments request_id q w =
      let (r, w') = fetch (λ v. rows_of q v.payments) w in (listed_payments request_id r, w')

  unfoldable pub settlement_status :
      Option Text → Option Text → Bool → Text → World → Outcome Refusal SettlementStatusResp × World
  settlement_status env header pool request_id w =
      guarded (check_secret env header) (codes "request_id is not a uuid") (x.parse_uuid request_id)
        pool (query_payments request_id) w
