-- ===== src/Payments/Ledger.antt =====
-- src/coordinator/src/payments/mod.rs.
use coordinator.Base.{
  suc, List, [], ◌∷◌, ◌++◌, Text, Bool, true, false, Option, none, some, ◌==◌, nat_eq, ◌&&◌,
  if◌then◌else◌,
}
use coordinator.Base.Map.{Map, get, modify}
use coordinator.Protocol.Types.{Uuid}
use coordinator.Store.Defs.{
  World, Action, ◌>>=◌, ◌>>◌, pure, execute, fetch, PaymentRow, PaymentStatus, pending, submitted,
  confirmed, failed,
}
use coordinator.Payments.Split.{PayoutLine}
use coordinator.Payments.Amount.{as_i64}

-- `Uuid::new_v4()`.
abbrev pub new_v4 : Action Uuid
new_v4 w = pure w.next_id (record w { next_id = suc w.next_id })

abbrev pub pending_row : Uuid → PayoutLine → PaymentRow
pending_row request_id line = record {
  request_id = request_id;
  payee_peer_id = line.peer_id;
  payee_sui_address = line.sui_address;
  amount_nanox = as_i64 line.amount_nanox;
  status = pending;
  tx_digest = none;
}

-- `INSERT … ON CONFLICT DO NOTHING`: the one unique column is the id.
abbrev pub insert_at :
    Option PaymentRow → Uuid → PaymentRow → Map Uuid PaymentRow → Map Uuid PaymentRow
insert_at none id row rows = rows ++ (id, row) ∷ []
insert_at (some _) id row rows = rows

abbrev pub insert_row : Uuid → PaymentRow → World → World
insert_row id row w = record w { payments = insert_at (get id w.payments) id row w.payments }

unfoldable pub insert_pending : Uuid → List PayoutLine → Action (Unit {0})
insert_pending request_id [] = pure tt
insert_pending request_id (line ∷ lines) = do
  id ← new_v4
  execute (insert_row id (pending_row request_id line))
  insert_pending request_id lines

abbrev pub is_pending : PaymentStatus → Bool
is_pending pending = true
is_pending submitted = false
is_pending confirmed = false
is_pending failed = false

abbrev pub pending_rows : Uuid → Map Uuid PaymentRow → Map Uuid PaymentRow
pending_rows request_id [] = []
pending_rows request_id ((id, row) ∷ rows) =
    if row.request_id == request_id && is_pending row.status
    then (id, row) ∷ pending_rows request_id rows
    else pending_rows request_id rows

-- The rows of the query, each with its id.
unfoldable pub pending_for_request : Uuid → Action (Map Uuid PaymentRow)
pending_for_request request_id = fetch λ w. pending_rows request_id w.payments

abbrev pub set_submitted : Text → PaymentRow → PaymentRow
set_submitted tx_digest row = record row { status = submitted; tx_digest = some tx_digest }

abbrev pub set_status : PaymentStatus → PaymentRow → PaymentRow
set_status status row = record row { status = status }

abbrev update_row : Uuid → (PaymentRow → PaymentRow) → World → World
update_row id f w = record w { payments = modify id f w.payments }

unfoldable pub mark_submitted : Uuid → Text → Action (Unit {0})
mark_submitted id tx_digest = execute (update_row id (set_submitted tx_digest))

unfoldable pub mark_confirmed : Uuid → Action (Unit {0})
mark_confirmed id = execute (update_row id (set_status confirmed))

unfoldable pub mark_failed : Uuid → Action (Unit {0})
mark_failed id = execute (update_row id (set_status failed))
