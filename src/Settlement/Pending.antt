-- ===== src/Settlement/Pending.antt =====
-- Which payment rows a run of the settlement worker selects: pending_for_request of
-- src/coordinator/src/payments/mod.rs.
use coordinator.Base.{
  ◌≡◌, refl, [], ◌∷◌, Bool, true, false, ◌&&◌, ◌==◌, nat_eq, none, some, ◌⊎◌, arith,
}
use coordinator.Base.Map.{Map, get, IsKeyed}
use coordinator.Protocol.Types.{Uuid}
use coordinator.Store.Defs.{PaymentRow}
use coordinator.Payments.Ledger.{is_pending, pending_rows}

abbrev pub due : Uuid → PaymentRow → Bool
due request_id row = row.request_id == request_id && is_pending row.status

pub pending_rows-none :
    (q i : Uuid) (rows : Map Uuid PaymentRow)
    → get i rows ≡ none
    → get i (pending_rows q rows) ≡ none
pending_rows-none q i [] h = refl
pending_rows-none q i ((j, row) ∷ rows) h = ground (arith, pending_rows-none q i rows)

pub pending_rows-IsKeyed :
    (q : Uuid) (rows : Map Uuid PaymentRow) → IsKeyed rows → IsKeyed (pending_rows q rows)
pending_rows-IsKeyed q [] h = tt
pending_rows-IsKeyed q ((j, row) ∷ rows) h =
    ground (arith, pending_rows-IsKeyed q rows h.1, pending_rows-none q j rows h.0)

pub get-pending_rows :
    (q i : Uuid) (row : PaymentRow) (rows : Map Uuid PaymentRow)
    → IsKeyed rows
    → get i rows ≡ some row
    → ((due q row ≡ true) × (get i (pending_rows q rows) ≡ some row))
      ⊎ ((due q row ≡ false) × (get i (pending_rows q rows) ≡ none))
get-pending_rows q i row [] h e = cc
get-pending_rows q i row ((j, r) ∷ rows) h e = ground (
  arith,
  get-pending_rows q i row rows h.1,
  pending_rows-none q i rows,
  pending_rows-none q j rows h.0,
  nat_eq.beq_iff j i,
)
