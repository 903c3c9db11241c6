-- ===== src/Store/Receipts.antt =====
-- src/coordinator/src/receipts: the archive of signed receipts. The in-memory archive never fails;
-- the Postgres one runs one upsert or one select on a column of JSONB. serde_json is a parameter:
-- `to_value` writes a receipt, which has derived serializers and no map, so that this cannot fail, and
-- `from_value` reads one and can fail.
use coordinator.Base.{ℕ, length, Text, Option, none, some, nat_eq}
use coordinator.Base.Map.{Map, get, insert}
use coordinator.Protocol.Types.{RequestId}
use coordinator.Protocol.Receipt.{RoutingReceipt}
use coordinator.Store.Defs.{Action, ◌>>=◌, pure, raise, execute, fetch}
use coordinator.Store.Columns.{deserialize}

pub record InMemoryReceiptArchive : Type 0 where
  pub receipts : Map RequestId RoutingReceipt

unfoldable pub memory_put : RoutingReceipt → InMemoryReceiptArchive → InMemoryReceiptArchive
memory_put receipt a = record a { receipts = insert receipt.request_id receipt a.receipts }

unfoldable pub memory_get : RequestId → InMemoryReceiptArchive → Option RoutingReceipt
memory_get request_id a = get request_id a.receipts

unfoldable len : InMemoryReceiptArchive → ℕ
len a = length a.receipts

unfoldable pub put : (RoutingReceipt → Text) → RoutingReceipt → Action (Unit {0})
put to_value receipt = execute λ w. record w {
  routing_receipts = insert receipt.request_id (to_value receipt) w.routing_receipts;
}

abbrev pub read_value : Option RoutingReceipt → Action (Option RoutingReceipt)
read_value none = raise deserialize
read_value (some receipt) = pure (some receipt)

-- A value that is no receipt is an error.
abbrev pub read_row : (Text → Option RoutingReceipt) → Option Text → Action (Option RoutingReceipt)
read_row from_value none = pure none
read_row from_value (some json) = read_value (from_value json)

unfoldable pub get_receipt :
    (Text → Option RoutingReceipt) → RequestId → Action (Option RoutingReceipt)
get_receipt from_value request_id =
    fetch (λ w. get request_id w.routing_receipts) >>= read_row from_value
