-- ===== src/Api/Owed.antt =====
-- What the bids of an auction say of payout addresses, through the map that `chat_completions` of
-- src/coordinator/src/api/inference.rs makes of them.
use coordinator.Base.{
  List, [], ◌∷◌, map, null, not, Text, Option, none, some, ◌==◌, ◌&&◌, text_eq, if◌then◌else◌, ◌≡◌,
  refl, arith, filter_map, cons?,
}
use coordinator.Base.Map.{Map, get, insert, get-insert}
use coordinator.Protocol.Types.{InferenceBid}
use coordinator.Protocol.Proof.{ProofOfInference}
use coordinator.Protocol.Completion.{CompletionAck}
use coordinator.Protocol.Receipt.{Payout}
use coordinator.Payments.Split.{payout_line, compute_payouts}
use coordinator.Mesh.Ack.{payout_of}
use coordinator.Api.Inference.{collect_addresses}

abbrev pub or_before : Option Text → Option Text → Option Text
or_before (some a) before = some a
or_before none before = before

-- The address in the last bid of a node that has one.
abbrev pub address_of : Text → List InferenceBid → Option Text
address_of peer [] = none
address_of peer (b ∷ bids) =
    or_before (address_of peer bids) (
      if b.node_peer_id == peer && not (null b.payout_address) then some b.payout_address else none)

-- Each proof's price, to the address that its node has bid with.
abbrev pub owed_at : ProofOfInference → Option Text → Option Payout
owed_at p none = none
owed_at p (some a) = some (record { sui_address = a; amount_nanox = p.price_paid_nanox })

abbrev pub owed : List InferenceBid → List ProofOfInference → List Payout
owed bids [] = []
owed bids (p ∷ ps) = cons? (owed_at p (address_of p.node_peer_id bids)) (owed bids ps)

pub get-collect_addresses :
    (peer : Text) (bids : List InferenceBid) (m : Map Text Text)
    → get peer (collect_addresses bids m) ≡ or_before (address_of peer bids) (get peer m)
get-collect_addresses peer [] m = refl
get-collect_addresses peer (b ∷ bids) m = ground (
  arith,
  get-collect_addresses peer bids m,
  get-collect_addresses peer bids (insert b.node_peer_id b.payout_address m),
  get-insert b.node_peer_id peer b.payout_address m,
)

pub compute_payouts-owed :
    (ack : CompletionAck) (bids : List InferenceBid)
    → map payout_of (compute_payouts ack (collect_addresses bids [])) ≡ owed bids ack.proofs
unfolding compute_payouts
compute_payouts-owed ack bids = lines ack.proofs
  where
    lines :
        (ps : List ProofOfInference)
        → map payout_of (filter_map (payout_line (collect_addresses bids [])) ps) ≡ owed bids ps
    lines [] = refl
    lines (p ∷ ps) = ground (arith, get-collect_addresses p.node_peer_id bids [], lines ps)
