-- ===== src/Api/Reordered.antt =====
-- What the order in which bids arrive means for the payouts: the map of addresses that
-- `chat_completions` of src/coordinator/src/api/inference.rs makes, as a book.
use mathlib.Core.Quot
use coordinator.Base.{
  List, [], ◌∷◌, Text, text_eq, ◌≡◌, ◌≢◌, refl, sym, ap, ◌∙◌, arith, Option, none, some,
}
use coordinator.Base.Map.{get}
use coordinator.Protocol.Types.{InferenceBid}
use coordinator.Protocol.Completion.{CompletionAck}
use coordinator.Payments.Split.{compute_payouts}
use coordinator.Payments.Book.{Book, SameLookup, pay, pay-mk}
use coordinator.Api.Inference.{collect_addresses}
use coordinator.Api.Owed.{or_before, address_of, get-collect_addresses}

-- The same bids, those of each node in their order: bids of different nodes may change places.
pub data Reordered : List InferenceBid → List InferenceBid → Type 0 where
  same : (bids : List InferenceBid) → Reordered bids bids
  swap :
      (b c : InferenceBid) (bids : List InferenceBid)
      → b.node_peer_id ≢ c.node_peer_id
      → Reordered (b ∷ c ∷ bids) (c ∷ b ∷ bids)
  later :
      {bids bids' : List InferenceBid} (b : InferenceBid)
      → Reordered bids bids'
      → Reordered (b ∷ bids) (b ∷ bids')
  then_again :
      {bids bids' bids'' : List InferenceBid}
      → Reordered bids bids'
      → Reordered bids' bids''
      → Reordered bids bids''

address_of-Reordered :
    (peer : Text) {bids bids' : List InferenceBid}
    → Reordered bids bids'
    → address_of peer bids ≡ address_of peer bids'
address_of-Reordered peer (same bids) = refl
address_of-Reordered peer (swap b c bids n) =
    ground (arith, text_eq.beq_iff b.node_peer_id peer, text_eq.beq_iff c.node_peer_id peer, n)
address_of-Reordered peer (later b r) = rw (address_of-Reordered peer r) refl
address_of-Reordered peer (then_again r r') =
    address_of-Reordered peer r ∙ address_of-Reordered peer r'

or_before-none : (o : Option Text) → or_before o none ≡ o
or_before-none none = refl
or_before-none (some a) = refl

-- The book of the addresses that the bids of an auction give.
abbrev pub book_of : List InferenceBid → Book
book_of bids = Quot.mk (collect_addresses bids [])

-- Bids of different nodes may arrive in any order: the book of their addresses is the same, and so
-- is what is paid from it for an ack. For each node the book has the address in the last of its bids
-- that has one, and nothing where none has, whichever of the two orders one reads them in.
pub compute_payouts-Reordered :
    (ack : CompletionAck) (bids bids' : List InferenceBid)
    → Reordered bids bids'
    → (book_of bids ≡ book_of bids')
      × (compute_payouts ack (collect_addresses bids [])
          ≡ compute_payouts ack (collect_addresses bids' []))
      × ((peer : Text) → get peer (collect_addresses bids []) ≡ address_of peer bids)
      × ((peer : Text) → get peer (collect_addresses bids []) ≡ address_of peer bids')
compute_payouts-Reordered ack bids bids' r =
    let same_lookup : SameLookup (collect_addresses bids []) (collect_addresses bids' []) = λ peer.
      get-collect_addresses peer bids []
      ∙ ap (λ o. or_before o none) (address_of-Reordered peer r)
      ∙ sym (get-collect_addresses peer bids' []) in
    let e : book_of bids ≡ book_of bids' = Quot.sound same_lookup in
    let read = λ (peer : Text) (bs : List InferenceBid).
      get-collect_addresses peer bs [] ∙ or_before-none (address_of peer bs) in
    (
      e,
      sym (pay-mk ack _) ∙ ap (pay ack) e ∙ pay-mk ack _,
      (λ peer. read peer bids),
      (λ peer. same_lookup peer ∙ read peer bids'),
    )
