-- ===== src/Payments/Book.antt =====
-- The payout addresses of src/coordinator/src/payments/split.rs as what a HashMap is: a map up to what
-- its look-ups answer.
use mathlib.Core.Quot
use mathlib.Core.Quot.{Quot}
use coordinator.Base.{List, [], ◌∷◌, Text, text_eq, filter_map, ◌≡◌, refl, arith}
use coordinator.Base.Map.{Map, get}
use coordinator.Protocol.Proof.{ProofOfInference}
use coordinator.Protocol.Completion.{CompletionAck}
use coordinator.Payments.Split.{PayoutLine, payout_line, compute_payouts}

abbrev pub SameLookup : Map Text Text → Map Text Text → Type 0
SameLookup m m' = (peer : Text) → get peer m ≡ get peer m'

abbrev pub Book : Type 0
Book = Quot SameLookup

lines-SameLookup :
    (m m' : Map Text Text)
    → SameLookup m m'
    → (ps : List ProofOfInference) → filter_map (payout_line m) ps ≡ filter_map (payout_line m') ps
lines-SameLookup m m' h [] = refl
lines-SameLookup m m' h (p ∷ ps) = ground (arith, h p.node_peer_id, lines-SameLookup m m' h ps)

lines_set : IsSet (List PayoutLine)
lines_set = hlevel

-- The payouts are a function of the book.
pub pay : CompletionAck → Book → List PayoutLine
unfolding compute_payouts
pay ack = Quot.lift lines_set (compute_payouts ack) (λ m m' h. lines-SameLookup m m' h ack.proofs)

pub pay-mk : (ack : CompletionAck) (m : Map Text Text) → pay ack (Quot.mk m) ≡ compute_payouts ack m
unfolding pay
pay-mk ack m = refl
