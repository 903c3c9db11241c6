-- ===== src/Payments/Split.antt =====
-- src/coordinator/src/payments/split.rs.
use mathlib.Core.List.{Memᴰ}
use coordinator.Base.{
  ℕ, ◌+◌, ◌≡◌, refl, List, [], ◌∷◌, Text, text_eq, Option, none, some, Option-cases, inl, inr,
  filter_map, cons?, All, arith,
}
use coordinator.Base.Map.{Map, get}
use coordinator.Protocol.Proof.{ProofOfInference}
use coordinator.Protocol.Completion.{CompletionAck}

pub record PayoutLine : Type 0 where
  pub peer_id : Text
  pub sui_address : Text
  pub amount_nanox : ℕ

-- The closure of `filter_map`, behind the look-up of the address.
abbrev pub line_at : ProofOfInference → Option Text → Option PayoutLine
line_at proof none = none
line_at proof (some sui_address) = some (record {
  peer_id = proof.node_peer_id;
  sui_address = sui_address;
  amount_nanox = proof.price_paid_nanox;
})

abbrev pub payout_line : Map Text Text → ProofOfInference → Option PayoutLine
payout_line payout_addresses proof = line_at proof (get proof.node_peer_id payout_addresses)

unfoldable pub compute_payouts : CompletionAck → Map Text Text → List PayoutLine
compute_payouts ack payout_addresses = filter_map (payout_line payout_addresses) ack.proofs

abbrev pub total_paid : List PayoutLine → ℕ
total_paid [] = 0
total_paid (l ∷ ls) = l.amount_nanox + total_paid ls

-- What the proofs declare, over those whose node has a payout address and over the others.
abbrev pub priced_at : Option Text → ℕ → ℕ
priced_at none price = 0
priced_at (some _) price = price

abbrev pub unpriced_at : Option Text → ℕ → ℕ
unpriced_at none price = price
unpriced_at (some _) price = 0

module _ (addresses : Map Text Text) where
  abbrev pub total_addressed : List ProofOfInference → ℕ
  total_addressed [] = 0
  total_addressed (p ∷ ps) =
      priced_at (get p.node_peer_id addresses) p.price_paid_nanox + total_addressed ps

  abbrev pub total_unaddressed : List ProofOfInference → ℕ
  total_unaddressed [] = 0
  total_unaddressed (p ∷ ps) =
      unpriced_at (get p.node_peer_id addresses) p.price_paid_nanox + total_unaddressed ps

  abbrev pub total_declared : List ProofOfInference → ℕ
  total_declared [] = 0
  total_declared (p ∷ ps) = p.price_paid_nanox + total_declared ps

  total-filter_map :
      (ps : List ProofOfInference)
      → (total_paid (filter_map (payout_line addresses) ps) ≡ total_addressed ps)
        × (total_paid (filter_map (payout_line addresses) ps) + total_unaddressed ps
            ≡ total_declared ps)
  total-filter_map [] = (refl, refl)
  total-filter_map (p ∷ ps) = elim (Option-cases (get p.node_peer_id addresses)) [
    | inl e ↦ ground (arith, e, total-filter_map ps)
    | inr (a, e) ↦ ground (arith, e, total-filter_map ps)
  ]

  -- A line pays the price of one of the proofs to the address on record for that proof's node.
  abbrev pub IsDue : List ProofOfInference → PayoutLine → Type 0
  IsDue ps l =
      (p : ProofOfInference) × Memᴰ p ps
      × (l.peer_id ≡ p.node_peer_id)
      × (l.amount_nanox ≡ p.price_paid_nanox)
      × (get p.node_peer_id addresses ≡ some l.sui_address)

  IsDue-later :
      (p : ProofOfInference) (ps : List ProofOfInference) (ls : List PayoutLine)
      → All (IsDue ps) ls
      → All (IsDue (p ∷ ps)) ls
  IsDue-later p ps [] h = tt
  IsDue-later p ps (l ∷ ls) ((q, m, d, e, g), h) =
      ((q, Memᴰ.tail m, d, e, g), IsDue-later p ps ls h)

  cons?-IsDue :
      (p : ProofOfInference) (ps : List ProofOfInference) (ls : List PayoutLine) (o : Option Text)
      → get p.node_peer_id addresses ≡ o
      → All (IsDue (p ∷ ps)) ls
      → All (IsDue (p ∷ ps)) (cons? (line_at p o) ls)
  cons?-IsDue p ps ls none e h = h
  cons?-IsDue p ps ls (some a) e h = ((p, Memᴰ.head refl, refl, refl, e), h)

  filter_map-IsDue :
      (ps : List ProofOfInference) → All (IsDue ps) (filter_map (payout_line addresses) ps)
  filter_map-IsDue [] = tt
  filter_map-IsDue (p ∷ ps) = cons?-IsDue p ps _ _ refl (IsDue-later p ps _ (filter_map-IsDue ps))

  -- Every line is due, and the lines pay in total the declared prices of the nodes with an address
  -- on record: what is declared is paid, or belongs to a node without one.
  pub compute_payouts-IsDue :
      (ack : CompletionAck)
      → All (IsDue ack.proofs) (compute_payouts ack addresses)
        × (total_paid (compute_payouts ack addresses) ≡ total_addressed ack.proofs)
        × (total_paid (compute_payouts ack addresses) + total_unaddressed ack.proofs
            ≡ total_declared ack.proofs)
  unfolding compute_payouts
  compute_payouts-IsDue ack =
      let (paid, all) = total-filter_map ack.proofs in (filter_map-IsDue ack.proofs, paid, all)
