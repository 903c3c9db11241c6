-- ===== src/Auction/Defs.antt =====
-- The code of auction.rs. The bid channel and its deadline are the sequence of what the polls of
-- `timeout_at(deadline, rx.recv())` return.
use Prim.Native.Nat.{compare, Ordering}
use coordinator.Base.{
  ℕ, List, [], ◌∷◌, Text, Option, none, some, ◌==◌, text_eq, codes, if◌then◌else◌,
}
use coordinator.Base.Map.{Map, get, insert}
use coordinator.Protocol.Types.{F32, InferenceBid}
use coordinator.Auction.Float.{Float, greater, clamp}

-- `DEFAULT_AUCTION_WINDOW`, in milliseconds.
abbrev pub default_auction_window : ℕ
default_auction_window = 1500

abbrev pub WarmthMap : Type 0
WarmthMap = Map Text F32

-- One round of the loop of `collect_bids`: a bid, the sender closed, or the deadline reached.
pub data Poll : Type 0 where
  received : InferenceBid → Poll
  closed elapsed : Poll

-- The end of the sequence stands for the deadline, which comes at last.
unfoldable pub collect_bids : List Poll → List InferenceBid
collect_bids [] = []
collect_bids (received bid ∷ rest) = bid ∷ collect_bids rest
collect_bids (closed ∷ rest) = []
collect_bids (elapsed ∷ rest) = []

abbrev pub unwrap_or {ℓ} : {A : Type ℓ} → A → Option A → A
unwrap_or d none = d
unwrap_or d (some a) = a

-- `match o { Equal => next, other => other }`.
abbrev pub or_else : Ordering → Ordering → Ordering
or_else Ordering.eq next = next
or_else Ordering.lt next = Ordering.lt
or_else Ordering.gt next = Ordering.gt

-- The choice of `max_by` between the best so far and the next.
abbrev pub stays : Ordering → InferenceBid → InferenceBid → InferenceBid
stays Ordering.gt best bid = best
stays Ordering.lt best bid = bid
stays Ordering.eq best bid = bid

module _ (f : Float) where
  abbrev pub weight_price : F32
  weight_price = f.literal 4 10

  abbrev pub weight_latency : F32
  weight_latency = f.literal 3 10

  abbrev pub weight_reputation : F32
  weight_reputation = f.literal 3 10

  abbrev pub weight_price_w : F32
  weight_price_w = f.literal 35 100

  abbrev pub weight_latency_w : F32
  weight_latency_w = f.literal 25 100

  abbrev pub weight_reputation_w : F32
  weight_reputation_w = f.literal 25 100

  abbrev pub weight_warmth : F32
  weight_warmth = f.literal 15 100

  unfoldable pub warmth_for_tier : Text → F32
  warmth_for_tier tier =
      if tier == codes "gpu"
      then f.literal 1 1
      else if tier == codes "cpu"
      then f.literal 7 10
      else if tier == codes "disk"
      then f.literal 4 10
      else f.literal 0 1

  -- `if v > 0.0 { 1.0 / v } else { 0.0 }`.
  abbrev inverse : F32 → F32
  inverse v = if greater f v (f.literal 0 1) then f.div (f.literal 1 1) v else f.literal 0 1

  unfoldable pub score_bid : InferenceBid → F32
  score_bid bid =
      f.add
        (f.add (f.mul weight_price (inverse (f.of_int bid.price_per_1k)))
          (f.mul weight_latency (inverse (f.of_int bid.latency_ms))))
        (f.mul weight_reputation bid.reputation)

  unfoldable pub score_bid_with_warmth : InferenceBid → F32 → F32
  score_bid_with_warmth bid warmth =
      f.add
        (f.add
          (f.add (f.mul weight_price_w (inverse (f.of_int bid.price_per_1k)))
            (f.mul weight_latency_w (inverse (f.of_int bid.latency_ms))))
          (f.mul weight_reputation_w bid.reputation))
        (f.mul weight_warmth (clamp f warmth (f.literal 0 1) (f.literal 1 1)))

  -- The score under which a bid takes part: the node's warmth, or 0 where the map has none.
  abbrev pub score_in : WarmthMap → InferenceBid → F32
  score_in warmth_map bid =
      score_bid_with_warmth bid (unwrap_or (f.literal 0 1) (get bid.node_peer_id warmth_map))

  -- The closure that `pick_winner_with_warmth` hands to `max_by`.
  unfoldable pub compare_bids : WarmthMap → InferenceBid → InferenceBid → Ordering
  compare_bids warmth_map a b =
      or_else
        (unwrap_or Ordering.eq (f.partial_cmp (score_in warmth_map a) (score_in warmth_map b)))
        (or_else (compare b.price_per_1k a.price_per_1k) (compare b.latency_ms a.latency_ms))

  -- `Iterator::max_by`: of two that compare equal the later one stays.
  unfoldable pub max_from : WarmthMap → InferenceBid → List InferenceBid → InferenceBid
  max_from warmth_map best [] = best
  max_from warmth_map best (bid ∷ bids) =
      max_from warmth_map (stays (compare_bids warmth_map best bid) best bid) bids

  unfoldable pub pick_winner_with_warmth : List InferenceBid → WarmthMap → Option InferenceBid
  unfolding max_from
  pick_winner_with_warmth [] warmth_map = none
  pick_winner_with_warmth (bid ∷ bids) warmth_map = some (max_from warmth_map bid bids)

  unfoldable pub pick_winner : List InferenceBid → Option InferenceBid
  unfolding pick_winner_with_warmth
  pick_winner bids = pick_winner_with_warmth bids []

  -- The rows of `SELECT node_peer_id, cache_tier`, gathered into the map; a later row of a node
  -- replaces an earlier one.
  abbrev pub collect_rows : List (Text × Text) → WarmthMap → WarmthMap
  collect_rows [] m = m
  collect_rows ((peer, tier) ∷ rows) m = collect_rows rows (insert peer (warmth_for_tier tier) m)

  -- `none` stands for a coordinator without a pool, and for a query that failed.
  unfoldable pub fetch_warmth_map : Option (List (Text × Text)) → WarmthMap
  fetch_warmth_map none = []
  fetch_warmth_map (some rows) = collect_rows rows []
