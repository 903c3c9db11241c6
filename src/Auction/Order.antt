-- ===== src/Auction/Order.antt =====
-- What `compare_bids` decides when every score is a number: the score, then the lower price, then
-- the lower latency.
use Prim.Native.Nat.{Ordering}
use coordinator.Base.{ℕ, ◌<◌, ◌≤◌, ◌≡◌, ◌⊎◌, true, arith}
use coordinator.Protocol.Types.{InferenceBid}
use coordinator.Auction.Float.{Float, FloatLaws}
use coordinator.Auction.Defs.{WarmthMap, score_in, compare_bids}

module _ (f : Float) (l : FloatLaws f) (warmth : WarmthMap) where
  abbrev pub HasScore : InferenceBid → Type 0
  HasScore b = l.is_number (score_in f warmth b) ≡ true

  abbrev pub score_rank : InferenceBid → ℕ
  score_rank b = l.rank (score_in f warmth b)

  -- `b` does not beat `w`.
  abbrev pub AtMost : InferenceBid → InferenceBid → Type 0
  AtMost b w =
      (score_rank b < score_rank w)
      ⊎ ((score_rank b ≡ score_rank w)
          × ((w.price_per_1k < b.price_per_1k)
              ⊎ ((w.price_per_1k ≡ b.price_per_1k) × (w.latency_ms ≤ b.latency_ms))))

  -- `w` beats `b`.
  abbrev pub Below : InferenceBid → InferenceBid → Type 0
  Below b w =
      (score_rank b < score_rank w)
      ⊎ ((score_rank b ≡ score_rank w)
          × ((w.price_per_1k < b.price_per_1k)
              ⊎ ((w.price_per_1k ≡ b.price_per_1k) × (w.latency_ms < b.latency_ms))))

  pub AtMost-trans : (a b c : InferenceBid) → AtMost a b → AtMost b c → AtMost a c
  AtMost-trans a b c h k = grind arith

  pub Below-AtMost : (a b : InferenceBid) → Below a b → AtMost a b
  Below-AtMost a b h = grind arith

  -- What the answer of a comparison says.
  abbrev pub Decides : Ordering → InferenceBid → InferenceBid → Type 0
  Decides o a b =
      ((o ≡ Ordering.gt) × Below b a) ⊎ (((o ≡ Ordering.lt) ⊎ (o ≡ Ordering.eq)) × AtMost a b)

  -- `compare_bids` answers Greater exactly where the first bid beats the second.
  pub compare_bids-Decides :
      (a b : InferenceBid) → HasScore a → HasScore b → Decides (compare_bids f warmth a b) a b
  unfolding compare_bids
  compare_bids-Decides a b ha hb =
      ground (arith, l.partial_cmp-rank (score_in f warmth a) (score_in f warmth b) ha hb)
