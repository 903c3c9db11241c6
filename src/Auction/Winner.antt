-- ===== src/Auction/Winner.antt =====
-- Who wins: a bid that no other beats, and of several such the one that arrived last.
use Prim.Native.Nat.{Ordering}
use coordinator.Base.{◌≡◌, refl, ap, ◌⊎◌, inl, inr, List, [], ◌∷◌, ◌++◌, none, some, All}
use coordinator.Protocol.Types.{InferenceBid}
use coordinator.Auction.Float.{Float, FloatLaws}
use coordinator.Auction.Defs.{WarmthMap, stays, compare_bids, max_from, pick_winner_with_warmth}
use coordinator.Auction.Order.{
  HasScore, Decides, AtMost, Below, AtMost-trans, Below-AtMost, compare_bids-Decides,
}

module _ (f : Float) (l : FloatLaws f) (warmth : WarmthMap) where
  -- `w` stands among the bids; none before it beats it, and it beats every bid behind it.
  abbrev pub Wins : InferenceBid → List InferenceBid → Type 0
  Wins w bids =
      (pre : List InferenceBid) × (post : List InferenceBid) × (bids ≡ pre ++ (w ∷ post))
      × All (λ b. AtMost f l warmth b w) pre
      × All (λ b. Below f l warmth b w) post

  -- The outcome of a scan that starts with `best`.
  abbrev Scans : InferenceBid → List InferenceBid → InferenceBid → Type 0
  Scans best bids w =
      ((w ≡ best) × All (λ b. Below f l warmth b best) bids)
      ⊎ (Wins w bids × AtMost f l warmth best w)

  Scans-keep :
      (best bid : InferenceBid) (bids : List InferenceBid) (w : InferenceBid)
      → Below f l warmth bid best
      → Scans best bids w
      → Scans best (bid ∷ bids) w
  Scans-keep best bid bids w h (inl (e, all)) = inl (e, (h, all))
  Scans-keep best bid bids w h (inr ((pre, post, e, before, behind), le)) = inr (
    (
      bid ∷ pre,
      post,
      ap (◌∷◌ bid) e,
      (AtMost-trans f l warmth bid best w (Below-AtMost f l warmth bid best h) le, before),
      behind,
    ),
    le,
  )

  Scans-replace :
      (best bid : InferenceBid) (bids : List InferenceBid) (w : InferenceBid)
      → AtMost f l warmth best bid
      → Scans bid bids w
      → Scans best (bid ∷ bids) w
  Scans-replace best bid bids w h (inl (e, all)) = rw e (inr (([], bids, refl, tt, all), h))
  Scans-replace best bid bids w h (inr ((pre, post, e, before, behind), le)) = inr (
    (bid ∷ pre, post, ap (◌∷◌ bid) e, (le, before), behind),
    AtMost-trans f l warmth best bid w h le,
  )

  Scans-step :
      (o : Ordering) (best bid : InferenceBid) (bids : List InferenceBid)
      → Decides f l warmth o best bid
      → Scans best bids (max_from f warmth best bids)
      → Scans bid bids (max_from f warmth bid bids)
      → Scans best (bid ∷ bids) (max_from f warmth (stays o best bid) bids)
  Scans-step Ordering.gt best bid bids (inl (_, below)) keep new =
      Scans-keep best bid bids _ below keep
  Scans-step Ordering.gt best bid bids (inr (inl e, _)) keep new = cc
  Scans-step Ordering.gt best bid bids (inr (inr e, _)) keep new = cc
  Scans-step Ordering.lt best bid bids (inl (e, _)) keep new = cc
  Scans-step Ordering.lt best bid bids (inr (_, le)) keep new = Scans-replace best bid bids _ le new
  Scans-step Ordering.eq best bid bids (inl (e, _)) keep new = cc
  Scans-step Ordering.eq best bid bids (inr (_, le)) keep new = Scans-replace best bid bids _ le new

  max_from-Scans :
      (best : InferenceBid) (bids : List InferenceBid)
      → HasScore f l warmth best
      → All (HasScore f l warmth) bids
      → Scans best bids (max_from f warmth best bids)
  unfolding max_from
  max_from-Scans best [] h hs = inl (refl, tt)
  max_from-Scans best (bid ∷ bids) h (hb, hs) =
      Scans-step (compare_bids f warmth best bid) best bid bids
        (compare_bids-Decides f l warmth best bid h hb) (max_from-Scans best bids h hs)
        (max_from-Scans bid bids hb hs)

  -- Where every score is a number, the auction is won by a bid that none beats on score, price and
  -- latency, the last such to arrive, and it has a winner unless there is no bid.
  pub pick_winner_with_warmth-Wins :
      (bids : List InferenceBid)
      → All (HasScore f l warmth) bids
      → ((bids ≡ []) × (pick_winner_with_warmth f bids warmth ≡ none))
        ⊎ ((w : InferenceBid) × (pick_winner_with_warmth f bids warmth ≡ some w) × Wins w bids)
  unfolding pick_winner_with_warmth
  pick_winner_with_warmth-Wins [] hs = inl (refl, refl)
  pick_winner_with_warmth-Wins (bid ∷ bids) (h, hs) =
      inr (max_from f warmth bid bids, refl, wins (max_from-Scans bid bids h hs))
    where
      wins : {w : InferenceBid} → Scans bid bids w → Wins w (bid ∷ bids)
      wins (inl (e, all)) = rw e ([], bids, refl, tt, all)
      wins (inr ((pre, post, e, before, behind), le)) =
          (bid ∷ pre, post, ap (◌∷◌ bid) e, (le, before), behind)
