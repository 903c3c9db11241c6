-- ===== src/Mesh/Added.antt =====
-- What the delivery of one bid adds to the channels of the auctions, in deliver_bid of
-- src/coordinator/src/mesh/event_loop.rs.
use mathlib.Core.Option.{some-injective}
use mathlib.Core.List.{append_assoc, append-nil}
use coordinator.Base.{
  ◌≤◌, suc, List, [], ◌∷◌, ◌++◌, true, false, Option, none, some, nat_eq, ◌==◌, ◌≡◌, refl, sym, ap,
  ◌∙◌, length, ltb, arith, Bool-cases, Option-cases, inl, inr, if◌then◌else◌,
}
use coordinator.Base.Map.{get, insert, get-insert}
use coordinator.Protocol.Types.{Uuid, InferenceBid}
use coordinator.Mesh.{EventLoop, MeshExternal, Channel, enqueue}
use coordinator.Mesh.Events.{deliver_bid}

-- The bids of a sequence that name a request.
abbrev pub for_request : Uuid → Option InferenceBid → List InferenceBid
for_request q none = []
for_request q (some bid) = if bid.request_id == q then bid ∷ [] else []

-- A channel, with bids added at its end.
abbrev pub with_bids : Channel InferenceBid → List InferenceBid → Channel InferenceBid
with_bids c new = record c { queue = c.queue ++ new }

-- The channels that are open in `l'` are those of `l`, each with its bids added.
pub record Added (new : Uuid → List InferenceBid) (l l' : EventLoop) : Type 0 where
  pub forth :
      (q : Uuid) (c : Channel InferenceBid)
      → get q l.bid_subscribers ≡ some c
      → c.is_open ≡ true
      → get q l'.bid_subscribers ≡ some (with_bids c (new q))
  pub back :
      (q : Uuid) (c : Channel InferenceBid)
      → get q l'.bid_subscribers ≡ some c
      → c.is_open ≡ true
      → (o : Channel InferenceBid) × (get q l.bid_subscribers ≡ some o) × (o.is_open ≡ true)

with_none : (c : Channel InferenceBid) → with_bids c [] ≡ c
with_none c = ap (λ b. record c { queue = b }) (append-nil c.queue)

-- Nothing that an open channel holds has changed.
pub unchanged :
    (new : Uuid → List InferenceBid) (l l' : EventLoop)
    → ((q : Uuid) → get q l'.bid_subscribers ≡ get q l.bid_subscribers)
    → ((q : Uuid) (c : Channel InferenceBid)
        → get q l.bid_subscribers ≡ some c
        → c.is_open ≡ true
        → new q ≡ [])
    → Added new l l'
unchanged new l l' same nothing = record {
  forth = λ q c g o. same q ∙ g ∙ ap some (sym (ap (with_bids c) (nothing q c g o) ∙ with_none c));
  back = λ q c g o. (c, sym (same q) ∙ g, o);
}

deliver_closed :
    (bid : InferenceBid) (l : EventLoop) (c : Channel InferenceBid)
    → get bid.request_id l.bid_subscribers ≡ some c
    → c.is_open ≡ false
    → Added
        (λ q. for_request q (some bid))
        l
        (record l { bid_subscribers = insert bid.request_id c l.bid_subscribers })
deliver_closed bid l c g o =
    unchanged _ l (record l { bid_subscribers = insert bid.request_id c l.bid_subscribers })
      (λ q.
        get-insert bid.request_id q c l.bid_subscribers
        ∙ ground (arith, nat_eq.beq_iff bid.request_id q, g))
      (λ q d h p. elim (Bool-cases (bid.request_id == q)) [
        | inl t ↦
            let e : bid.request_id ≡ q = (nat_eq.beq_iff bid.request_id q).0 t in
            let same : c ≡ d =
              some-injective _ _ (sym g ∙ ap (λ k. get k l.bid_subscribers) e ∙ h) in
            let shut : d.is_open ≡ false =
              ap (λ (x : Channel InferenceBid). x.is_open) (sym same) ∙ o in
            cc
        | inr f ↦ rw f refl
      ])

deliver_open :
    (bid : InferenceBid) (l : EventLoop) (c : Channel InferenceBid)
    → get bid.request_id l.bid_subscribers ≡ some c
    → c.is_open ≡ true
    → Added
        (λ q. for_request q (some bid))
        l
        (record l { bid_subscribers = insert bid.request_id (enqueue bid c) l.bid_subscribers })
deliver_open bid l c g o = record {
  forth = λ q d h p. elim (Bool-cases (bid.request_id == q)) [
    | inl t ↦
        let e : bid.request_id ≡ q = (nat_eq.beq_iff bid.request_id q).0 t in
        let same : c ≡ d = some-injective _ _ (sym g ∙ ap (λ k. get k l.bid_subscribers) e ∙ h) in
        get-insert bid.request_id q (enqueue bid c) l.bid_subscribers ∙ rw (t, same) refl
    | inr f ↦
        get-insert bid.request_id q (enqueue bid c) l.bid_subscribers
        ∙ rw f (h ∙ ap some (sym (with_none d)))
  ];
  back = λ q d h p. elim (Bool-cases (bid.request_id == q)) [
    | inl t ↦
        let e : bid.request_id ≡ q = (nat_eq.beq_iff bid.request_id q).0 t in
        (c, ap (λ k. get k l.bid_subscribers) (sym e) ∙ g, o)
    | inr f ↦
        let there : get q l.bid_subscribers ≡ some d =
          ground (arith, get-insert bid.request_id q (enqueue bid c) l.bid_subscribers, h, f) in
        (d, there, p)
  ];
}

pub Added-trans :
    (f g : Uuid → List InferenceBid) (l l₁ l₂ : EventLoop)
    → Added f l l₁
    → Added g l₁ l₂
    → Added (λ q. f q ++ g q) l l₂
Added-trans f g l l₁ l₂ a b = record {
  forth = λ q c h o.
      b.forth q (with_bids c (f q)) (a.forth q c h o) o
      ∙ ap (λ r. some (record c { queue = r })) (append_assoc c.queue (f q) (g q));
  back = λ q c h o. let (d, k, p) = b.back q c h o in a.back q d k p;
}

module _ (m : MeshExternal) where
  pub deliver :
      (bid : InferenceBid) (l : EventLoop)
      → ((c : Channel InferenceBid)
          → get bid.request_id l.bid_subscribers ≡ some c
          → c.is_open ≡ true
          → suc (length c.queue) ≤ c.capacity)
      → (l' : EventLoop) × (deliver_bid m bid (get bid.request_id l.bid_subscribers) l ≡ some l')
        × Added (λ q. for_request q (some bid)) l l'
  deliver bid l room = elim (Option-cases (get bid.request_id l.bid_subscribers)) [
    | inl g ↦ (
      l,
      rw g refl,
      unchanged _ l l (λ q. refl)
          (λ q c h o.
            let f : (bid.request_id == q) ≡ false =
              ground (arith, nat_eq.beq_iff bid.request_id q, g, h) in
            rw f refl),
    )
    | inr (c, g) ↦ elim (Bool-cases c.is_open) [
      | inl o ↦
          let space : ltb (length c.queue) c.capacity ≡ true = ground (arith, room c g o) in
          (
            record l { bid_subscribers = insert bid.request_id (enqueue bid c) l.bid_subscribers },
            rw (g, o, space) refl,
            deliver_open bid l c g o,
          )
      | inr o ↦ (
        record l { bid_subscribers = insert bid.request_id c l.bid_subscribers },
        rw (g, o) refl,
        deliver_closed bid l c g o,
      )
    ]
  ]
