-- ===== src/Store/Archives.antt =====
-- The two archives of src/coordinator/src/receipts against what an archive is: for each request, the
-- receipt that was put last.
use coordinator.Base.{
  List, [], ◌∷◌, Text, All, Option, some, Outcome, ok, ◌==◌, nat_eq, ◌≡◌, refl, ap, ◌∙◌,
  if◌then◌else◌,
}
use coordinator.Base.Map.{get}
use coordinator.Protocol.Types.{RequestId}
use coordinator.Protocol.Receipt.{RoutingReceipt}
use coordinator.Store.Columns.{Failure}
use coordinator.Store.Defs.{World}
use coordinator.Store.Archive.{
  ReceiptArchive, IsLawful, memory_archive, memory_archive-IsLawful, postgres_archive,
  postgres_archive-IsLawful, ReadsBack, AllReadable, decoded,
}
use coordinator.Store.Receipts.{InMemoryReceiptArchive, memory_get}

-- The receipt of the request in a sequence of puts, after `held`.
abbrev pub last_put :
    RequestId → List RoutingReceipt → Option RoutingReceipt → Option RoutingReceipt
last_put q [] held = held
last_put q (r ∷ rs) held = last_put q rs (if r.request_id == q then some r else held)

abbrev pub put_each : {S : Type 0} → ReceiptArchive S → List RoutingReceipt → S → S
put_each a [] s = s
put_each a (r ∷ rs) s = put_each a rs (a.put r s).1

module _ {S : Type 0} (a : ReceiptArchive S) (laws : IsLawful a) where
  put_each-answers :
      (rs : List RoutingReceipt) (s : S)
      → All laws.Takes rs
      → laws.Answers s
      → laws.Answers (put_each a rs s)
  put_each-answers [] s t h = h
  put_each-answers (r ∷ rs) s (t, ts) h =
      put_each-answers rs (a.put r s).1 ts (laws.put_answers r s t h)

  view-put_each :
      (q : RequestId) (rs : List RoutingReceipt) (s : S)
      → All laws.Takes rs
      → laws.Answers s
      → laws.view q (put_each a rs s) ≡ last_put q rs (laws.view q s)
  view-put_each q [] s t h = refl
  view-put_each q (r ∷ rs) s (t, ts) h =
      view-put_each q rs (a.put r s).1 ts (laws.put_answers r s t h)
      ∙ ap (last_put q rs) (laws.view-put q r s t h)

  -- A lawful archive answers with the receipt that was put last.
  get-put_each :
      (q : RequestId) (rs : List RoutingReceipt) (s : S)
      → All laws.Takes rs
      → laws.Answers s
      → (a.get_by_request q (put_each a rs s)).0 ≡ ok (last_put q rs (laws.view q s))
  get-put_each q rs s t h =
      ap (λ (p : Outcome Failure (Option RoutingReceipt) × S). p.0)
        (laws.get_view q (put_each a rs s) (put_each-answers rs s t h))
      ∙ ap ok (view-put_each q rs s t h)

no_demand : (rs : List RoutingReceipt) → All (λ r. Unit {0}) rs
no_demand [] = tt
no_demand (r ∷ rs) = (tt, no_demand rs)

-- After any sequence of puts into both archives, of receipts that serde_json reads back from the JSON
-- it writes, while the database answers, where every value in its table is that of a receipt and both
-- archives held the same for the request before, both answer for the request with the receipt that
-- was put last under it, or with what they held where none was.
pub archives-last_put :
    (to_value : RoutingReceipt → Text) (from_value : Text → Option RoutingReceipt) (q : RequestId)
    (rs : List RoutingReceipt) (a : InMemoryReceiptArchive) (w : World)
    → All (ReadsBack to_value from_value) rs
    → w.faults ≡ []
    → AllReadable to_value from_value w
    → decoded to_value from_value (get q w.routing_receipts) ≡ memory_get q a
    → let held = last_put q rs (memory_get q a) in
      let archive = postgres_archive to_value from_value in
      ((memory_archive.get_by_request q (put_each memory_archive rs a)).0 ≡ ok held)
      × ((archive.get_by_request q (put_each archive rs w)).0 ≡ ok held)
archives-last_put to_value from_value q rs a w t h all s = (
  get-put_each memory_archive memory_archive-IsLawful q rs a (no_demand rs) tt,
  get-put_each (postgres_archive to_value from_value)
        (postgres_archive-IsLawful to_value from_value) q rs w t (h, all)
      ∙ ap (λ o. ok (last_put q rs o)) s,
)
