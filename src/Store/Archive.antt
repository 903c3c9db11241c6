-- ===== src/Store/Archive.antt =====
-- The trait `ReceiptArchive` of src/coordinator/src/receipts/mod.rs over an unknown state, what its
-- clients may assume of it, and the two archives as implementations.
use mathlib.Core.Option.{some-injective}
use coordinator.Base.{
  [], Text, Option, none, some, Outcome, ok, ◌==◌, nat_eq, ◌≡◌, refl, sym, ap, ◌∙◌, if◌then◌else◌,
  Bool-cases, inl, inr,
}
use coordinator.Base.Map.{get, insert, get-insert}
use coordinator.Protocol.Types.{RequestId}
use coordinator.Protocol.Receipt.{RoutingReceipt}
use coordinator.Store.Columns.{Failure}
use coordinator.Store.Defs.{World, execute_lem, fetch_then}
use coordinator.Store.Receipts
use coordinator.Store.Receipts.{
  InMemoryReceiptArchive, memory_put, memory_get, get_receipt, read_row,
}

pub record ReceiptArchive (S : Type 0) : Type 0 where
  pub put : RoutingReceipt → S → Outcome Failure (Unit {0}) × S
  pub get_by_request : RequestId → S → Outcome Failure (Option RoutingReceipt) × S

-- `view` is what an archive holds in a state in which it answers, and `Takes` says of a receipt that
-- it comes back as it was put.
pub record IsLawful {S : Type 0} (a : ReceiptArchive S) : Type 1 where
  pub Answers : S → Type 0
  pub Takes : RoutingReceipt → Type 0
  pub view : RequestId → S → Option RoutingReceipt
  pub put_ok : (r : RoutingReceipt) (s : S) → Answers s → (a.put r s).0 ≡ ok tt
  pub put_answers : (r : RoutingReceipt) (s : S) → Takes r → Answers s → Answers (a.put r s).1
  pub view-put :
      (q : RequestId) (r : RoutingReceipt) (s : S)
      → Takes r
      → Answers s
      → view q (a.put r s).1 ≡ (if r.request_id == q then some r else view q s)
  pub get_view : (q : RequestId) (s : S) → Answers s → a.get_by_request q s ≡ (ok (view q s), s)

-- `InMemoryReceiptArchive`.
abbrev pub memory_archive : ReceiptArchive InMemoryReceiptArchive
memory_archive = record {
  put = λ r s. (ok tt, memory_put r s);
  get_by_request = λ q s. (ok (memory_get q s), s);
}

pub view-memory_put :
    (q : RequestId) (r : RoutingReceipt) (s : InMemoryReceiptArchive)
    → memory_get q (memory_put r s) ≡ (if r.request_id == q then some r else memory_get q s)
unfolding memory_get memory_put
view-memory_put q r s = get-insert r.request_id q r s.receipts

abbrev pub memory_archive-IsLawful : IsLawful memory_archive
memory_archive-IsLawful = record {
  Answers = λ s. Unit;
  Takes = λ r. Unit;
  view = memory_get;
  put_ok = λ r s h. refl;
  put_answers = λ r s t h. tt;
  view-put = λ q r s t h. view-memory_put q r s;
  get_view = λ q s h. refl;
}

module _ (to_value : RoutingReceipt → Text) (from_value : Text → Option RoutingReceipt) where
  -- `PostgresReceiptArchive`.
  abbrev pub postgres_archive : ReceiptArchive World
  postgres_archive = record { put = Receipts.put to_value; get_by_request = get_receipt from_value }

  abbrev pub ReadsBack : RoutingReceipt → Type 0
  ReadsBack r = from_value (to_value r) ≡ some r

  abbrev pub AllReadable : World → Type 0
  AllReadable w =
      (q : RequestId) (json : Text)
      → get q w.routing_receipts ≡ some json
      → (r : RoutingReceipt) × (from_value json ≡ some r)

  abbrev pub decoded : Option Text → Option RoutingReceipt
  decoded none = none
  decoded (some json) = from_value json

  pub put_lem :
      (r : RoutingReceipt) (w : World)
      → w.faults ≡ []
      → Receipts.put to_value r w ≡ (
        ok tt,
        record w { routing_receipts = insert r.request_id (to_value r) w.routing_receipts },
      )
  unfolding Receipts.put
  put_lem r w h =
      execute_lem
        (λ v. record v { routing_receipts = insert r.request_id (to_value r) v.routing_receipts }) w
        h

  get-put :
      (q : RequestId) (r : RoutingReceipt) (w : World)
      → w.faults ≡ []
      → get q (Receipts.put to_value r w).1.routing_receipts
        ≡ (if r.request_id == q then some (to_value r) else get q w.routing_receipts)
  get-put q r w h =
      ap (λ (p : Outcome Failure (Unit {0}) × World). get q p.1.routing_receipts) (put_lem r w h)
      ∙ get-insert r.request_id q (to_value r) w.routing_receipts

  read_row-decoded :
      (o : Option Text) (w : World)
      → ((json : Text) → o ≡ some json → (r : RoutingReceipt) × (from_value json ≡ some r))
      → read_row from_value o w ≡ (ok (decoded o), w)
  read_row-decoded none w h = refl
  read_row-decoded (some json) w h = let (r, e) = h json refl in rw e refl

  pub get_lem :
      (q : RequestId) (w : World)
      → w.faults ≡ []
      → AllReadable w
      → get_receipt from_value q w ≡ (ok (decoded (get q w.routing_receipts)), w)
  unfolding get_receipt
  get_lem q w h all =
      fetch_then (λ v. get q v.routing_receipts) (read_row from_value) w h
      ∙ read_row-decoded (get q w.routing_receipts) w (all q)

  pub put-AllReadable :
      (r : RoutingReceipt) (w : World)
      → ReadsBack r
      → w.faults ≡ []
      → AllReadable w
      → AllReadable (Receipts.put to_value r w).1
  put-AllReadable r w t h all q json g = elim (Bool-cases (r.request_id == q)) [
    | inl same ↦
        let e : to_value r ≡ json = some-injective _ _ (sym (get-put q r w h ∙ rw same refl) ∙ g) in
        (r, ap from_value (sym e) ∙ t)
    | inr other ↦ all q json (sym (get-put q r w h ∙ rw other refl) ∙ g)
  ]

  pub decoded-put :
      (q : RequestId) (r : RoutingReceipt) (w : World)
      → ReadsBack r
      → w.faults ≡ []
      → decoded (get q (Receipts.put to_value r w).1.routing_receipts)
        ≡ (if r.request_id == q then some r else decoded (get q w.routing_receipts))
  decoded-put q r w t h = elim (Bool-cases (r.request_id == q)) [
    | inl same ↦ ap decoded (get-put q r w h) ∙ rw same t
    | inr other ↦ ap decoded (get-put q r w h) ∙ rw other refl
  ]

  -- It answers while no statement fails and every value in the table is that of a receipt.
  abbrev pub postgres_archive-IsLawful : IsLawful postgres_archive
  postgres_archive-IsLawful = record {
    Answers = λ w. (w.faults ≡ []) × AllReadable w;
    Takes = ReadsBack;
    view = λ q w. decoded (get q w.routing_receipts);
    put_ok = λ r w h. ap (λ (p : Outcome Failure (Unit {0}) × World). p.0) (put_lem r w h.0);
    put_answers = λ r w t h. (
      ap (λ (p : Outcome Failure (Unit {0}) × World). p.1.faults) (put_lem r w h.0) ∙ h.0,
      put-AllReadable r w t h.0 h.1,
    );
    view-put = λ q r w t h. decoded-put q r w t h.0;
    get_view = λ q w h. get_lem q w h.0 h.1;
  }
