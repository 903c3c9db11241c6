-- ===== src/Payments/Inserts.antt =====
-- What `insert_pending` writes when the database answers.
use coordinator.Base.{
  ℕ, suc, ◌+◌, ◌<◌, ◌≡◌, refl, ap, ◌∙◌, List, [], ◌∷◌, ◌++◌, nat_eq, Option, none, Outcome, ok, err,
  length, arith,
}
use mathlib.Core.List.{append-nil, append_assoc}
use mathlib.Core.Path.{subst₂}
use coordinator.Base.Map.{Map, get}
use coordinator.Protocol.Types.{Uuid}
use coordinator.Store.Defs.{World, PaymentRow, execute_lem}
use coordinator.Store.Columns.{Failure}
use coordinator.Payments.Split.{PayoutLine}
use coordinator.Payments.Ledger.{insert_pending, pending_row, insert_row, insert_at}

-- The rows of the lines, under the identifiers from `n` on.
abbrev pub numbered : Uuid → ℕ → List PayoutLine → Map Uuid PaymentRow
numbered q n [] = []
numbered q n (l ∷ ls) = (n, pending_row q l) ∷ numbered q (suc n) ls

-- No identifier in the table is still to be given.
abbrev pub IsFresh : ℕ → Map Uuid PaymentRow → Type 0
IsFresh n [] = Unit
IsFresh n ((i, row) ∷ rows) = (i < n) × IsFresh n rows

IsFresh-get : (n : ℕ) (rows : Map Uuid PaymentRow) → IsFresh n rows → get n rows ≡ none
IsFresh-get n [] h = refl
IsFresh-get n ((i, row) ∷ rows) h = ground (arith, IsFresh-get n rows h.1)

IsFresh-snoc :
    (n : ℕ) (row : PaymentRow) (rows : Map Uuid PaymentRow)
    → IsFresh n rows
    → IsFresh (suc n) (rows ++ (n, row) ∷ [])
IsFresh-snoc n row [] h = (omega arith, tt)
IsFresh-snoc n row ((i, r) ∷ rows) h = (omega arith, IsFresh-snoc n row rows h.1)

abbrev with_row : Uuid → PayoutLine → World → World
with_row q l w = record w {
  next_id = suc w.next_id;
  payments = w.payments ++ (w.next_id, pending_row q l) ∷ [];
}

insert_pending_step :
    (q : Uuid) (l : PayoutLine) (ls : List PayoutLine) (w : World)
    → w.faults ≡ []
    → IsFresh w.next_id w.payments
    → insert_pending q (l ∷ ls) w ≡ insert_pending q ls (with_row q l w)
unfolding insert_pending
insert_pending_step q l ls w h f =
    ap
      (λ (r : Outcome Failure (Unit {0}) × World). elim r.0 [
        | ok a ↦ insert_pending q ls r.1
        | err e ↦ (err e, r.1)
      ])
      (execute_lem (insert_row w.next_id (pending_row q l)) (record w { next_id = suc w.next_id })
        h)
    ∙ ap
        (λ (o : Option PaymentRow). insert_pending q ls (record w {
          next_id = suc w.next_id;
          payments = insert_at o w.next_id (pending_row q l) w.payments;
        }))
        (IsFresh-get w.next_id w.payments f)

-- The whole effect of the inserts.
pub insert_pending_lem :
    (q : Uuid) (lines : List PayoutLine) (w : World)
    → w.faults ≡ []
    → IsFresh w.next_id w.payments
    → (insert_pending q lines w ≡ (
      ok tt,
      record w {
        next_id = w.next_id + length lines;
        payments = w.payments ++ numbered q w.next_id lines;
      },
    ))
      × IsFresh (w.next_id + length lines) (w.payments ++ numbered q w.next_id lines)
unfolding insert_pending
insert_pending_lem q [] w h f =
    let e : w.payments ++ [] ≡ w.payments = append-nil w.payments in
    let z : w.next_id + 0 ≡ w.next_id = omega arith in (rw (e, z) refl, rw (e, z) f)
insert_pending_lem q (l ∷ ls) w h f =
    let (run, fresh) =
      insert_pending_lem q ls (with_row q l w) h
        (IsFresh-snoc w.next_id (pending_row q l) w.payments f) in
    let e : suc w.next_id + length ls ≡ w.next_id + suc (length ls) = omega arith in
    let a =
      append_assoc w.payments ((w.next_id, pending_row q l) ∷ []) (numbered q (suc w.next_id) ls) in
    (
      insert_pending_step q l ls w h f
          ∙ run
          ∙ ap
              (λ n. (
                ok tt,
                record w {
                  next_id = n;
                  payments =
                      (w.payments ++ (w.next_id, pending_row q l) ∷ [])
                      ++ numbered q (suc w.next_id) ls;
                },
              ))
              e
          ∙ ap
              (λ (rows : Map Uuid PaymentRow).
                (ok tt, record w { next_id = w.next_id + suc (length ls); payments = rows }))
              a,
      subst₂ IsFresh e a fresh,
    )
