-- ===== src/Api/Turns.antt =====
-- Which turns the listing of a session in src/coordinator/src/api/admin.rs shows.
use mathlib.Core.List.Permᴰ
use mathlib.Core.List.{Permᴰ}
use coordinator.Base.{
  Text, Option, some, ok, ℕ, suc, zero, ◌≤◌, List, [], ◌∷◌, ◌++◌, keep, take, drop, length, All,
  All-drop, All-take, take-drop, ap, true, Bool-cases, leb→le, ◌⊎◌, inl, inr, nat_eq, ◌==◌, leb,
  ◌≡◌, refl, arith,
}
use coordinator.Protocol.Types.{Uuid}
use coordinator.Api.Listings.{AdminExternal}
use coordinator.Api.Session.{
  TurnRow, Context, insert_newest, newest_first, select_turns, select_warm, with_rows,
  session_status,
}
use coordinator.Api.Admin.{check_secret}
use coordinator.Base.Map.{get}
use coordinator.Store.Defs.{SessionRow, World, fetch_lem}

module _ {ℓ} {A : Type ℓ} (time : A → ℕ) where
  -- No element is newer than the one before it.
  abbrev pub IsNewestFirst : List A → Type 0
  IsNewestFirst [] = Unit
  IsNewestFirst (a ∷ as') = All (λ b. time b ≤ time a) as' × IsNewestFirst as'

  insert_newest-All {κ} :
      (P : A → Type κ) (a : A) (as' : List A) → P a → All P as' → All P (insert_newest time a as')
  insert_newest-All P a [] p h = (p, tt)
  insert_newest-All P a (b ∷ bs) p h = ground (arith, insert_newest-All P a bs p h.1)

  All-older :
      (n k : ℕ) (as' : List A) → n ≤ k → All (λ b. time b ≤ n) as' → All (λ b. time b ≤ k) as'
  All-older n k [] l h = tt
  All-older n k (b ∷ bs) l (h, hs) = (omega arith, All-older n k bs l hs)

  insert_newest-IsNewestFirst :
      (a : A) (as' : List A) → IsNewestFirst as' → IsNewestFirst (insert_newest time a as')
  insert_newest-IsNewestFirst a [] h = (tt, tt)
  insert_newest-IsNewestFirst a (b ∷ bs) (o, h) = elim (Bool-cases (leb (time b) (time a))) [
    | inl t ↦ let le = leb→le _ _ t in rw t ((le, All-older (time b) (time a) bs le o), (o, h))
    | inr t ↦
        let le : time a ≤ time b = ground (arith, t) in
        rw t
          (insert_newest-All (λ c. time c ≤ time b) a bs le o, insert_newest-IsNewestFirst a bs h)
  ]

  newest_first-IsNewestFirst : (as' : List A) → IsNewestFirst (newest_first time as')
  newest_first-IsNewestFirst [] = tt
  newest_first-IsNewestFirst (a ∷ as') =
      insert_newest-IsNewestFirst a (newest_first time as') (newest_first-IsNewestFirst as')

  newest_first-All {κ} : (P : A → Type κ) (as' : List A) → All P as' → All P (newest_first time as')
  newest_first-All P [] h = tt
  newest_first-All P (a ∷ as') (h, hs) =
      insert_newest-All P a (newest_first time as') h (newest_first-All P as' hs)

  insert_newest-Perm : (a : A) (as' : List A) → Permᴰ (a ∷ as') (insert_newest time a as')
  insert_newest-Perm a [] = Permᴰ.refl (a ∷ [])
  insert_newest-Perm a (b ∷ bs) = elim (Bool-cases (leb (time b) (time a))) [
    | inl t ↦ rw t (Permᴰ.refl (a ∷ b ∷ bs))
    | inr t ↦ rw t (Permᴰ.trans (Permᴰ.swap refl refl) (Permᴰ.cons refl (insert_newest-Perm a bs)))
  ]

  newest_first-Perm : (as' : List A) → Permᴰ as' (newest_first time as')
  newest_first-Perm [] = Permᴰ.nil
  newest_first-Perm (a ∷ as') =
      Permᴰ.trans (Permᴰ.cons refl (newest_first-Perm as'))
        (insert_newest-Perm a (newest_first time as'))

  take-IsNewestFirst : (n : ℕ) (as' : List A) → IsNewestFirst as' → IsNewestFirst (take n as')
  take-IsNewestFirst zero as' h = tt
  take-IsNewestFirst (suc n) [] h = tt
  take-IsNewestFirst (suc n) (a ∷ as') (o, h) =
      (All-take (λ b. time b ≤ time a) n as' o, take-IsNewestFirst n as' h)

  -- What is cut off is no newer than what stays, and is something only where the limit is reached.
  abbrev pub Cut : ℕ → List A → List A → Type ℓ
  Cut n shown rest =
      (length shown ≤ n)
      × All (λ r. All (λ s. time r ≤ time s) shown) rest
      × ((rest ≡ []) ⊎ (length shown ≡ n))

  older_than_none : (rest : List A) → All (λ r. All (λ s. time r ≤ time s) []) rest
  older_than_none [] = tt
  older_than_none (r ∷ rest) = (tt, older_than_none rest)

  older_than_cons :
      (a : A) (shown rest : List A)
      → All (λ r. time r ≤ time a) rest
      → All (λ r. All (λ s. time r ≤ time s) shown) rest
      → All (λ r. All (λ s. time r ≤ time s) (a ∷ shown)) rest
  older_than_cons a shown [] h g = tt
  older_than_cons a shown (r ∷ rest) (h, hs) (g, gs) = ((h, g), older_than_cons a shown rest hs gs)

  limit_lem :
      (n : ℕ) (a : A) (shown rest : List A)
      → (rest ≡ []) ⊎ (length shown ≡ n)
      → (rest ≡ []) ⊎ (length (a ∷ shown) ≡ suc n)
  limit_lem n a shown rest (inl e) = inl e
  limit_lem n a shown rest (inr e) = inr (ap suc e)

  take-Cut : (n : ℕ) (as' : List A) → IsNewestFirst as' → Cut n (take n as') (drop n as')
  take-Cut zero as' h = (omega arith, older_than_none as', inr refl)
  take-Cut (suc n) [] h = (omega arith, tt, inl refl)
  take-Cut (suc n) (a ∷ as') (o, h) =
      let (l, older, limit) = take-Cut n as' h in
      (
        omega arith,
        older_than_cons a (take n as') (drop n as') (All-drop (λ b. time b ≤ time a) n as' o) older,
        limit_lem n a (take n as') (drop n as') limit,
      )

abbrev pub turn_time : TurnRow → ℕ
turn_time r = r.created_at

keep-session :
    (sid : Uuid) (turns : List TurnRow)
    → All (λ (r : TurnRow). r.session_id ≡ sid) (keep (λ (r : TurnRow). r.session_id == sid) turns)
keep-session sid [] = tt
keep-session sid (r ∷ turns) =
    ground (arith, keep-session sid turns, nat_eq.beq_iff r.session_id sid)

select_turns-Newest :
    (x : AdminExternal) (sid : Uuid) (c : Context)
    → let shown = select_turns x sid c in
      All (λ (r : TurnRow). r.session_id ≡ sid) shown
      × IsNewestFirst turn_time shown
      × ((rest : List TurnRow) × Permᴰ
            (keep (λ (r : TurnRow). r.session_id == sid) c.turns)
            (shown ++ rest)
          × Cut turn_time 50 shown rest)
select_turns-Newest x sid c =
    let own = keep (λ (r : TurnRow). r.session_id == sid) c.turns in
    let sorted = newest_first turn_time own in
    (
      All-take _ 50 sorted (newest_first-All turn_time _ own (keep-session sid c.turns)),
      take-IsNewestFirst turn_time 50 sorted (newest_first-IsNewestFirst turn_time own),
      (
        drop 50 sorted,
        rw (take-drop 50 sorted) (newest_first-Perm turn_time own),
        take-Cut turn_time 50 sorted (newest_first-IsNewestFirst turn_time own),
      ),
    )

-- What an operator with the secret reads of a session while the database answers: the session's
-- row, and of its turns at most 50, the newest first. All that is shown is of that session; its other
-- turns are no newer than any that is shown, and there are others only where 50 are shown.
pub session_status-Newest :
    (x : AdminExternal) (env header : Option Text) (secret id : Text) (sid : Uuid)
    (session : SessionRow) (c : Context) (w : World)
    → check_secret env header ≡ ok secret
    → x.parse_uuid id ≡ some sid
    → get sid w.sessions ≡ some session
    → w.faults ≡ []
    → let shown = select_turns x sid c in
      (session_status x env header true id c w
        ≡ (ok (with_rows x id session c (ok shown) (ok (select_warm x sid c w))), w))
      × All (λ (r : TurnRow). r.session_id ≡ sid) shown
      × IsNewestFirst turn_time shown
      × ((rest : List TurnRow) × Permᴰ
            (keep (λ (r : TurnRow). r.session_id == sid) c.turns)
            (shown ++ rest)
          × Cut turn_time 50 shown rest)
unfolding session_status
session_status-Newest x env header secret id sid session c w s p g h =
    let (own, newest, cut) = select_turns-Newest x sid c in
    (
      rw
          (
            s,
            p,
            fetch_lem (λ v. get sid v.sessions) w h,
            g,
            fetch_lem (λ v. select_turns x sid c) w h,
            fetch_lem (select_warm x sid c) w h,
          )
          refl,
      own,
      newest,
      cut,
    )
