-- ===== src/Store/Nonces.antt =====
-- `check_and_set_nonce` of src/coordinator/src/persistence/redis.rs: a request is seen once while its
-- nonce lives.
use coordinator.Base.{
  ℕ, zero, suc, ◌+◌, ◌^◌, ◌<◌, ◌≤◌, List, [], ◌∷◌, Text, Bool, true, false, Option, none, some,
  Outcome, ok, err, codes, nat_eq, ltb, ◌≡◌, ◌≢◌, refl, ◌∙◌, arith,
}
use coordinator.Base.Map.{Map, get, insert, remove, get-insert_self, get-insert_ne}
use coordinator.Protocol.Types.{Uuid}
use coordinator.Store.Columns.{ℤ, pos, negsuc}
use coordinator.Payments.Amount.{as_i64}

-- The nonces, each with the second at which it expires, if it ever does; `down` says of each command
-- to come whether it fails.
pub record Redis : Type 0 where
  pub nonces : Map Uuid (Option ℕ)
  pub down : List Bool

-- Whether a key is there at a time.
abbrev pub lives : ℕ → Option (Option ℕ) → Bool
lives now none = false
lives now (some none) = true
lives now (some (some expiry)) = ltb now expiry

abbrev pub fails : List Bool → Bool × List Bool
fails [] = (false, [])
fails (d ∷ down) = (d, down)

-- `EXPIRE`; a key whose time to live is not positive is deleted.
abbrev pub expire_at : ℕ → Uuid → ℤ → Map Uuid (Option ℕ) → Map Uuid (Option ℕ)
expire_at now id (pos zero) m = remove id m
expire_at now id (pos (suc n)) m = insert id (some (now + suc n)) m
expire_at now id (negsuc n) m = remove id m

abbrev pub expire : ℕ → Uuid → ℕ → Bool × List Bool → Redis → Outcome Text Bool × Redis
expire now id ttl_secs (true, down) r = (err (codes "redis"), record r { down = down })
expire now id ttl_secs (false, down) r =
    (ok true, record r { nonces = expire_at now id (as_i64 ttl_secs) r.nonces; down = down })

abbrev pub set_nx : ℕ → Uuid → ℕ → Bool → Redis → Outcome Text Bool × Redis
set_nx now id ttl_secs true r = (ok false, r)
set_nx now id ttl_secs false r =
    expire now id ttl_secs (fails r.down) (record r { nonces = insert id none r.nonces })

abbrev pub on_connection : ℕ → Uuid → ℕ → Bool × List Bool → Redis → Outcome Text Bool × Redis
on_connection now id ttl_secs (true, down) r = (err (codes "redis"), record r { down = down })
on_connection now id ttl_secs (false, down) r =
    set_nx now id ttl_secs (lives now (get id r.nonces)) (record r { down = down })

unfoldable pub check_and_set_nonce : ℕ → Uuid → ℕ → Redis → Outcome Text Bool × Redis
check_and_set_nonce now id ttl_secs r = on_connection now id ttl_secs (fails r.down) r

abbrev with_expiry : Uuid → ℕ → Redis → Redis
with_expiry id expiry r = record r {
  nonces = insert id (some expiry) (insert id none r.nonces);
  down = [];
}

first_time :
    (now : ℕ) (id : Uuid) (n : ℕ) (r : Redis)
    → r.down ≡ []
    → lives now (get id r.nonces) ≡ false
    → suc n < 2 ^ 63
    → check_and_set_nonce now id (suc n) r ≡ (ok true, with_expiry id (now + suc n) r)
unfolding check_and_set_nonce as_i64
first_time now id n r h f u =
    let small : ltb (suc n) (2 ^ 63) ≡ true = ground (arith, u) in rw (h, f, small) refl

second_time :
    (now : ℕ) (id : Uuid) (ttl : ℕ) (r : Redis)
    → r.down ≡ []
    → lives now (get id r.nonces) ≡ true
    → (check_and_set_nonce now id ttl r).0 ≡ ok false
unfolding check_and_set_nonce
second_time now id ttl r h f = rw (h, f) refl

-- Where Redis answers, a request whose nonce is not there is let through, and is then refused for
-- the whole time to live, whatever other times to live are asked for; after it, it would be let
-- through again.
check_and_set_nonce-once :
    (now : ℕ) (id : Uuid) (ttl : ℕ) (r : Redis)
    → r.down ≡ []
    → lives now (get id r.nonces) ≡ false
    → 0 < ttl
    → ttl < 2 ^ 63
    → let (first, after) = check_and_set_nonce now id ttl r in
      (first ≡ ok true)
      × ((later ttl₂ : ℕ)
          → later < now + ttl
          → (check_and_set_nonce later id ttl₂ after).0 ≡ ok false)
      × ((later : ℕ) → now + ttl ≤ later → lives later (get id after.nonces) ≡ false)
      × ((other : Uuid) → id ≢ other → get other after.nonces ≡ get other r.nonces)
check_and_set_nonce-once now id zero r h f l u =
    let none_left : ⊥ = omega (arith, l) in elim none_left [ ]
check_and_set_nonce-once now id (suc n) r h f l u =
    let g = get-insert_self id (some (now + suc n)) (insert id none r.nonces) in
    rw (first_time now id n r h f u) (
      refl,
      (λ later ttl₂ b.
          second_time later id ttl₂ (with_expiry id (now + suc n) r) refl
            (rw g (ground (arith, b)))),
      (λ later b. rw g (ground (arith, b))),
      (λ other d. get-insert_ne id other _ _ d ∙ get-insert_ne id other none r.nonces d),
    )

-- Where the nonce is set but the command that gives it a time to live fails, the request is
-- answered with an error, and with a replay ever after.
pub check_and_set_nonce-unexpired :
    (now : ℕ) (id : Uuid) (ttl : ℕ) (r : Redis)
    → r.down ≡ false ∷ true ∷ []
    → lives now (get id r.nonces) ≡ false
    → let (first, after) = check_and_set_nonce now id ttl r in
      (first ≡ err (codes "redis"))
      × ((later ttl₂ : ℕ) → (check_and_set_nonce later id ttl₂ after).0 ≡ ok false)
unfolding check_and_set_nonce
check_and_set_nonce-unexpired now id ttl r h f =
    let g = get-insert_self id none r.nonces in
    rw (h, f)
      (
        refl,
        (λ later ttl₂.
            second_time later id ttl₂ (record { nonces = insert id none r.nonces; down = [] }) refl
              (rw g refl)),
      )
