-- ===== src/Store/Connect.antt =====
-- How the coordinator connects at the start: `connect` of src/coordinator/src/persistence/postgres.rs
-- with its migrations, and `connect` of persistence/redis.rs. Sleeps are added up, in milliseconds.
use coordinator.Base.{
  ℕ, zero, suc, ◌+◌, ◌*◌, ◌<◌, List, [], ◌∷◌, Text, Outcome, ok, err, ◌>>◌, codes, ◌==◌, text_eq,
  if◌then◌else◌, ◌≡◌, refl, ap, ◌∙◌, ◌⊎◌, inl, inr, arith,
}

-- What an attempt meets: no connection, or what the work on the new connection answers.
pub data Attempt : Type 0 where
  refused : Text → Attempt
  connected : Outcome Text (Unit {0}) → Attempt

abbrev pub on_attempt : Attempt → Outcome Text (Unit {0}) × ℕ → Outcome Text (Unit {0}) × ℕ
on_attempt (refused e) (result, slept) = (result, 3000 + slept)
on_attempt (connected result) rest = (result, 0)

abbrev pub error_of : Attempt → Text → Text
error_of (refused e) last_err = e
error_of (connected result) last_err = last_err

-- The loop from an attempt on, with so many attempts to go.
unfoldable pub retry_from : (ℕ → Attempt) → ℕ → ℕ → Text → Outcome Text (Unit {0}) × ℕ
retry_from attempts attempt zero last_err = (err last_err, 0)
retry_from attempts attempt (suc left) last_err =
    on_attempt (attempts attempt)
      (retry_from attempts (suc attempt) left (error_of (attempts attempt) last_err))

-- The statements run in order; the first failure ends the migrations.
unfoldable pub run_migrations : List (Outcome Text (Unit {0})) → Outcome Text (Unit {0})
run_migrations [] = ok tt
run_migrations (statement ∷ statements) = statement >> run_migrations statements

-- What `PgPool::connect` answers: an error, or a pool on which the migrations' statements answer so.
abbrev pub postgres_attempt : Outcome Text (List (Outcome Text (Unit {0}))) → Attempt
postgres_attempt (err e) = refused e
postgres_attempt (ok statements) = connected (run_migrations statements)

unfoldable pub postgres_connect :
    (ℕ → Outcome Text (List (Outcome Text (Unit {0})))) → Outcome Text (Unit {0}) × ℕ
postgres_connect pool =
    retry_from (λ n. postgres_attempt (pool n)) 1 10 (codes "postgres connect: no attempts made")

-- What the PING answers on a new connection.
unfoldable pub ping : Outcome Text Text → Outcome Text (Unit {0})
ping (err e) = err (codes "redis PING")
ping (ok pong) = if pong == codes "PONG" then ok tt else err (codes "unexpected PING reply")

abbrev pub redis_attempt : Outcome Text (Outcome Text Text) → Attempt
redis_attempt (err e) = refused e
redis_attempt (ok pong) = connected (ping pong)

unfoldable pub redis_connect :
    Outcome Text (Unit {0}) → (ℕ → Outcome Text (Outcome Text Text)) → Outcome Text (Unit {0}) × ℕ
redis_connect (err e) manager = (err (codes "redis::Client::open"), 0)
redis_connect (ok client) manager =
    retry_from (λ n. redis_attempt (manager n)) 1 10 (codes "redis connect: no attempts made")

-- From an attempt on: the first one that connects decides, or none of those left connects.
abbrev pub Decided : (ℕ → Attempt) → ℕ → ℕ → Outcome Text (Unit {0}) × ℕ → Type 0
Decided attempts attempt left r =
    ((n : ℕ) × (result : Outcome Text (Unit {0})) × (n < left)
      × (attempts (attempt + n) ≡ connected result)
      × ((k : ℕ) → k < n → (e : Text) × (attempts (attempt + k) ≡ refused e))
      × (r ≡ (result, 3000 * n)))
    ⊎ (((k : ℕ) → k < left → (e : Text) × (attempts (attempt + k) ≡ refused e))
        × (e : Text) × (r ≡ (err e, 3000 * left)))

module _ (attempts : ℕ → Attempt) where
  refused_first :
      (attempt n : ℕ) (f : Text)
      → attempts attempt ≡ refused f
      → ((k : ℕ) → k < n → (e : Text) × (attempts (suc attempt + k) ≡ refused e))
      → (k : ℕ) → k < suc n
      → (e : Text) × (attempts (attempt + k) ≡ refused e)
  refused_first attempt n f h g zero l = let z : attempt + 0 ≡ attempt = omega arith in (f, rw z h)
  refused_first attempt n f h g (suc k) l =
      let s : attempt + suc k ≡ suc attempt + k = omega arith in
      let (e, q) = g k (omega arith) in (e, rw s q)

  later :
      (result : Outcome Text (Unit {0})) (n : ℕ) (r : Outcome Text (Unit {0}) × ℕ)
      → r ≡ (result, 3000 * n)
      → Path (Outcome Text (Unit {0}) × ℕ) (r.0, 3000 + r.1) (result, 3000 * suc n)
  later result n r e =
      let t : 3000 + 3000 * n ≡ 3000 * suc n = omega arith in
      ap (λ (p : Outcome Text (Unit {0}) × ℕ). (p.0, 3000 + p.1)) e ∙ ap (λ m. (result, m)) t

  Decided-later :
      (attempt left : ℕ) (f : Text) (r : Outcome Text (Unit {0}) × ℕ)
      → attempts attempt ≡ refused f
      → Decided attempts (suc attempt) left r
      → Decided attempts attempt (suc left) (r.0, 3000 + r.1)
  Decided-later attempt left f r h (inl (n, result, l, c, g, e)) =
      let s : attempt + suc n ≡ suc attempt + n = omega arith in
      inl (suc n, result, omega arith, rw s c, refused_first attempt n f h g, later result n r e)
  Decided-later attempt left f r h (inr (g, e, q)) =
      inr (refused_first attempt left f h g, e, later (err e) left r q)

  decide :
      (a : Attempt) (attempt left : ℕ) (r : Outcome Text (Unit {0}) × ℕ)
      → attempts attempt ≡ a
      → Decided attempts (suc attempt) left r
      → Decided attempts attempt (suc left) (on_attempt a r)
  decide (refused f) attempt left r h d = Decided-later attempt left f r h d
  decide (connected result) attempt left r h d =
      let z : attempt + 0 ≡ attempt = omega arith in
      inl (zero, result, omega arith, rw z h, (λ k l. ground arith), refl)

  retry_from-Decided :
      (attempt left : ℕ) (last_err : Text)
      → Decided attempts attempt left (retry_from attempts attempt left last_err)
  unfolding retry_from
  retry_from-Decided attempt zero last_err = inr ((λ k l. ground arith), last_err, refl)
  retry_from-Decided attempt (suc left) last_err =
      decide (attempts attempt) attempt left _ refl
        (retry_from-Decided (suc attempt) left (error_of (attempts attempt) last_err))

-- Connecting to either store ends after at most ten attempts, three seconds apart: with what the
-- migrations, or the PING, answer at the first attempt that connects, be it an error, or with an
-- error where none does.
pub connects-Decided :
    (pool : ℕ → Outcome Text (List (Outcome Text (Unit {0}))))
    (manager : ℕ → Outcome Text (Outcome Text Text))
    → Decided (λ n. postgres_attempt (pool n)) 1 10 (postgres_connect pool)
      × Decided (λ n. redis_attempt (manager n)) 1 10 (redis_connect (ok tt) manager)
unfolding postgres_connect redis_connect
connects-Decided pool manager = (
  retry_from-Decided (λ n. postgres_attempt (pool n)) 1 10 _,
  retry_from-Decided (λ n. redis_attempt (manager n)) 1 10 _,
)
