-- ===== src/Onchain/Retries.antt =====
-- How the retry loops of src/coordinator/src/onchain/sui.rs end, and how long they take.
use mathlib.Core.Path.{subst}
use coordinator.Base.{
  ℕ, zero, suc, ◌+◌, ◌*◌, ◌≤◌, ◌<◌, min, true, false, Option, some, Outcome, ok, err, Bool-cases,
  inl, inr, nat_eq, ◌==◌, ==_refl, ◌≡◌, refl, ap, ◌⊎◌, arith, Outcome-cases,
}
use coordinator.Store.Columns.{Failure, sidecar_error}
use coordinator.Store.Defs.{HttpReply}
use coordinator.Api.Admin.{RegisteredEnclave}
use coordinator.Onchain.{
  is_success, poll_from, wait_ready, max_registrations, register_from, after_ready, registration,
}

-- From an attempt on, either some poll succeeds first, or each of those that are left fails.
abbrev pub Ends : (ℕ → HttpReply) → ℕ → ℕ → Outcome Failure (Unit {0}) × ℕ → Type 0
Ends health attempt left r =
    ((n : ℕ) × (n < left)
      × (is_success (health (attempt + n)) ≡ true)
      × ((k : ℕ) → k < n → is_success (health (attempt + k)) ≡ false)
      × (r.0 ≡ ok tt)
      × (r.1 ≡ 500 * n))
    ⊎ (((k : ℕ) → k < left → is_success (health (attempt + k)) ≡ false)
        × (r.0 ≡ err sidecar_error)
        × (r.1 ≡ 500 * left))

module _ (health : ℕ → HttpReply) (attempt : ℕ) where
  first_fails :
      (n : ℕ)
      → is_success (health attempt) ≡ false
      → ((k : ℕ) → k < n → is_success (health (suc attempt + k)) ≡ false)
      → (k : ℕ) → k < suc n
      → is_success (health (attempt + k)) ≡ false
  first_fails n h g zero l = let e : attempt + 0 ≡ attempt = omega arith in rw e h
  first_fails n h g (suc k) l =
      let e : attempt + suc k ≡ suc attempt + k = omega arith in rw e (g k (omega arith))

  Ends-first :
      (left : ℕ) (r : Outcome Failure (Unit {0}) × ℕ)
      → is_success (health attempt) ≡ true
      → r ≡ (ok tt, 0)
      → Ends health attempt (suc left) r
  Ends-first left r h e =
      let z : attempt + 0 ≡ attempt = omega arith in
      inl (zero, omega arith, rw z h, (λ k l. ground arith), ap (λ p. p.0) e, ap (λ p. p.1) e)

  Ends-later :
      (left : ℕ) (r : Outcome Failure (Unit {0}) × ℕ)
      → is_success (health attempt) ≡ false
      → Ends health (suc attempt) left r
      → Ends health attempt (suc left) (r.0, 500 + r.1)
  Ends-later left r h (inl (n, l, s, g, d, t)) =
      let e : attempt + suc n ≡ suc attempt + n = omega arith in
      inl (suc n, omega arith, rw e s, first_fails n h g, d, omega arith)
  Ends-later left r h (inr (g, d, t)) = inr (first_fails left h g, d, omega arith)

module _ (health : ℕ → HttpReply) where
  last_poll :
      (attempt : ℕ)
      → is_success (health attempt) ≡ false
      → Ends health attempt 1 (poll_from health attempt attempt 1)
  unfolding poll_from
  last_poll attempt h =
      rw (h, ==_refl attempt)
        (inr (first_fails health attempt 0 h (λ k l. ground arith), refl, omega arith))

  later_poll :
      (max_attempts attempt left : ℕ)
      → attempt < max_attempts
      → is_success (health attempt) ≡ false
      → Ends health (suc attempt) left (poll_from health max_attempts (suc attempt) left)
      → Ends health attempt (suc left) (poll_from health max_attempts attempt (suc left))
  unfolding poll_from
  later_poll max_attempts attempt left l h r =
      let differs : (attempt == max_attempts) ≡ false = ground (arith, l) in
      rw (h, differs) (Ends-later health attempt left _ h r)

  first_poll :
      (max_attempts attempt left : ℕ)
      → is_success (health attempt) ≡ true
      → Ends health attempt (suc left) (poll_from health max_attempts attempt (suc left))
  unfolding poll_from
  first_poll max_attempts attempt left h = Ends-first health attempt left _ h (rw h refl)

  -- The polls from an attempt on, where the last of them is attempt `max_attempts`.
  poll_from-Ends :
      (max_attempts attempt left : ℕ)
      → attempt + left ≡ max_attempts
      → Ends health attempt (suc left) (poll_from health max_attempts attempt (suc left))
  poll_from-Ends max_attempts attempt zero e = elim (Bool-cases (is_success (health attempt))) [
    | inl h ↦ first_poll max_attempts attempt zero h
    | inr h ↦
        let same : attempt ≡ max_attempts = omega arith in
        subst (λ n. Ends health attempt 1 (poll_from health n attempt 1)) same (last_poll attempt h)
  ]
  poll_from-Ends max_attempts attempt (suc left) e =
      elim (Bool-cases (is_success (health attempt))) [
        | inl h ↦ first_poll max_attempts attempt (suc left) h
        | inr h ↦
            later_poll max_attempts attempt (suc left) (omega arith) h
              (poll_from-Ends max_attempts (suc attempt) left (omega arith))
      ]

  -- With at least one attempt, the wait ends well at the first poll that succeeds, after half a
  -- second for each that failed before, and with an error exactly when all attempts failed.
  pub wait_ready-Ends : (n : ℕ) → Ends health 1 (suc n) (wait_ready health (suc n))
  unfolding wait_ready
  wait_ready-Ends n = poll_from-Ends (suc n) 1 n (omega arith)

-- The sleeps between the attempts that are left.
abbrev sleeps : ℕ → ℕ → ℕ
sleeps backoff zero = 0
sleeps backoff (suc zero) = 0
sleeps backoff (suc (suc left)) = backoff + sleeps (min (backoff * 2) 60000) (suc left)

module _ (register : ℕ → Outcome Failure RegisteredEnclave) (cell : Option RegisteredEnclave) where
  -- The cell holds what one of the attempts that are left brought, or is as it was.
  abbrev pub Brought : ℕ → ℕ → Option RegisteredEnclave → Type 0
  Brought attempt left after =
      ((n : ℕ) × (reg : RegisteredEnclave) × (n < left)
        × (register (attempt + n) ≡ ok reg)
        × (after ≡ some reg))
      ⊎ (after ≡ cell)

  Brought-later :
      (attempt left : ℕ) (after : Option RegisteredEnclave)
      → Brought (suc attempt) left after
      → Brought attempt (suc left) after
  Brought-later attempt left after (inl (n, reg, l, e, a)) =
      let s : attempt + suc n ≡ suc attempt + n = omega arith in
      inl (suc n, reg, omega arith, rw s e, a)
  Brought-later attempt left after (inr e) = inr e

  Brought-now :
      (attempt left : ℕ) (reg : RegisteredEnclave)
      → register attempt ≡ ok reg
      → Brought attempt (suc left) (some reg)
  Brought-now attempt left reg h =
      let z : attempt + 0 ≡ attempt = omega arith in inl (zero, reg, omega arith, rw z h, refl)

  register_from-Brought :
      (attempt backoff left : ℕ)
      → attempt + left ≡ suc max_registrations
      → let r = register_from register attempt backoff left cell in
        (r.1 ≤ sleeps backoff left) × Brought attempt left r.0
  unfolding register_from
  register_from-Brought attempt backoff zero e = (omega arith, inr refl)
  register_from-Brought attempt backoff (suc zero) e = elim (Outcome-cases (register attempt)) [
    | inl (reg, h) ↦ rw (h, register_from) (omega arith, Brought-now attempt zero reg h)
    | inr (f, h) ↦
        let last : (attempt == max_registrations) ≡ true = (nat_eq.beq_iff _ _).1 (omega arith) in
        rw (h, last, register_from) (omega arith, inr refl)
  ]
  register_from-Brought attempt backoff (suc (suc left)) e =
      elim (Outcome-cases (register attempt)) [
        | inl (reg, h) ↦ rw (h, register_from) (omega arith, Brought-now attempt (suc left) reg h)
        | inr (f, h) ↦
            let early : (attempt == max_registrations) ≡ false = ground (arith, e) in
            let (t, b) =
              register_from-Brought (suc attempt) (min (backoff * 2) 60000) (suc left)
                (omega arith) in
            rw (h, early, register_from) (omega arith, Brought-later attempt (suc left) _ b)
      ]

  after_ready-Brought :
      (r : Outcome Failure (Unit {0}))
      → ((after_ready r register cell).1 ≤ 30000) × Brought 1 5 (after_ready r register cell).0
  after_ready-Brought (ok done) = register_from-Brought 1 2000 5 refl
  after_ready-Brought (err e) = (omega arith, inr refl)

  wait_at_most :
      (health : ℕ → HttpReply) (n : ℕ) (r : Outcome Failure (Unit {0}) × ℕ)
      → Ends health 1 n r
      → r.1 ≤ 500 * n
  wait_at_most health n r (inl (k, l, s, g, d, t)) = omega arith
  wait_at_most health n r (inr (g, d, t)) = omega arith

  -- Whatever the sidecar answers, the registration is over within a minute of sleeping: at most 30
  -- seconds in the polls and 30 between five attempts. The cell then holds what one of the five
  -- brought, or is as it was.
  pub registration-Brought :
      (health : ℕ → HttpReply)
      → let (after, slept) = registration health register cell in
        (slept ≤ 60000) × Brought 1 5 after
  unfolding registration
  registration-Brought health =
      let polls = wait_at_most health 60 _ (wait_ready-Ends health 59) in
      let (t, b) = after_ready-Brought (wait_ready health 60).0 in (omega arith, b)
