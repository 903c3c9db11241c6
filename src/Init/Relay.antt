-- ===== src/Init/Relay.antt =====
-- What the parent gets of a log that only grows from `log_forwarder` of src/init/src/main.rs.
use mathlib.Core.Path.{subst}
use mathlib.Core.Option.{some-injective}
use coordinator.Base.{
  ℕ, ◌+◌, ◌≤◌, List, [], ◌∷◌, ◌++◌, Bytes, Bool, true, false, Option, none, some, length, drop, ltb,
  leb, zero, suc, length-take, length-drop, ◌≡◌, refl, sym, ap, arith, Bool-cases, inl, inr,
}
use coordinator.Init.Forward.{
  Look, not_opened, opened, Event, connecting, looking, sending, Phase, outside, inside, flushing,
  Forwarder, started, after_read, look_at, after_send, send_rest, open_connection, forward_at,
  forward_step,
}
use coordinator.Init.Wire.{
  Covered, Live, Covered-append, Live-append, Covered-le, Live-Covered, connect-Live, read-Live,
  send-Live,
}

abbrev pub IsRelayed : Bytes → Phase → ℕ → List Bytes → Type 0
IsRelayed log outside pos wire = (e : ℕ) × Covered log wire e × (pos ≤ e)
IsRelayed log inside pos wire = Live log [] wire pos
IsRelayed log (flushing rest n) pos wire =
    (e : ℕ) × Live log rest wire e × (e + length rest ≡ pos + n) × (pos ≤ e)

abbrev pub unsent : Phase → ℕ
unsent outside = 0
unsent inside = 0
unsent (flushing rest n) = length rest

-- What the system calls can answer on a file that nothing takes bytes from.
abbrev pub IsHonest : Bytes → Event → Forwarder → Type 0
IsHonest log (looking (opened content seek_ok (some n))) f =
    (content ≡ log) × (seek_ok ≡ true) × (f.pos + n ≤ length log) × (n ≤ 4096)
IsHonest log (looking (opened content seek_ok none)) f = (content ≡ log) × (seek_ok ≡ true)
IsHonest log (sending (some rc)) f = rc ≤ unsent f.phase
IsHonest log event f = Unit

-- The runs of the loop beside writers that append to the log.
pub data Relays : Bytes → Forwarder → Type 0 where
  start : (log : Bytes) → Relays log started
  append : {log : Bytes} {f : Forwarder} (more : Bytes) → Relays log f → Relays (log ++ more) f
  act :
      {log : Bytes} {f g : Forwarder} (event : Event)
      → IsHonest log event f
      → forward_step event f ≡ some g
      → Relays log f
      → Relays log g

IsRelayed-append :
    (log more : Bytes) (phase : Phase) (pos : ℕ) (wire : List Bytes)
    → IsRelayed log phase pos wire
    → IsRelayed (log ++ more) phase pos wire
IsRelayed-append log more outside pos wire (e, h, l) = (e, Covered-append log more wire e h, l)
IsRelayed-append log more inside pos wire h = Live-append log more [] wire pos h
IsRelayed-append log more (flushing rest n) pos wire (e, h, k, l) =
    (e, Live-append log more rest wire e h, k, l)

connected_lem :
    (log : Bytes) (connected : Bool) (f : Forwarder)
    → IsRelayed log outside f.pos f.wire
    → let g = open_connection connected f in
      (f.phase ≡ outside → IsRelayed log g.phase g.pos g.wire)
unfolding open_connection
connected_lem log true f (e, h, l) w = connect-Live log f.wire f.pos e h l
connected_lem log false f h w = subst (λ p. IsRelayed log p f.pos f.wire) (sym w) h

abbrev pub IsSound : Bytes → Forwarder → Type 0
IsSound log f = IsRelayed log f.phase f.pos f.wire

after_read-IsRelayed :
    (log : Bytes) (pos : ℕ) (read : Option ℕ) (f : Forwarder)
    → f.phase ≡ inside
    → Live log [] f.wire pos
    → IsHonest log (looking (opened log true read)) (record f { pos = pos })
    → IsSound log (after_read log pos read f)
after_read-IsRelayed log pos none f w h k = rw w h
after_read-IsRelayed log pos (some zero) f w h k = rw w h
after_read-IsRelayed log pos (some (suc n)) f w h (c, s, k, b) = (
  pos,
  read-Live log f.wire pos (suc n) h,
  ap (λ m. pos + m)
      (length-take (suc n) (drop pos log)
        (omega (arith, k, length-drop pos log (omega (arith, k))))),
  omega arith,
)

after_send-IsRelayed :
    (log left : Bytes) (n e : ℕ) (f : Forwarder)
    → Live log left f.wire e
    → e + length left ≡ f.pos + n
    → f.pos ≤ e
    → IsSound log (after_send left n f)
after_send-IsRelayed log [] n e f h l m =
    let at : e ≡ f.pos + n = omega arith in subst (Live log [] f.wire) at h
after_send-IsRelayed log (b ∷ left) n e f h l m = (e, h, l, m)

send_rest-IsRelayed :
    (log rest : Bytes) (n : ℕ) (rc : Option ℕ) (f : Forwarder)
    → f.phase ≡ flushing rest n
    → IsRelayed log (flushing rest n) f.pos f.wire
    → IsHonest log (sending rc) f
    → IsSound log (send_rest rest n rc f)
unfolding send_rest
send_rest-IsRelayed log rest n none f w (e, h, l, m) k = (e, Live-Covered log rest f.wire e h, m)
send_rest-IsRelayed log rest n (some rc) f w (e, h, l, m) k =
    let k2 : rc ≤ length rest = subst (λ p. rc ≤ unsent p) w k in
    let d = length-drop rc rest k2 in
    after_send-IsRelayed log (drop rc rest) n (e + rc) _ (send-Live log rest rc f.wire e k2 h)
      (omega arith) (omega arith)

honest_file :
    (log content : Bytes) (seek_ok : Bool) (read : Option ℕ) (f : Forwarder)
    → IsHonest log (looking (opened content seek_ok read)) f
    → (content ≡ log) × (seek_ok ≡ true)
honest_file log content seek_ok none f h = h
honest_file log content seek_ok (some n) f (c, s, k, b) = (c, s)

opened_lem :
    (log : Bytes) (read : Option ℕ) (f : Forwarder)
    → f.phase ≡ inside
    → Live log [] f.wire f.pos
    → IsHonest log (looking (opened log true read)) f
    → IsSound log (look_at (opened log true read) f)
unfolding look_at
opened_lem log read f w h k =
    let short : ltb (length log) f.pos ≡ false =
      ground (arith, Covered-le log f.wire f.pos (Live-Covered log [] f.wire f.pos h)) in
    rw short (elim (Bool-cases (leb (length log) f.pos)) [
      | inl t ↦ rw (t, w) h
      | inr t ↦ rw t (after_read-IsRelayed log f.pos read f w h k)
    ])

look_at-IsRelayed :
    (log : Bytes) (look : Look) (f : Forwarder)
    → f.phase ≡ inside
    → Live log [] f.wire f.pos
    → IsHonest log (looking look) f
    → IsSound log (look_at look f)
unfolding look_at
look_at-IsRelayed log not_opened f w h k = rw w h
look_at-IsRelayed log (opened content seek_ok read) f w h k =
    let (c, s) = honest_file log content seek_ok read f k in
    let seek : IsHonest log (looking (opened content true read)) f =
      subst (λ b. IsHonest log (looking (opened content b read)) f) s k in
    let same : IsHonest log (looking (opened log true read)) f =
      subst (λ t. IsHonest log (looking (opened t true read)) f) c seek in
    rw (c, s) (opened_lem log read f w h same)

pub forward_at-IsRelayed :
    (log : Bytes) (event : Event) (f g : Forwarder) (phase : Phase)
    → f.phase ≡ phase
    → IsRelayed log phase f.pos f.wire
    → IsHonest log event f
    → forward_at phase event f ≡ some g
    → IsSound log g
unfolding forward_at
forward_at-IsRelayed log (connecting connected) f g outside w h k s =
    subst (IsSound log) (some-injective _ _ s) (connected_lem log connected f h w)
forward_at-IsRelayed log (looking look) f g inside w h k s =
    subst (IsSound log) (some-injective _ _ s) (look_at-IsRelayed log look f w h k)
forward_at-IsRelayed log (sending rc) f g (flushing rest n) w h k s =
    subst (IsSound log) (some-injective _ _ s) (send_rest-IsRelayed log rest n rc f w h k)
forward_at-IsRelayed log (connecting connected) f g inside w h k s = cc
forward_at-IsRelayed log (connecting connected) f g (flushing rest n) w h k s = cc
forward_at-IsRelayed log (looking look) f g outside w h k s = cc
forward_at-IsRelayed log (looking look) f g (flushing rest n) w h k s = cc
forward_at-IsRelayed log (sending rc) f g outside w h k s = cc
forward_at-IsRelayed log (sending rc) f g inside w h k s = cc

-- Whatever the parent does, however the sends are cut and whenever connections are lost: while the
-- file only grows, the connections carried a gapless cover of it up to where the loop stands. Each
-- connection carried one stretch of the file, in order, and it started no later than where the
-- connections before it had got to.
pub Relays-IsRelayed :
    {log : Bytes} {f : Forwarder} → Relays log f → IsRelayed log f.phase f.pos f.wire
Relays-IsRelayed (start log) = (0, refl, omega arith)
Relays-IsRelayed (append {log} {f} more r) =
    IsRelayed-append log more f.phase f.pos f.wire (Relays-IsRelayed r)
Relays-IsRelayed (act {log} {f} {g} event k s r) =
    forward_at-IsRelayed log event f g f.phase refl (Relays-IsRelayed r) k s
