-- ===== src/Init/CatchUp.antt =====
-- The log relay of src/init/src/main.rs is never stuck: once the parent takes what is sent, it
-- catches up with the log.
use mathlib.Core.Path.{subst}
use coordinator.Base.{
  ℕ, ◌+◌, ◌≤◌, [], ◌∷◌, Bytes, true, false, some, length, take, drop, length-take, length-drop,
  drop-length, ltb, leb, zero, suc, ◌≡◌, refl, sym, arith, Bool-cases, inl, inr,
}
use coordinator.Init.Forward.{
  opened, Event, connecting, looking, sending, Phase, outside, inside, flushing, Forwarder, look_at,
  carry, after_send, send_rest, open_connection, forward_at, forward_step,
}
use coordinator.Init.Wire.{Covered, Live, Live-Covered, Covered-le}
use coordinator.Init.Relay.{
  IsRelayed, IsSound, IsHonest, forward_at-IsRelayed, Relays, Relays-IsRelayed,
}

-- What the loop does from one state to another while the log stays as it is.
pub data Reaches (log : Bytes) : Forwarder → Forwarder → Type 0 where
  done : (f : Forwarder) → Reaches log f f
  step :
      {f g h : Forwarder} (event : Event)
      → IsHonest log event f
      → forward_step event f ≡ some g
      → Reaches log g h
      → Reaches log f h

-- Some run from here ends where the connections have carried a gapless cover of the whole log.
abbrev pub CatchesUp : Bytes → Forwarder → Type 0
CatchesUp log f =
    (g : Forwarder) × Reaches log f g
    × (g.phase ≡ inside)
    × (g.pos ≡ length log)
    × Covered log g.wire (length log)

also_first :
    (log : Bytes) (event : Event) (f g : Forwarder)
    → IsHonest log event f
    → forward_step event f ≡ some g
    → CatchesUp log g
    → CatchesUp log f
also_first log event f g k s (h, r, p, e, c) = (h, step event k s r, p, e, c)

-- The state after one more byte of the log was read, and after it was sent.
abbrev one_read : Bytes → Forwarder → Forwarder
one_read log f = record f { phase = flushing (take 1 (drop f.pos log)) 1 }

abbrev one_sent : Bytes → Forwarder → Forwarder
one_sent log f = record f {
  phase = inside;
  pos = f.pos + 1;
  wire = carry (take 1 (take 1 (drop f.pos log))) f.wire;
}

drop-take-one : (s : Bytes) → drop 1 (take 1 s) ≡ []
drop-take-one [] = refl
drop-take-one (x ∷ s) = refl

module _ (log : Bytes) where
  one_at_most : (f : Forwarder) → suc f.pos ≤ length log → 1 ≤ length (take 1 (drop f.pos log))
  one_at_most f l =
      let d = length-drop f.pos log (omega (arith, l)) in
      omega (arith, l, length-take 1 (drop f.pos log) (omega (arith, l, d)))

  read_one :
      (f : Forwarder)
      → f.phase ≡ inside
      → suc f.pos ≤ length log
      → forward_step (looking (opened log true (some 1))) f ≡ some (one_read log f)
  unfolding forward_at look_at
  read_one f w l =
      let a : ltb (length log) f.pos ≡ false = ground (arith, l) in
      let b : leb (length log) f.pos ≡ false = ground (arith, l) in
      rw (w, forward_at, look_at, a, b) refl

  send_one :
      (f : Forwarder) → forward_step (sending (some 1)) (one_read log f) ≡ some (one_sent log f)
  unfolding forward_at send_rest
  send_one f = rw (drop-take-one (drop f.pos log)) refl

  step-IsSound :
      (event : Event) (f g : Forwarder)
      → IsSound log f
      → IsHonest log event f
      → forward_step event f ≡ some g
      → IsSound log g
  step-IsSound event f g h k s = forward_at-IsRelayed log event f g f.phase refl h k s

  caught_up :
      (f : Forwarder)
      → f.phase ≡ inside
      → Live log [] f.wire f.pos
      → length log ≤ f.pos
      → CatchesUp log f
  caught_up f w h l =
      let c = Live-Covered log [] f.wire f.pos h in
      let at : f.pos ≡ length log = omega (arith, l, Covered-le log f.wire f.pos c) in
      (f, done f, w, at, subst (Covered log f.wire) at c)

  inside-CatchesUp :
      (left : ℕ) (f : Forwarder)
      → f.phase ≡ inside
      → Live log [] f.wire f.pos
      → length log ≤ f.pos + left
      → CatchesUp log f
  inside-CatchesUp zero f w h l = caught_up f w h (omega arith)
  inside-CatchesUp (suc left) f w h l = elim (Bool-cases (leb (length log) f.pos)) [
    | inl t ↦ caught_up f w h (ground (arith, t))
    | inr t ↦
        let more : suc f.pos ≤ length log = ground (arith, t) in
        let read = read_one f w more in
        let k : IsHonest log (looking (opened log true (some 1))) f =
          (refl, refl, omega arith, omega arith) in
        let filled =
          step-IsSound (looking (opened log true (some 1))) f (one_read log f)
            (subst (λ p. IsRelayed log p f.pos f.wire) (sym w) h) k read in
        let one : IsHonest log (sending (some 1)) (one_read log f) = one_at_most f more in
        let sent =
          step-IsSound (sending (some 1)) (one_read log f) (one_sent log f) filled one
            (send_one f) in
        also_first log _ f (one_read log f) k read (
          also_first log _ (one_read log f) (one_sent log f) one (send_one f)
            (inside-CatchesUp left (one_sent log f) refl sent (omega arith)))
  ]

  -- The buffer of the flushing phase goes out in one send.
  flushing-CatchesUp :
      (rest : Bytes) (n : ℕ) (f : Forwarder)
      → f.phase ≡ flushing rest n
      → IsSound log f
      → CatchesUp log f
  unfolding forward_at send_rest
  flushing-CatchesUp rest n f w h =
      let g : Forwarder =
        after_send [] n (record f { wire = carry (take (length rest) rest) f.wire }) in
      let s : forward_step (sending (some (length rest))) f ≡ some g =
        rw (w, drop-length rest) refl in
      let k : IsHonest log (sending (some (length rest))) f = rw w (omega arith) in
      let sound = step-IsSound _ f g h k s in
      also_first log _ f g k s (inside-CatchesUp (length log) g refl sound (omega arith))

  outside-CatchesUp : (f : Forwarder) → f.phase ≡ outside → IsSound log f → CatchesUp log f
  unfolding forward_at open_connection
  outside-CatchesUp f w h =
      let g : Forwarder = open_connection true f in
      let s : forward_step (connecting true) f ≡ some g = rw w refl in
      let sound = step-IsSound _ f g h tt s in
      also_first log _ f g tt s (inside-CatchesUp (length log) g refl sound (omega arith))

  phase-CatchesUp : (p : Phase) (f : Forwarder) → f.phase ≡ p → IsSound log f → CatchesUp log f
  phase-CatchesUp outside f w h = outside-CatchesUp f w h
  phase-CatchesUp inside f w h =
      inside-CatchesUp (length log) f w (subst (λ p. IsRelayed log p f.pos f.wire) w h)
        (omega arith)
  phase-CatchesUp (flushing rest n) f w h = flushing-CatchesUp rest n f w h

-- From every state that the loop can be in there is a run, beside a log that stays as it is, after
-- which the loop stands at the end of the log and the bytes that its connections have carried, each a
-- stretch of the log, cover all of it; whatever failed before does not stop it.
pub Relays-CatchesUp : {log : Bytes} {f : Forwarder} → Relays log f → CatchesUp log f
Relays-CatchesUp {log} {f} r = phase-CatchesUp log f.phase f refl (Relays-IsRelayed r)
