-- ===== src/Init/Forward.antt =====
-- `log_forwarder` of src/init/src/main.rs: a file is read in chunks of at most 4096 bytes and each is
-- sent to the parent. What the system calls answer are the events of the loop;
-- its sleeps are left out.
use coordinator.Base.{
  ℕ, ◌+◌, List, [], ◌∷◌, ◌++◌, Bytes, Bool, true, false, Option, none, some, length, take, drop,
  ltb, leb, if◌then◌else◌, nat_eq, zero, suc,
}

-- What a look at the file meets: it does not open, or has this content, the seek succeeds or not,
-- and the read fails or fills so many bytes of the buffer.
pub data Look : Type 0 where
  not_opened : Look
  opened : Bytes → Bool → Option ℕ → Look

pub data Event : Type 0 where
  connecting : Bool → Event
  looking : Look → Event
  sending : Option ℕ → Event

-- Where the loop stands: it connects, it looks at the file, or it sends what is left of a buffer of
-- which so many bytes were filled.
pub data Phase : Type 0 where
  outside inside : Phase
  flushing : Bytes → ℕ → Phase

-- `wire` holds what each connection has carried, the last one first.
pub record Forwarder : Type 0 where
  pub phase : Phase
  pub pos : ℕ
  pub wire : List Bytes

abbrev pub started : Forwarder
started = record { phase = outside; pos = 0; wire = [] }

abbrev pub after_read : Bytes → ℕ → Option ℕ → Forwarder → Forwarder
after_read content pos none f = record f { pos = pos }
after_read content pos (some zero) f = record f { pos = pos }
after_read content pos (some (suc n)) f = record f {
  pos = pos;
  phase = flushing (take (suc n) (drop pos content)) (suc n);
}

abbrev pub from_pos : Bytes → Bool → Option ℕ → ℕ → Forwarder → Forwarder
from_pos content seek_ok read pos f =
    if leb (length content) pos
    then record f { pos = pos }
    else if seek_ok
    then after_read content pos read f
    else record f { pos = 0 }

unfoldable pub look_at : Look → Forwarder → Forwarder
look_at not_opened f = f
look_at (opened content seek_ok read) f =
    from_pos content seek_ok read (if ltb (length content) f.pos then 0 else f.pos) f

-- Bytes that go out over the present connection.
abbrev pub carry : Bytes → List Bytes → List Bytes
carry bytes [] = []
carry bytes (c ∷ older) = (c ++ bytes) ∷ older

abbrev pub after_send : Bytes → ℕ → Forwarder → Forwarder
after_send [] n f = record f { phase = inside; pos = f.pos + n }
after_send (b ∷ rest) n f = record f { phase = flushing (b ∷ rest) n }

-- `send` of what is left: an error drops the connection, and `pos` stays where it was.
unfoldable pub send_rest : Bytes → ℕ → Option ℕ → Forwarder → Forwarder
send_rest rest n none f = record f { phase = outside }
send_rest rest n (some rc) f =
    after_send (drop rc rest) n (record f { wire = carry (take rc rest) f.wire })

unfoldable pub open_connection : Bool → Forwarder → Forwarder
open_connection true f = record f { phase = inside; wire = [] ∷ f.wire }
open_connection false f = f

-- One system call of the loop; an event that the phase does not wait for is none of its own.
unfoldable pub forward_at : Phase → Event → Forwarder → Option Forwarder
forward_at outside (connecting connected) f = some (open_connection connected f)
forward_at inside (looking look) f = some (look_at look f)
forward_at (flushing rest n) (sending rc) f = some (send_rest rest n rc f)
forward_at phase event f = none

abbrev pub forward_step : Event → Forwarder → Option Forwarder
forward_step event f = forward_at f.phase event f
