-- ===== src/System/Sockets.antt =====
-- The connections of src/system/src/lib.rs and of src/init/src/main.rs, and which descriptors the
-- functions on sockets leave open. Ports are left out of the errors.
use coordinator.Base.{
  ℕ, List, [], ◌∷◌, Text, Bool, true, false, Option, none, some, Outcome, ok, err, codes, ◌≡◌, refl,
  ◌↔◌,
}
use coordinator.System.{AcceptCalls, vsock_accept, accepted}

-- What `socket` and `connect` answer: a descriptor where there is one, and success or not.
pub record ConnectCalls : Type 0 where
  pub socket : Option ℕ
  pub connected : Bool

-- No descriptor is passed on to `connect` all the same, which then fails.
abbrev pub connect_any : Option ℕ → Bool → Outcome Text ℕ × List ℕ
connect_any none connected = (err (codes "connect failed"), [])
connect_any (some fd) true = (ok fd, fd ∷ [])
connect_any (some fd) false = (err (codes "connect failed"), fd ∷ [])

-- The result, and the descriptors that are open when it returns.
unfoldable pub socket_connect : ConnectCalls → Outcome Text ℕ × List ℕ
socket_connect calls = connect_any calls.socket calls.connected

-- `vsock_connect` of init closes the socket that does not connect.
abbrev pub connect_or_close : Option ℕ → Bool → Outcome Text ℕ × List ℕ
connect_or_close none connected = (err (codes "vsock socket() failed"), [])
connect_or_close (some fd) true = (ok fd, fd ∷ [])
connect_or_close (some fd) false = (err (codes "vsock connect failed"), [])

unfoldable pub vsock_connect : ConnectCalls → Outcome Text ℕ × List ℕ
vsock_connect calls = connect_or_close calls.socket calls.connected

-- The descriptor that the caller gets, if any: nobody else can close one that stays open.
abbrev pub returned : Outcome Text ℕ → List ℕ
returned (ok fd) = fd ∷ []
returned (err e) = []

-- The heartbeat of `init_platform` closes what it got.
abbrev pub after_connect : Outcome Text ℕ → List ℕ → Bool × List ℕ
after_connect (ok fd) left = (true, [])
after_connect (err e) left = (false, left)

unfoldable pub heartbeat : ConnectCalls → Bool × List ℕ
heartbeat calls = let (result, left) = socket_connect calls in after_connect result left

abbrev pub Clean : Outcome Text ℕ × List ℕ → Type 0
Clean (result, left) = left ≡ returned result

connect_or_close-Clean : (s : Option ℕ) (b : Bool) → Clean (connect_or_close s b)
connect_or_close-Clean none b = refl
connect_or_close-Clean (some fd) true = refl
connect_or_close-Clean (some fd) false = refl

connect_any-Clean :
    (s : Option ℕ) (b : Bool) → Clean (connect_any s b) ↔ ((fd : ℕ) → s ≡ some fd → b ≡ true)
connect_any-Clean none b = ((λ c fd e. cc), (λ h. refl))
connect_any-Clean (some fd) true = ((λ c fd' e. refl), (λ h. refl))
connect_any-Clean (some fd) false = ((λ c fd' e. cc), (λ h. let f = h fd refl in cc))

accepted-Clean : (s : Option ℕ) → Clean (accepted s)
accepted-Clean none = refl
accepted-Clean (some fd) = refl

accept-Clean :
    (l : Option ℕ) (b n : Bool) (c : Option ℕ)
    → Clean (vsock_accept (record { listener = l; bound = b; listening = n; client = c }))
      ↔ ((fd : ℕ) → l ≡ some fd → (b ≡ true) × (n ≡ true))
unfolding vsock_accept
accept-Clean none b n c = ((λ k fd e. cc), (λ h. refl))
accept-Clean (some fd) true true c = ((λ k fd' e. (refl, refl)), (λ h. accepted-Clean c))
accept-Clean (some fd) true false c = ((λ k fd' e. cc), (λ h. let f = (h fd refl).1 in cc))
accept-Clean (some fd) false n c = ((λ k fd' e. cc), (λ h. let f = (h fd refl).0 in cc))

-- `vsock_connect` leaves open what it returns and nothing else. `socket_connect` does so exactly where
-- every socket that it gets connects, and `vsock_accept` exactly where every listener that it gets
-- can be bound and can listen.
pub sockets-Clean :
    (c : ConnectCalls) (a : AcceptCalls)
    → Clean (vsock_connect c)
      × (Clean (socket_connect c) ↔ ((fd : ℕ) → c.socket ≡ some fd → c.connected ≡ true))
      × (Clean (vsock_accept a)
          ↔ ((fd : ℕ) → a.listener ≡ some fd → (a.bound ≡ true) × (a.listening ≡ true)))
unfolding vsock_connect socket_connect
sockets-Clean c a = (
  connect_or_close-Clean c.socket c.connected,
  connect_any-Clean c.socket c.connected,
  accept-Clean a.listener a.bound a.listening a.client,
)
