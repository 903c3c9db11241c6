-- ===== src/Init/Environment.antt =====
-- The environment and the hosts that src/init/src/main.rs sets up.
use coordinator.Base.{
  List, [], ◌∷◌, ◌++◌, Text, Bytes, true, false, Option, none, some, Outcome, nat_beq, codes,
  text_eq, if◌then◌else◌, ◌==◌, All, ◌≡◌, refl, ap, ◌∙◌, arith, sym, ◌||◌,
}
use coordinator.Base.Map.{get, insert, get-insert}
use coordinator.Init.Setup.{
  Environment, apply_pairs, default_from, default_var, apply_defaults, bytes_or_none, to_hex,
  coordinate_sidecar, child_environment, before, or_else, host_of_url,
}

-- The value that the config gives a variable: that of its last line for it.
abbrev pub pushed : Text → List (Text × Text) → Option Text
pushed k [] = none
pushed k ((j, v) ∷ pairs) = or_else (pushed k pairs) (if j == k then some v else none)

get-apply_pairs :
    (k : Text) (pairs : List (Text × Text)) (env : Environment)
    → get k (apply_pairs pairs env) ≡ or_else (pushed k pairs) (get k env)
get-apply_pairs k [] env = refl
get-apply_pairs k ((j, v) ∷ pairs) env =
    get-apply_pairs k pairs (insert j v env) ∙ ground (arith, get-insert j k v env)

-- What the step leaves for one variable, from what was there.
default_lem :
    (o : Option Text) (j k v : Text) (env : Environment)
    → get j env ≡ o
    → get k (default_from o j v env) ≡ or_else (get k env) (if j == k then some v else none)
default_lem none j k v env h = ground (arith, get-insert j k v env, text_eq.beq_iff j k, h)
default_lem (some w) j k v env h = ground (arith, text_eq.beq_iff j k, h)

-- The defaults of a table, first row first.
abbrev default_all : Environment → Environment → Environment
default_all [] env = env
default_all ((j, v) ∷ table) env = default_all table (default_var j v env)

or_else_assoc : (a b c : Option Text) → or_else (or_else a b) c ≡ or_else a (or_else b c)
or_else_assoc none b c = refl
or_else_assoc (some x) b c = refl

or_else-get :
    (j k v : Text) (table : Environment)
    → or_else (if j == k then some v else none) (get k table) ≡ get k ((j, v) ∷ table)
or_else-get j k v table = ground arith

or_else-none : (a : Option Text) → or_else a none ≡ a
or_else-none none = refl
or_else-none (some x) = refl

get-default_all :
    (k : Text) (table env : Environment)
    → get k (default_all table env) ≡ or_else (get k env) (get k table)
get-default_all k [] env = sym (or_else-none (get k env))
get-default_all k ((j, v) ∷ table) env =
    get-default_all k table (default_var j v env)
    ∙ ap (λ o. or_else o (get k table)) (default_lem (get j env) j k v env refl)
    ∙ or_else_assoc (get k env) (if j == k then some v else none) (get k table)
    ∙ ap (or_else (get k env)) (or_else-get j k v table)

-- The variables that are set whatever the config says, and those that are set where it says nothing.
abbrev pub fixed_vars : Environment
fixed_vars =
    (codes "PATH", codes "/bin:/sbin:/usr/bin:/usr/sbin:/")
    ∷ (codes "SSL_CERT_FILE", codes "/etc/ssl/certs/ca-certificates.crt")
    ∷ []

abbrev pub default_vars : Outcome Text Bytes → Environment
default_vars entropy =
    (codes "PINAIVU_BIND", codes "127.0.0.1:4000")
    ∷ (codes "PINAIVU_LIBP2P_LISTEN", codes "/ip4/0.0.0.0/tcp/4001")
    ∷ (codes "DATABASE_URL", codes "postgresql://coordinator@127.0.0.1:5432/coordinator")
    ∷ (codes "REDIS_URL", codes "redis://127.0.0.1:6379")
    ∷ (codes "SIDECAR_URL", codes "http://127.0.0.1:8200")
    ∷ (codes "SIDECAR_SECRET", to_hex (bytes_or_none entropy))
    ∷ []

get-two :
    (i j k v w : Text) (env : Environment)
    → get k (insert i v (insert j w env)) ≡ or_else (get k ((i, v) ∷ (j, w) ∷ [])) (get k env)
get-two i j k v w env = ground (arith, get-insert i k v (insert j w env), get-insert j k w env)

-- A variable of the sidecar and the coordinator is, the first of these that there is: the fixed
-- one, what the config pushed last, what the process had, the default.
pub get-child_environment :
    (k : Text) (pairs : List (Text × Text)) (entropy : Outcome Text Bytes) (env : Environment)
    → get k (child_environment pairs entropy env)
      ≡ or_else
          (get k fixed_vars)
          (or_else (pushed k pairs) (or_else (get k env) (get k (default_vars entropy))))
unfolding child_environment coordinate_sidecar apply_defaults
get-child_environment k pairs entropy env =
    let given = apply_pairs pairs env in
    let set =
      insert (codes "PATH") (codes "/bin:/sbin:/usr/bin:/usr/sbin:/")
        (insert (codes "SSL_CERT_FILE") (codes "/etc/ssl/certs/ca-certificates.crt") given) in
    get-default_all k (default_vars entropy) set
    ∙ ap (λ o. or_else o (get k (default_vars entropy))) (get-two _ _ k _ _ given)
    ∙ or_else_assoc (get k fixed_vars) (get k given) (get k (default_vars entropy))
    ∙ ap (λ o. or_else (get k fixed_vars) (or_else o (get k (default_vars entropy))))
        (get-apply_pairs k pairs env)
    ∙ ap (or_else (get k fixed_vars))
        (or_else_assoc (pushed k pairs) (get k env) (get k (default_vars entropy)))

abbrev pub IsHost : Text → Type 0
IsHost host = All (λ c. (nat_beq c b'/' || nat_beq c b':') ≡ false) host

-- How a host ends in a URL: there, or at a port or a path.
abbrev pub IsTail : Text → Type 0
IsTail [] = Unit
IsTail (c ∷ s) = (nat_beq c b'/' || nat_beq c b':') ≡ true

before-host :
    (host tail : Text) → IsHost host → IsTail tail → before b':' (before b'/' (host ++ tail)) ≡ host
before-host [] [] h t = refl
before-host [] (c ∷ tail) h t = ground (arith, t)
before-host (c ∷ host) tail (h, hs) t = ground (arith, h, before-host host tail hs t)

-- The host of an http or https URL is read off, whatever port or path follows it.
pub host_of_url-host :
    (host tail : Text)
    → IsHost host
    → IsTail tail
    → (host_of_url (codes "https://" ++ host ++ tail) ≡ host)
      × (host_of_url (codes "http://" ++ host ++ tail) ≡ host)
unfolding host_of_url
host_of_url-host host tail h t = (before-host host tail h t, before-host host tail h t)
