-- ===== src/System/Calls.antt =====
-- `mount`, `freopen` and `insmod` of src/system/src/lib.rs, and the display of its errors. What the
-- system calls answer is an argument; `none` is a panic.
use coordinator.Base.{
  List, [], ◌∷◌, ◌++◌, Text, Bool, true, false, Option, none, some, Outcome, ok, err, codes,
  nat_beq, if◌then◌else◌,
}

abbrev pub has_nul : Text → Bool
has_nul [] = false
has_nul (c ∷ s) = if nat_beq c 0 then true else has_nul s

-- `CString::new(..).unwrap()` of each text, then the call.
abbrev pub with_c_strings : List Text → Outcome Text (Unit {0}) → Option (Outcome Text (Unit {0}))
with_c_strings [] result = some result
with_c_strings (t ∷ ts) result = if has_nul t then none else with_c_strings ts result

abbrev pub or_message : Bool → Text → Outcome Text (Unit {0})
or_message true message = ok tt
or_message false message = err message

unfoldable pub mount : Bool → Text → Text → Text → Text → Option (Outcome Text (Unit {0}))
mount succeeds src target fstype options =
    with_c_strings (src ∷ target ∷ fstype ∷ options ∷ [])
      (or_message succeeds (codes "mount " ++ target ++ codes " failed"))

unfoldable pub freopen : Bool → Text → Text → Option (Outcome Text (Unit {0}))
freopen succeeds filename mode =
    with_c_strings (filename ∷ mode ∷ [])
      (or_message succeeds (codes "freopen " ++ filename ++ codes " failed"))

-- The file, which closes at the end, and the call on its descriptor.
unfoldable pub insmod : Outcome Text (Unit {0}) → Bool → Text → Outcome Text (Unit {0})
insmod (err e) succeeds path = err (codes "open " ++ path ++ codes ": " ++ e)
insmod (ok file) succeeds path = or_message succeeds (codes "insmod " ++ path ++ codes " failed")
