-- ===== src/Init/Config.antt =====
-- src/init/src/config.rs: the KEY=VALUE lines that the parent sends.
use coordinator.Base.{
  List, [], ◌∷◌, ◌++◌, Text, Option, none, some, null, ◌||◌, nat_beq, if◌then◌else◌, trim,
  trim_matches, starts_with, split_once, codes,
}

-- `BufRead::lines`: each line without its `\n` or `\r\n`, and no last line that is empty.
abbrev pub chomp : Text → Text
chomp [] = []
chomp (c ∷ []) = if nat_beq c 13 then [] else c ∷ []
chomp (c ∷ d ∷ s) = c ∷ chomp (d ∷ s)

abbrev pub last_line : Text → List Text
last_line [] = []
last_line (c ∷ line) = (c ∷ line) ∷ []

abbrev pub lines_from : Text → Text → List Text
lines_from line [] = last_line line
lines_from line (c ∷ s) =
    let ended = lines_from [] s in
    let longer = lines_from (line ++ c ∷ []) s in
    if nat_beq c 10 then chomp line ∷ ended else longer

abbrev pub lines : Text → List Text
lines = lines_from []

abbrev pub keep_pair : List (Text × Text) → Option (Text × Text) → List (Text × Text)
keep_pair rest none = rest
keep_pair rest (some (k, v)) =
    let key = trim k in
    let val = trim_matches (nat_beq b'"') (trim v) in if null key then rest else (key, val) ∷ rest

-- What one line adds to the pairs of the lines after it.
unfoldable pub read_line : Text → List (Text × Text) → List (Text × Text)
read_line line rest =
    let trimmed = trim line in
    if null trimmed || starts_with (codes "#") trimmed
    then rest
    else keep_pair rest (split_once b'=' trimmed)

-- A line is missing where reading it failed, which ends the loop.
unfoldable pub read_config : List (Option Text) → List (Text × Text)
read_config [] = []
read_config (none ∷ reader) = []
read_config (some line ∷ reader) = read_line line (read_config reader)
