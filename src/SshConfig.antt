-- ===== src/SshConfig.antt =====
-- crates/mai-core/src/ssh/config.rs: from a target and the SSH configuration to the parameters of a connection.
-- The parser of the configuration and its lookup of a host (ssh2_config), and `Path::join`, are parameters.
pub mod Resolve
pub mod Reader
pub mod Targets
mod Examples
use multi_ai.Base.{
  ℕ, ◌+◌, ◌*◌, ◌-◌, Bool, true, false, ◌&&◌, ◌||◌, not, Option, none, some, List, [], ◌∷◌, ◌++◌,
  map, filter, Text, text, nat_beq, leb, decimal, lines_loop, trim, trim_start, is_whitespace,
  lowercase, split_char, ◌==◌, list_eq, nat_eq, Result, ok, err, ◌>>=◌, if◌then◌else◌,
}

abbrev pub until : (ℕ → Bool) → Text → Text
until stops [] = []
until stops (c ∷ s) = let rest = until stops s in if stops c then [] else c ∷ rest

unfoldable pub keyword : Text → Text
unfolding trim_start is_whitespace lowercase
keyword line = lowercase (until (λ c. is_whitespace c || nat_beq c 61) (trim_start line))

-- Whether a line stands in a `Match` block, from whether the line before does.
unfoldable pub in_block : Bool → Text → Bool
unfolding keyword
in_block before line =
    if keyword line == text "match"
    then true
    else if keyword line == text "host"
    then false
    else before

unfoldable pub kept_lines : Bool → List Text → Text
unfolding in_block
kept_lines before [] = []
kept_lines before (l ∷ ls) =
    let now : Bool = in_block before l in
    let rest = kept_lines now ls in if now then rest else l ++ (10 ∷ rest)

unfoldable pub without_match_blocks : Text → Text
unfolding lines_loop kept_lines
without_match_blocks t = kept_lines false (lines_loop [] t)

abbrev pub warning : ℕ → Text → Option Text
warning n k =
    if k == text "match"
    then some (
        text "ssh config line "
        ++ (decimal n ++ text ": Match blocks are not supported; their settings are ignored"))
    else if k == text "include"
    then some (
        text "ssh config line "
        ++ (decimal n
            ++ text
                ": Include is followed, but Match blocks in included files are not detected; their settings may apply to the preceding Host"))
    else none

abbrev pub cons_found : Option Text → List Text → List Text
cons_found none ws = ws
cons_found (some w) ws = w ∷ ws

-- From the line with number `n` on.
unfoldable pub warnings_from : ℕ → List Text → List Text
unfolding keyword decimal
warnings_from n [] = []
warnings_from n (l ∷ ls) = cons_found (warning n (keyword l)) (warnings_from (n + 1) ls)

unfoldable pub config_warnings : Text → List Text
unfolding lines_loop warnings_from
config_warnings t = warnings_from 1 (lines_loop [] t)

-- `split_once` and `rsplit_once`.
abbrev pub cons_left : ℕ → Option (Text × Text) → Option (Text × Text)
cons_left c none = none
cons_left c (some (a, b)) = some (c ∷ a, b)

abbrev pub split_once : ℕ → Text → Option (Text × Text)
split_once c [] = none
split_once c (d ∷ s) =
    let rest = split_once c s in if nat_beq d c then some ([], s) else cons_left d rest

abbrev pub split_here : ℕ → ℕ → Text → Option (Text × Text) → Option (Text × Text)
split_here c d s (some (a, b)) = some (d ∷ a, b)
split_here c d s none = if nat_beq d c then some ([], s) else none

abbrev pub rsplit_once : ℕ → Text → Option (Text × Text)
rsplit_once c [] = none
rsplit_once c (d ∷ s) = split_here c d s (rsplit_once c s)

-- `str::parse` of a u16.
abbrev pub digits : ℕ → Text → Option ℕ
digits n [] = if leb n 65535 then some n else none
digits n (c ∷ s) =
    let rest = digits (n * 10 + (c - 48)) s in if leb 48 c && leb c 57 then rest else none

abbrev pub unsigned : Text → Option ℕ
unsigned [] = none
unsigned (c ∷ s) = digits 0 (c ∷ s)

abbrev pub parse_port : Text → Option ℕ
parse_port [] = none
parse_port (c ∷ s) = if nat_beq c 43 then unsigned s else unsigned (c ∷ s)

pub record Target : Type 0 where
  pub user : Option Text
  pub host : Text
  pub port : Option ℕ

abbrev pub with_port : Text → Option Text → Text → Option ℕ → Result Target Text
with_port t user host none = err (text "bad port in '" ++ (t ++ text "'"))
with_port t user host (some p) = ok (record { user = user; host = host; port = some p })

abbrev pub without_port : Option Text → Text → Result Target Text
without_port user host = ok (record { user = user; host = host; port = none })

abbrev pub after_bracket : Text → Option Text → Text → Text → Result Target Text
after_bracket t user addr [] = without_port user addr
after_bracket t user addr (c ∷ tail) =
    if nat_beq c 58 then with_port t user addr (parse_port tail) else without_port user addr

abbrev pub bracketed : Text → Option Text → Option (Text × Text) → Result Target Text
bracketed t user none = err (text "unclosed '[' in '" ++ (t ++ text "'"))
bracketed t user (some (addr, tail)) = after_bracket t user addr tail

abbrev pub is_absent : Option (Text × Text) → Bool
is_absent none = true
is_absent (some p) = false

abbrev pub plain : Text → Option Text → Text → Option (Text × Text) → Result Target Text
plain t user rest none = without_port user rest
plain t user rest (some (host, port)) =
    if is_absent (split_once 58 port)
    then with_port t user host (parse_port port)
    else without_port user rest

abbrev pub split_rest : Text → Option Text → Text → Result Target Text
split_rest t user [] = without_port user []
split_rest t user (c ∷ inner) =
    if nat_beq c 91
    then bracketed t user (split_once 93 inner)
    else plain t user (c ∷ inner) (split_once 58 (c ∷ inner))

abbrev pub split_user : Text → Option (Text × Text) → Result Target Text
split_user t none = split_rest t none t
split_user t (some (u, r)) = split_rest t (some u) r

unfoldable pub split_target : Text → Result Target Text
split_target t = split_user t (rsplit_once 64 t)
