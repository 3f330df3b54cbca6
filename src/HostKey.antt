-- ===== src/HostKey.antt =====
-- crates/mai-core/src/ssh/hostkey.rs: checking a server's key against known_hosts files. Parsing one
-- line, the hash of a hashed name, and keys are the libraries' (russh, hmac): parameters. A file is
-- what `exists` and `read` give. Recording a key is not modelled.
pub mod Globs
pub mod Verdicts
mod Examples
use multi_ai.Base.{
  lines_loop, ℕ, suc, ◌+◌, Bool, true, false, ◌&&◌, ◌||◌, not, Option, none, some, List, [], ◌∷◌,
  ◌++◌, map, Text, text, decimal, nat_beq, ltb, leb, or_else, if◌then◌else◌,
}

pub data HostKeyStatus : Type 0 where
  known unknown : HostKeyStatus
  changed : Text → ℕ → HostKeyStatus
  revoked : Text → ℕ → HostKeyStatus
  unreadable : Text → Text → HostKeyStatus

-- `to_ascii_lowercase`.
unfoldable pub lower : ℕ → ℕ
lower c = if leb b'A' c && leb c b'Z' then c + 32 else c

unfoldable pub host_name : Text → ℕ → Text
unfolding lower
host_name host port =
    let h : Text = map lower host in
    if nat_beq port 22 then h else (b'[' ∷ h) ++ (text "]:" ++ decimal port)

-- `(0..=text.len()).any(|i| f(&text[i..]))`.
abbrev pub any_suffix : (Text → Bool) → Text → Bool
any_suffix f [] = f []
any_suffix f (c ∷ s) = f (c ∷ s) || any_suffix f s

-- `!text.is_empty() && f(&text[1..])`, with a test of the first character.
abbrev pub on_first : (ℕ → Bool) → (Text → Bool) → Text → Bool
on_first p f [] = false
on_first p f (c ∷ s) = p c && f s

unfoldable pub glob : Text → Text → Bool
glob [] [] = true
glob [] (c ∷ s) = false
glob (c ∷ rest) t =
    let go = glob rest in
    if nat_beq c b'*'
    then any_suffix go t
    else if nat_beq c b'?'
    then on_first (λ x. true) go t
    else on_first (λ x. nat_beq x c) go t

-- `strip_prefix('!')`.
abbrev pub strip_bang : Text → Bool × Text
strip_bang [] = (false, [])
strip_bang (c ∷ s) = if nat_beq c b'!' then (true, s) else (false, c ∷ s)

-- The loop over the patterns.
unfoldable pub match_patterns : Bool → List Text → Text → Bool
unfolding lower
match_patterns matched [] name = matched
match_patterns matched (p ∷ ps) name =
    let (negated, q) = strip_bang p in
    let hit = match_patterns true ps name in
    let miss = match_patterns matched ps name in
    if glob (map lower q) name then (if negated then false else hit) else miss

pub data HostPatterns : Type 0 where
  hashed_name : Text → Text → HostPatterns
  patterns : List Text → HostPatterns

pub data Marker : Type 0 where
  revoked_key cert_authority : Marker

-- A parsed line.
pub record Entry (Key : Type 0) : Type 0 where
  pub host_patterns : HostPatterns
  pub marker : Option Marker
  pub public_key : Key

pub record FileVerdict : Type 0 where
  pub is_known : Bool
  pub changed_at : Option ℕ
  pub revoked_at : Option ℕ

-- What `exists` and `read` give for a file.
pub data File : Type 0 where
  missing : File
  failing : Text → File
  contents : Text → File

-- What the code relies on of the libraries.
pub record Keys (Key : Type 0) : Type 0 where
  pub parse : Text → Option (Entry Key)
  -- Salt, hash and name.
  pub hashed_matches : Text → Text → Text → Bool
  -- `key_data() ==` and `algorithm() ==`.
  pub same_key : Key → Key → Bool
  pub same_algorithm : Key → Key → Bool

module _ {Key : Type 0} (k : Keys Key) where
  unfoldable pub host_matches : HostPatterns → Text → Bool
  host_matches (hashed_name salt hash) name = k.hashed_matches salt hash name
  host_matches (patterns list) name = match_patterns false list name

  -- One parsed line that applies; `n` is its number.
  unfoldable pub judge : ℕ → Entry Key → Key → FileVerdict → FileVerdict
  judge n e key v =
      let same = k.same_key e.public_key key in
      elim e.marker [
        | some revoked_key ↦
            if same then record v { revoked_at = or_else v.revoked_at (some n) } else v
        | some cert_authority ↦ v
        | none ↦
            if same
            then record v { is_known = true }
            else if k.same_algorithm e.public_key key
            then record v { changed_at = or_else v.changed_at (some n) }
            else v
      ]

  unfoldable pub scan_line : ℕ → Text → Text → Key → FileVerdict → FileVerdict
  scan_line n line name key v = elim (k.parse line) [
    | none ↦ v
    | some e ↦ if not (host_matches e.host_patterns name) then v else judge n e key v
  ]

  unfoldable pub scan_lines : ℕ → List Text → Text → Key → FileVerdict → FileVerdict
  scan_lines i [] name key v = v
  scan_lines i (l ∷ ls) name key v = scan_lines (i + 1) ls name key (scan_line (i + 1) l name key v)

  unfoldable pub scan : Text → Text → Key → FileVerdict
  scan t name key =
      scan_lines 0 (lines_loop [] t) name key
        (record { is_known = false; changed_at = none; revoked_at = none })

  -- The loop over the files, and the result.
  unfoldable pub check_files :
      Bool → Option (Text × ℕ) → List (Text × File) → Text → Key → HostKeyStatus
  check_files is_known first_changed [] name key = elim first_changed [
    | some (file, line) ↦ changed file line
    | none ↦ if is_known then known else unknown
  ]
  check_files is_known first_changed ((path, missing) ∷ fs) name key =
      check_files is_known first_changed fs name key
  check_files is_known first_changed ((path, failing e) ∷ fs) name key = unreadable path e
  check_files is_known first_changed ((path, contents t) ∷ fs) name key =
      let v : FileVerdict = scan t name key in
      let here : Option (Text × ℕ) = elim v.changed_at [
        | none ↦ none
        | some line ↦ some (path, line)
      ] in
      let rest = check_files (is_known || v.is_known) (or_else first_changed here) fs name key in
      elim v.revoked_at [ some line ↦ revoked path line | none ↦ rest ]

  unfoldable pub check : List (Text × File) → Text → ℕ → Key → HostKeyStatus
  check files host port key = check_files false none files (host_name host port) key
