-- ===== src/Term.antt =====
-- crates/mai-core/src/term.rs: what is said to and by a terminal, its errors, and the command line
-- that attaches to a session. The sizes and messages of a PTY are from crates/mai-core/src/pty.rs.
-- The task that owns the terminals of a host is in Term/Task.
pub mod Task
pub mod Reconnect
pub mod Run
pub mod Kept
pub mod Invariant
pub mod Steady
pub mod Opening
pub mod Rounds
pub mod Ending
pub mod Words
mod Examples
use multi_ai.Base.{
  ℕ, Bool, true, false, Option, none, some, List, [], ◌∷◌, ◌++◌, ◌||◌, Text, text, starts_with,
  unwrap_or, Result, ok, err, if◌then◌else◌,
}
use multi_ai.Host.{OpenError, retry, needs_user, display_problem}
use multi_ai.Quoting.{Shell, posix, cmd, power_shell, invoke, join_args, join_words}

pub record TermSize : Type 0 where
  pub cols : ℕ
  pub rows : ℕ

pub data PtyIn : Type 0 where
  data_in : List ℕ → PtyIn
  resize : TermSize → PtyIn
  close : PtyIn

pub data PtyOut : Type 0 where
  data_out : List ℕ → PtyOut
  exit : Option ℕ → PtyOut

pub record AttachSpec : Type 0 where
  pub session : Text
  pub create : Bool
  pub size : TermSize

pub data TermEvent : Type 0 where
  output : List ℕ → TermEvent
  attached : TermEvent
  detached : Text → TermEvent
  exited : Option ℕ → TermEvent

pub data TermError : Type 0 where
  no_host : TermError
  bad_session : Text → TermError
  open_failed : OpenError → TermError
  stopped : TermError

-- `MAX_QUICK_ENDS` and `LOCALE_ENV`.
abbrev pub max_quick_ends : ℕ
max_quick_ends = 3

abbrev pub locale_env : List (Text × Text)
locale_env = (text "LANG", text "en_US.UTF-8") ∷ (text "LC_CTYPE", text "en_US.UTF-8") ∷ []

unfoldable pub attach_argv : Text → Bool → List Text
attach_argv session create =
    if create then text "attach" ∷ text "--create" ∷ session ∷ [] else text "attach" ∷ session ∷ []

-- `map(|(k, v)| format!("{k}={v}"))`.
unfoldable pub assignments : List (Text × Text) → List Text
assignments [] = []
assignments ((k, v) ∷ env) = (k ++ (text "=" ++ v)) ∷ assignments env

abbrev pub is_posix : Shell → Bool
is_posix posix = true
is_posix _ = false

unfoldable pub remote_attach_command : Shell → Option Text → Text → Bool → Bool → Text
unfolding invoke join_args attach_argv assignments
remote_attach_command shell zellij session create env_accepted =
    let line : Text =
      invoke shell (unwrap_or zellij (text "zellij"))
        (join_args shell (attach_argv session create)) in
    if env_accepted
    then line
    else if is_posix shell
    then join_words (assignments locale_env) ++ (text " " ++ line)
    else line

-- `Debug` of a text is a parameter of its error's `Display`.
unfoldable pub display_error : (Text → Text) → TermError → Text
unfolding display_problem
display_error debug no_host = text "no such host"
display_error debug (bad_session name) =
    text "invalid session name " ++ (debug name ++ text ": it must not be empty or start with '-'")
display_error debug (open_failed (retry m)) = text "terminal connection failed: " ++ m
display_error debug (open_failed (needs_user p)) = display_problem p
display_error debug stopped = text "host removed"

abbrev pub is_empty : Text → Bool
is_empty [] = true
is_empty _ = false

unfoldable pub check_session : Text → Result (Unit {0}) TermError
unfolding starts_with
check_session name =
    if is_empty name || starts_with name (text "-") then err (bad_session name) else ok tt

unfoldable pub reason_of : OpenError → Text
unfolding display_problem
reason_of (retry m) = m
reason_of (needs_user p) = display_problem p
