-- ===== src/Connect.antt =====
-- crates/mai-core/src/connect.rs: how failures are shown, and the description of this machine. Putting the
-- local probe in place is in Placing, opening a connection over SSH in Opening.
pub mod Placing
pub mod Placed
pub mod Opening
pub mod Local
pub mod Terminals
pub mod Locale
pub mod Retries
pub mod Whole
pub mod Started
mod Examples
use multi_ai.Base.{
  ℕ, Bool, true, false, Option, none, some, List, [], ◌∷◌, ◌++◌, Text, text, ◌==◌, list_eq, nat_eq,
  Result, ok, err, if◌then◌else◌,
}
use multi_ai.Host.{
  HookResult, OpenError, retry, needs_user, Problem, auth, host_key_rejected, host_key_changed,
  host_key_revoked, deploy, config, protocol,
}
use multi_ai.Quoting.{Shell, posix, cmd}
use multi_ai.Deploy.{
  Os, linux, mac_os, windows, Remote, SshError, DeployError, display_deploy, ExecOutput,
  hooks_result,
}
use multi_ai.Deploy.Detect.{normalize_arch}

-- `notes.join("; ")`.
abbrev pub join_notes : List Text → Text
join_notes [] = []
join_notes (n ∷ []) = n
join_notes (n ∷ m ∷ ns) = n ++ (text "; " ++ join_notes (m ∷ ns))

abbrev pub add_notes : List Text → Text → Text
add_notes notes m = m ++ (text " (" ++ (join_notes notes ++ text ")"))

abbrev pub noted_problem : List Text → Problem → Problem
noted_problem notes (auth m) = auth (add_notes notes m)
noted_problem notes (deploy m) = deploy (add_notes notes m)
noted_problem notes (config m) = config (add_notes notes m)
noted_problem notes p = p

abbrev pub noted : List Text → OpenError → OpenError
noted notes (retry m) = retry (add_notes notes m)
noted notes (needs_user p) = needs_user (noted_problem notes p)

unfoldable pub with_notes : OpenError → List Text → OpenError
with_notes e [] = e
with_notes e (n ∷ ns) = noted (n ∷ ns) e

unfoldable pub ssh_open_error : SshError → OpenError
ssh_open_error (SshError.connect m) = retry m
ssh_open_error (SshError.channel m) = retry m
ssh_open_error (SshError.auth m) = needs_user (auth m)
ssh_open_error (SshError.host_key_rejected host port fingerprint) = needs_user host_key_rejected
ssh_open_error (SshError.host_key_changed host port file line) =
    needs_user (host_key_changed file line)
ssh_open_error (SshError.host_key_revoked host port file line) =
    needs_user (host_key_revoked file line)

-- `debug` is `Debug` of an exit status.
unfoldable pub deploy_open_error : (Option ℕ → Text) → DeployError → OpenError
unfolding ssh_open_error display_deploy
deploy_open_error debug (DeployError.ssh e) = ssh_open_error e
deploy_open_error debug e = needs_user (deploy (display_deploy debug e))

abbrev pub shown {ℓ} : {A : Type ℓ} → (Option ℕ → Text) → Result A DeployError → Result A Text
shown debug (ok a) = ok a
shown debug (err e) = err (display_deploy debug e)

unfoldable pub hooks_outcome :
    (Option ℕ → Text) → (Text → Option HookResult) → ExecOutput → Result (List HookResult) Text
unfolding hooks_result display_deploy
hooks_outcome debug parse out = shown debug (hooks_result parse out)

-- `std::env::consts::OS`.
abbrev pub this_os : Text → Option Os
this_os os =
    if os == text "linux"
    then some linux
    else if os == text "macos"
    then some mac_os
    else if os == text "windows"
    then some windows
    else none

abbrev pub shell_for : Os → Shell
shell_for windows = cmd
shell_for _ = posix

abbrev pub described : Text → Option Os → Option Text → Option Remote
described home (some os) (some arch) =
    some (record { os = os; arch = arch; shell = shell_for os; home = home })
described home _ _ = none

-- The system and the CPU that the app was built for, and the home directory.
unfoldable pub local_remote : Text → Text → Text → Option Remote
unfolding normalize_arch
local_remote os arch home = described home (this_os os) (normalize_arch arch)
