-- ===== src/Deploy.antt =====
-- crates/mai-core/src/deploy.rs: what is known of a remote host, the commands and arguments that a
-- deployment runs there, and its errors; the error and the output of a command over SSH are from
-- crates/mai-core/src/ssh/client.rs. The command lines of shells are in Quoting.
pub mod Detect
pub mod Run
pub mod Whole
pub mod Bundled
pub mod Asked
pub mod Verified
pub mod Replacing
pub mod Reported
pub mod Marks
pub mod Sample
mod Examples
use multi_ai.Base.{
  ℕ, Bool, true, false, ◌&&◌, Option, none, some, List, [], ◌∷◌, ◌++◌, map, Text, text, nat_beq,
  decimal, ◌==◌, list_eq, nat_eq, Result, ok, err, if◌then◌else◌, lines_loop, trim,
}
use multi_ai.Protocol.{sanitize_client}
use multi_ai.Host.{HookResult}
use multi_ai.Quoting.{
  Shell, posix, cmd, power_shell, sh_quote, replace_quotes, join_args, join_words,
}

pub data Os : Type 0 where
  linux mac_os windows : Os

pub record Remote : Type 0 where
  pub os : Os
  pub arch : Text
  pub shell : Shell
  pub home : Text

abbrev pub is_windows : Os → Bool
is_windows windows = true
is_windows _ = false

-- `Remote::target`: by the system, for x86_64 and for aarch64.
abbrev pub by_arch : Text → Option Text → Option Text → Option Text
by_arch arch x86 arm =
    if arch == text "x86_64" then x86 else if arch == text "aarch64" then arm else none

unfoldable pub target_for : Os → Text → Option Text
target_for linux arch =
    by_arch arch (some (text "x86_64-unknown-linux-musl"))
      (some (text "aarch64-unknown-linux-musl"))
target_for mac_os arch =
    by_arch arch (some (text "x86_64-apple-darwin")) (some (text "aarch64-apple-darwin"))
target_for windows arch = by_arch arch (some (text "x86_64-pc-windows-msvc")) none

abbrev pub target : Remote → Option Text
target r = target_for r.os r.arch

unfoldable pub exe_name : Os → Text
exe_name windows = text "mai-probe.exe"
exe_name _ = text "mai-probe"

-- `dir.replace('/', "\\")`.
abbrev pub backslashes : Text → Text
backslashes [] = []
backslashes (c ∷ s) = (if nat_beq c 47 then 92 else c) ∷ backslashes s

unfoldable pub probe_path : Remote → Text → Text
unfolding exe_name
probe_path r dir =
    if is_windows r.os
    then r.home ++ (92 ∷ (backslashes dir ++ (92 ∷ (text "bin" ++ (92 ∷ exe_name r.os)))))
    else r.home ++ (text "/" ++ (dir ++ (text "/bin/" ++ exe_name r.os)))

-- `client_argv`, `serve_argv`, `stop_argv`.
abbrev pub named_client : Text → List Text
named_client [] = []
named_client (c ∷ client) = text "--client" ∷ (c ∷ client) ∷ []

unfoldable pub client_argv : Text → List Text
unfolding sanitize_client
client_argv client = named_client (sanitize_client client)

unfoldable pub serve_argv : Text → Option Text → List Text
unfolding client_argv
serve_argv client none = text "serve" ∷ client_argv client
serve_argv client (some z) = text "serve" ∷ (client_argv client ++ (text "--zellij" ∷ z ∷ []))

unfoldable pub stop_argv : Text → List Text
unfolding client_argv
stop_argv client = text "stop" ∷ client_argv client

unfoldable pub serve_args : Remote → Text → Option Text → Text
unfolding serve_argv join_args
serve_args r client zellij = join_args r.shell (serve_argv client zellij)

unfoldable pub stop_args : Text → Text
unfolding stop_argv
stop_args client = join_words (stop_argv client)

-- `Remote::hash_command`.
abbrev pub hash_by_shell : Shell → Text → Text
hash_by_shell posix path = text "sha256sum " ++ sh_quote path
hash_by_shell cmd path = text "certutil -hashfile \"" ++ (path ++ text "\" SHA256")
hash_by_shell power_shell path =
    text "(Get-FileHash -Algorithm SHA256 '"
    ++ (replace_quotes (39 ∷ 39 ∷ []) path ++ text "').Hash")

unfoldable pub hash_command : Os → Shell → Text → Text
unfolding sh_quote
hash_command mac_os shell path = text "shasum -a 256 " ++ sh_quote path
hash_command linux shell path = hash_by_shell shell path
hash_command windows shell path = hash_by_shell shell path

pub data SshError : Type 0 where
  connect : Text → SshError
  host_key_rejected : Text → ℕ → Text → SshError
  host_key_changed : Text → ℕ → Text → ℕ → SshError
  host_key_revoked : Text → ℕ → Text → ℕ → SshError
  auth : Text → SshError
  channel : Text → SshError

pub data DeployError : Type 0 where
  detect : Text → DeployError
  no_binary : Text → Text → DeployError
  upload : Text → DeployError
  hooks : Option ℕ → Text → DeployError
  ssh : SshError → DeployError

abbrev of_host : Text → ℕ → Text
of_host host port = host ++ (58 ∷ decimal port)

-- `Display` of both errors. A path is its text; `debug_status` is `Debug` of a status.
unfoldable pub display_ssh : SshError → Text
display_ssh (connect m) = text "connect: " ++ m
display_ssh (host_key_rejected host port fingerprint) =
    text "host key for "
    ++ (of_host host port ++ (text " not trusted (" ++ (fingerprint ++ text ")")))
display_ssh (host_key_changed host port file line) =
    text "HOST KEY CHANGED for "
    ++ (of_host host port
        ++ (text " (see " ++ (of_host file line ++ text "); refusing to connect")))
display_ssh (host_key_revoked host port file line) =
    text "host key for "
    ++ (of_host host port
        ++ (text " is REVOKED (see " ++ (of_host file line ++ text "); refusing to connect")))
display_ssh (auth m) = text "authentication: " ++ m
display_ssh (channel m) = text "channel: " ++ m

unfoldable pub display_deploy : (Option ℕ → Text) → DeployError → Text
unfolding display_ssh
display_deploy debug_status (detect m) = text "detect remote platform: " ++ m
display_deploy debug_status (no_binary target path) =
    text "no probe for " ++ (target ++ (text " (expected " ++ (path ++ text ")")))
display_deploy debug_status (upload m) = text "upload probe: " ++ m
display_deploy debug_status (hooks status stderr) =
    text "install-hooks failed (status " ++ (debug_status status ++ (text "): " ++ stderr))
display_deploy debug_status (ssh e) = display_ssh e

-- `ExecOutput`, with both streams as text.
pub record ExecOutput : Type 0 where
  pub status : Option ℕ
  pub stdout : Text
  pub stderr : Text

unfoldable pub success : ExecOutput → Bool
success out = elim out.status [ none ↦ false | some n ↦ nat_beq n 0 ]

-- `parse_hook_lines`; `parse` is serde_json on one line.
abbrev pub keep_parsed : List (Option HookResult) → List HookResult
keep_parsed [] = []
keep_parsed (none ∷ rs) = keep_parsed rs
keep_parsed (some r ∷ rs) = r ∷ keep_parsed rs

unfoldable pub parse_hook_lines : (Text → Option HookResult) → Text → List HookResult
unfolding lines_loop trim
parse_hook_lines parse out = keep_parsed (map (λ l. parse (trim l)) (lines_loop [] out))

unfoldable pub hooks_result :
    (Text → Option HookResult) → ExecOutput → Result (List HookResult) DeployError
unfolding success parse_hook_lines
hooks_result parse out =
    if success out
    then ok (parse_hook_lines parse out.stdout)
    else err (hooks out.status out.stderr)

-- An `io::Error`: whether it is a timeout, and its text.
pub record IoError : Type 0 where
  pub timed_out : Bool
  pub message : Text

unfoldable pub upload_error : IoError → Bool → DeployError
upload_error e connection_closed =
    if connection_closed
    then ssh (connect (text "connection lost during upload: " ++ e.message))
    else if e.timed_out
    then ssh (connect (text "upload timed out (no answer within 60 s)"))
    else upload e.message
