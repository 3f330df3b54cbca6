-- ===== src/Connect/Examples.antt =====
-- crates/mai-core/src/connect.rs: tests, and the theorems at concrete inputs.
use multi_ai.Base.{
  contains, ◌==◌, list_eq, nat_eq, ◌≡◌, false, ℕ, Result, refl, inl, inr, Bool, true, Option, none,
  some, List, [], ◌∷◌, Text, text, ok, err, list_beq, option_beq, nat_beq, if◌then◌else◌, trim,
  trim_start, trim_end, is_whitespace, lines_loop, starts_with, uppercase, lowercase,
  split_whitespace, words_from, split_char, split_from,
}
use multi_ai.Map
use multi_ai.Deploy.{
  SshError, target_for, exe_name, probe_path, hash_command, hooks_result, success, parse_hook_lines,
}
use multi_ai.Deploy.Detect.{
  between_marks, until_end, marked_lines, normalize_arch, parse_uname, parse_hash,
  parse_posix_detect,
}
use multi_ai.Deploy.Run.{detect_remote, upload_probe, make_dirs, verify}
use multi_ai.Quoting.{invoke, posix}
use multi_ai.Deploy.{linux, Remote, serve_args}
use multi_ai.Deploy.Whole.{binary, replace_probe, install, deploy_to, deploy}
use multi_ai.Deploy.Sample.{answers, texts, store, said}
use multi_ai.Swap.{
  Disk, in_dir, swap_in, exists, remove, rename, list, remove_leftovers, clean, aside_name,
  move_aside, restore, drop_old, move_in, ticked,
}
use multi_ai.Swap.Safety.{Kept}
use multi_ai.Connect.Placing.{
  read, create_dir_all, write, set_permissions, place_new, place_over, place_binary,
}
use multi_ai.Connect.Placed.{Same, Stands, place, place_binary_ok, place_binary_err}
use multi_ai.Connect.Opening.{
  HostConfig, ssh, Connector, ConfigReader, Session, run_hooks, prepare, start_serve, open_ssh,
  spec,
}
use multi_ai.Connect.Local.{Machine}
use multi_ai.Connect.Locale.{Env, local_env_with, locale, names_utf8, inherited, local_env_utf8}
use multi_ai.Connect.Started.{Starts, Trusted, open_ssh-Trusted}

-- An older probe; the fourth call, which makes the new one executable, may fail.
abbrev disk : (ℕ → Option Text) → Disk
disk fails = record {
  files = (in_dir (text "b") (text "p"), text "v1") ∷ [];
  fails = fails;
  calls = 0;
}

abbrev still : (t : Text) (d : Disk) → Same t d (ticked d)
still t d = (refl, refl)

abbrev placed : Disk → Result Bool Text × Disk
placed d = place (λ t. t) ticked true 2 [] (text "v2") (text "v") (text "b") (text "p") d

-- What placing a probe unfolds.
places : Unit {0}
unfolding place_binary place_over place_new read create_dir_all write set_permissions option_beq
    swap_in move_in drop_old restore move_aside aside_name clean remove_leftovers list rename remove
    exists Map.get Map.insert Map.remove list_beq
places = tt

place_binary_ok_example :
    Stands (λ t. t) (in_dir (text "b") (text "p")) (text "v2") true (placed (disk (λ n. none))).1
unfolding places
place_binary_ok_example =
    place_binary_ok (λ t. t) ticked true 2 [] (text "v2") (text "v") (text "b") (text "p") still
      (disk (λ n. none)) true refl

abbrev full : Disk
full = disk (λ n. if nat_beq n 2 then some (text "disk full") else none)

place_binary_err_example : Kept (in_dir (text "b") (text "p")) 2 full (placed full).1
unfolding places
place_binary_err_example =
    place_binary_err (λ t. t) ticked true 2 [] (text "v2") (text "v") (text "b") (text "p") still
      full (text "disk full") refl

-- A connector with no SSH configuration.
abbrev connector : Connector
connector = record {
  ssh_config = none;
  home = text "/home/me";
  default_user = text "me";
  client = text "desk";
  dir = text ".mai";
  install_hooks = true;
}

abbrev reader : ConfigReader (Unit {0}) Text
reader = record {
  parse_config = λ t. ok tt;
  resolve = λ cfg target user home. ok target;
  config_warnings = λ t. [];
  jump_warnings = λ cfg sp. [];
}

abbrev session : Result (List Text) SshError → Session Text
session r = record {
  connect = λ sp. r;
  answers = answers;
  hooks = ok (said []);
  serve = ok tt;
  search = none;
}

abbrev host : HostConfig
host = record { id = text "h"; kind = ssh (text "box"); zellij = none }

abbrev refused : Session Text
refused = session (err (SshError.connect (text "refused")))

-- This machine is not asked.
abbrev machine : Machine
machine = record {
  remote = none;
  read = err [];
  placing = λ exe bytes. ok true;
  hooks = err [];
  spawn = none;
  pipes = true;
}

-- The command line that starts the probe.
abbrev box : Remote
box = record { os = linux; arch = text "x86_64"; shell = posix; home = text "/home/u" }

abbrev line : Text
line = invoke posix (text "/home/u/.mai/bin/mai-probe") (serve_args box (text "desk") none)

-- What opening a connection unfolds.
opens :
    Starts line
      (open_ssh reader texts store (λ n. []) connector (session (ok [])) host (text "box")).0
unfolding open_ssh spec prepare start_serve run_hooks deploy detect_remote parse_posix_detect
    marked_lines lines_loop trim trim_start trim_end is_whitespace between_marks until_end list_beq
    starts_with uppercase parse_uname split_whitespace words_from normalize_arch lowercase
    target_for deploy_to hash_command parse_hash replace_probe option_beq upload_probe make_dirs
    split_char split_from verify install hooks_result success parse_hook_lines probe_path exe_name
    binary contains
opens = inr (inr (inr (inr (inr (inl refl)))))

open_ssh-Trusted_example :
    Trusted reader texts store (λ n. []) connector (session (ok [])) host line
open_ssh-Trusted_example =
    open_ssh-Trusted reader texts store (λ n. []) connector (session (ok [])) host (text "box") line
      opens

-- An app with a German locale that is not UTF-8.
abbrev german : Text → Option Text
german k = some (text "de_DE.ISO-8859-1")

local_env_utf8_example :
    let env : Env = local_env_with false true german in
    (names_utf8 (locale (inherited env german)) ≡ true)
    × (names_utf8 (locale german) ≡ true
        → (k : Text) → (text "TERM" == k) ≡ false
        → inherited env german k ≡ german k)
local_env_utf8_example = local_env_utf8 true german
