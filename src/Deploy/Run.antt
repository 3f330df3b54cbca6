-- ===== src/Deploy/Run.antt =====
-- crates/mai-core/src/deploy.rs: the course of a deployment (`detect`, `upload`, `deploy`). A run lists the calls that
-- it makes, in order, with its result; what each call answers is given by the host.
use multi_ai.Base.{
  ℕ, Bool, true, false, Option, none, some, List, [], ◌∷◌, ◌++◌, Text, text, trim, ◌==◌, list_eq,
  nat_eq, option_eq, split_char, Result, ok, err, if◌then◌else◌,
}
use multi_ai.Host.{HookResult}
use multi_ai.Quoting.{Shell, posix, cmd, power_shell}
use multi_ai.Deploy.{
  Os, windows, Remote, exe_name, probe_path, hash_command, SshError, DeployError, detect, upload,
  ssh, ExecOutput, IoError, upload_error,
}
use multi_ai.Deploy.Detect.{
  parse_posix_detect, parse_windows_detect, parse_hash, posix_detect_command,
  windows_detect_command,
}

pub data Call : Type 0 where
  exec : Text → Call
  open_sftp : Call
  try_exists : Text → Call
  create_dir : Text → Call
  create : Text → Call
  write_all : Text → Text → Call
  shutdown : Text → Call
  set_mode : Text → Call
  remove_file : Text → Call
  swap_in : Text → Call

-- What the host answers. The commands that compute a hash are answered by what they are, before the upload and
-- after it; putting a file in place is answered by the place.
pub record Answers : Type 0 where
  pub posix_detect : Result ExecOutput SshError
  pub os_variable : Result ExecOutput SshError
  pub windows_detect : Result ExecOutput SshError
  pub old_hash : Text → Result ExecOutput SshError
  pub sftp : Result (Unit {0}) SshError
  pub exists : Text → Result Bool IoError
  pub create_dir : Text → Option IoError
  pub create : Option IoError
  pub write_all : Option IoError
  pub shutdown : Option IoError
  pub set_mode : Option IoError
  pub new_hash : Text → Result ExecOutput SshError
  pub swap : Text → Option Text
  pub hooks : Result ExecOutput SshError
  pub is_closed : Bool

-- `DeployOptions`, and `DeployReport`.
pub record DeployOptions : Type 0 where
  pub dir : Text
  pub install_hooks : Bool
  pub client : Text

pub record DeployReport : Type 0 where
  pub remote : Remote
  pub path : Text
  pub uploaded : Bool
  pub hooks : List HookResult

abbrev pub Course {ℓ} : Type ℓ → Type ℓ
Course A = List Call × Result A DeployError

-- What follows runs if there was no error (`?`).
abbrev pub and_then {ℓ κ} : {A : Type ℓ} {B : Type κ} → Course A → (A → Course B) → Course B
and_then (calls, err x) next = (calls, err x)
and_then (calls, ok a) next = (calls ++ (next a).0, (next a).1)

abbrev pub fail {ℓ} : {A : Type ℓ} → DeployError → Course A
fail x = ([], err x)

abbrev pub over_ssh {ℓ} : {A : Type ℓ} → Call → Result A SshError → Course A
over_ssh c (ok a) = (c ∷ [], ok a)
over_ssh c (err x) = (c ∷ [], err (ssh x))

-- The library's texts of errors, the parser of a hook line, and `sha256_hex`.
pub record Texts : Type 0 where
  pub debug : Text → Text
  pub debug_list : List Text → Text
  pub debug_status : Option ℕ → Text
  pub debug_os : Os → Text
  pub parse_hook : Text → Option HookResult
  pub sha256_hex : Text → Text

module _ (x : Texts) (w : Answers) where
  abbrev pub shell_of : Text → Result Shell DeployError
  shell_of v =
      if v == text "Windows_NT"
      then ok cmd
      else if v == text "%OS%"
      then ok power_shell
      else err
          (detect (text "neither a POSIX shell nor Windows (%OS%: " ++ (x.debug v ++ text ")")))

  abbrev pub windows_remote : Shell → Text × Text → Remote
  windows_remote shell (arch, home) = record {
    os = windows;
    arch = arch;
    shell = shell;
    home = home;
  }

  unfoldable pub detect_windows : Course Remote
  unfolding trim windows_detect_command parse_windows_detect
  detect_windows = and_then (over_ssh (exec (text "echo %OS%")) w.os_variable) λ os.
      and_then ([], shell_of (trim os.stdout))
        λ shell. and_then (over_ssh (exec (windows_detect_command shell)) w.windows_detect) λ out.
          and_then ([], parse_windows_detect x.debug x.debug_list out.stdout)
            λ found. ([], ok (windows_remote shell found))

  abbrev pub detected : Option (Os × (Text × Text)) → Course Remote
  detected none = detect_windows
  detected (some (os, (arch, home))) =
      ([], ok (record { os = os; arch = arch; shell = posix; home = home }))

  -- `detect`.
  unfoldable pub detect_remote : Course Remote
  unfolding posix_detect_command parse_posix_detect detect_windows
  detect_remote = and_then (over_ssh (exec posix_detect_command) w.posix_detect) λ out.
      and_then ([], parse_posix_detect x.debug x.debug_list out.stdout) λ found. detected found

  -- One call of SFTP.
  abbrev pub over_sftp : Call → Option IoError → Course (Unit {0})
  over_sftp c none = (c ∷ [], ok tt)
  over_sftp c (some e) = (c ∷ [], err (upload_error e w.is_closed))

  abbrev pub ask_exists : Text → Result Bool IoError → Course Bool
  ask_exists path (ok b) = (try_exists path ∷ [], ok b)
  ask_exists path (err e) = (try_exists path ∷ [], err (upload_error e w.is_closed))

  abbrev pub make_missing : Text → Bool → Course (Unit {0})
  make_missing path true = ([], ok tt)
  make_missing path false = over_sftp (create_dir path) (w.create_dir path)

  abbrev pub join_path : Text → Text → Text
  join_path [] part = part
  join_path (c ∷ path) part = (c ∷ path) ++ (text "/" ++ part)

  -- The loop over the parts of the directory.
  unfoldable pub make_dirs : Text → List Text → Course (Unit {0})
  unfolding upload_error
  make_dirs path [] = ([], ok tt)
  make_dirs path (part ∷ parts) =
      let next : Text = join_path path part in
      and_then (ask_exists next (w.exists next))
        λ there. and_then (make_missing next there) λ _. make_dirs next parts

  -- The uploaded file is swapped in only with the right hash.
  abbrev pub swapped : Text → Option Text → Course (Unit {0})
  swapped place none = (swap_in place ∷ [], ok tt)
  swapped place (some e) =
      (swap_in place ∷ [], err (upload (text "replace " ++ (place ++ (text ": " ++ e)))))

  abbrev pub check_hash : Text → Text → Text → Text → ExecOutput → Option Text → Course (Unit {0})
  check_hash bytes place tmp tmp_abs out none = (
    remove_file tmp ∷ [],
    err (
        upload (
          text "cannot compute SHA-256 of "
          ++ (tmp_abs
              ++ (text " on the host (exit "
                  ++ (x.debug_status out.status ++ (text "): " ++ trim out.stderr)))))),
  )
  check_hash bytes place tmp tmp_abs out (some written) =
      if written == x.sha256_hex bytes then swapped place (w.swap place) else (
        remove_file tmp ∷ [],
        err (upload (text "uploaded file does not match (SHA-256 " ++ (written ++ text ")"))),
      )

  -- The end of `upload`: the host computes the hash of what was written.
  unfoldable pub verify : Remote → Text → Text → Text → Text → Course (Unit {0})
  unfolding hash_command probe_path parse_hash trim
  verify remote dir bytes place tmp =
      let tmp_abs : Text = probe_path remote dir ++ text ".upload" in
      let command : Text = hash_command remote.os remote.shell tmp_abs in
      and_then (over_ssh (exec command) (w.new_hash command))
        λ out. check_hash bytes place tmp tmp_abs out (parse_hash out.stdout)

  abbrev pub make_executable : Os → Text → Course (Unit {0})
  make_executable windows tmp = ([], ok tt)
  make_executable _ tmp = over_sftp (set_mode tmp) w.set_mode

  -- `upload`.
  unfoldable pub upload_probe : Remote → Text → Text → Course (Unit {0})
  unfolding make_dirs verify exe_name upload_error split_char
  upload_probe remote dir bytes =
      let bin_dir : Text = dir ++ text "/bin" in
      let place : Text = bin_dir ++ (text "/" ++ exe_name remote.os) in
      let tmp : Text = place ++ text ".upload" in
      and_then (over_ssh open_sftp w.sftp) λ _. and_then (make_dirs [] (split_char 47 bin_dir)) λ _.
        and_then (over_sftp (create tmp) w.create) λ _.
          and_then (over_sftp (write_all tmp bytes) w.write_all) λ _.
            and_then (over_sftp (shutdown tmp) w.shutdown)
              λ _. and_then (make_executable remote.os tmp) λ _. verify remote dir bytes place tmp
