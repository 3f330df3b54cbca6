-- ===== src/Deploy/Sample.antt =====
-- crates/mai-core/src/deploy.rs: test data, a Linux host with an older probe.
use multi_ai.Base.{
  true, false, none, some, List, [], ◌∷◌, ◌++◌, Text, text, ok, err, list_eq, nat_eq,
}
use multi_ai.Deploy.{
  linux, Remote, target, target_for, exe_name, probe_path, client_argv, stop_argv, stop_args,
  hash_command, ExecOutput, hooks_result, success, parse_hook_lines, upload_error,
}
use multi_ai.Deploy.Detect.{begin_mark, end_mark}
use multi_ai.Deploy.Run.{Answers, Texts}
use multi_ai.Deploy.Whole.{Store}

abbrev pub said : Text → ExecOutput
said out = record { status = some 0; stdout = out; stderr = [] }

abbrev pub lines : List Text → Text
lines [] = []
lines (l ∷ ls) = l ++ (10 ∷ lines ls)

abbrev pub old_sum : Text
old_sum = text "0123456789abcdef0123456789abcdef0123456789abcdef0123456789abcdef"

abbrev pub new_sum : Text
new_sum = text "aaaaaaaaaaaaaaaaaaaaaaaaaaaaaaaaaaaaaaaaaaaaaaaaaaaaaaaaaaaaaaaa"

-- A Linux host with an older probe; the upload arrives as it was sent.
abbrev pub answers : Answers
answers = record {
  posix_detect = ok (
      said (
        lines
          (text "Welcome!" ∷ begin_mark ∷ text "Linux x86_64" ∷ text "/home/u" ∷ end_mark ∷ [])));
  os_variable = err (multi_ai.Deploy.SshError.channel []);
  windows_detect = err (multi_ai.Deploy.SshError.channel []);
  old_hash = λ command. ok (said (old_sum ++ text "  /home/u/.mai/bin/mai-probe"));
  sftp = ok tt;
  exists = λ path. ok true;
  create_dir = λ path. none;
  create = none;
  write_all = none;
  shutdown = none;
  set_mode = none;
  new_hash = λ command. ok (said (new_sum ++ text "  /home/u/.mai/bin/mai-probe.upload"));
  swap = λ place. none;
  hooks = ok (said []);
  is_closed = false;
}

abbrev pub texts : Texts
texts = record {
  debug = λ t. t;
  debug_list = λ ts. [];
  debug_status = λ n. [];
  debug_os = λ os. [];
  parse_hook = λ l. none;
  sha256_hex = λ bytes. new_sum;
}

abbrev pub store : Store
store = record {
  dir = text "probes";
  join = λ a b. a ++ (47 ∷ b);
  read = λ path. some (text "probe");
}
