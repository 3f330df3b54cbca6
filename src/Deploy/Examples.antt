-- ===== src/Deploy/Examples.antt =====
-- crates/mai-core/src/deploy.rs: tests, and the theorems at concrete inputs.
use multi_ai.Base.{
  contains, ◌≡◌, refl, true, false, [], text, ok, list_beq, trim, trim_start, trim_end,
  is_whitespace, lines_loop, starts_with, uppercase, lowercase, split_whitespace, words_from,
  split_char, split_from, option_beq, ◌==◌, list_eq, nat_eq,
}
use multi_ai.Quoting.{posix}
use multi_ai.Deploy.{
  linux, Remote, target_for, exe_name, probe_path, hash_command, hooks_result, success,
  parse_hook_lines,
}
use multi_ai.Deploy.Detect.{
  begin_mark, end_mark, between_marks, until_end, marked_lines, normalize_arch, parse_uname,
  parse_hash, parse_posix_detect,
}
use multi_ai.Deploy.Run.{
  swap_in, DeployOptions, DeployReport, detect_remote, upload_probe, make_dirs, verify,
}
use multi_ai.Deploy.Whole.{binary, replace_probe, install, deploy_to, deploy}
use multi_ai.Deploy.Verified.{Calls, place_of}
use multi_ai.Deploy.Replacing.{Justified, deploy-Justified}
use multi_ai.Deploy.Reported.{IsTrue, Placed, deploy_reported}
use multi_ai.Deploy.Sample.{answers, texts, store}

abbrev options : DeployOptions
options = record { dir = text ".mai"; install_hooks = true; client = text "desk" }

abbrev remote : Remote
remote = record { os = linux; arch = text "x86_64"; shell = posix; home = text "/home/u" }

abbrev report : DeployReport
report = record {
  remote = remote;
  path = text "/home/u/.mai/bin/mai-probe";
  uploaded = true;
  hooks = [];
}

welcome_is_noise : (text "Welcome!" == begin_mark) ≡ false
unfolding list_beq
welcome_is_noise = refl

uname_is_inside : (text "Linux x86_64" == end_mark) ≡ false
unfolding list_beq
uname_is_inside = refl

home_is_inside : (text "/home/u" == end_mark) ≡ false
unfolding list_beq
home_is_inside = refl

deploys : (deploy texts answers store options).1 ≡ ok report
unfolding deploy detect_remote parse_posix_detect marked_lines lines_loop trim trim_start trim_end
    is_whitespace between_marks until_end list_beq starts_with uppercase parse_uname
    split_whitespace words_from normalize_arch lowercase target_for deploy_to hash_command
    parse_hash replace_probe option_beq upload_probe make_dirs split_char split_from verify install
    hooks_result success parse_hook_lines probe_path exe_name binary contains
deploys = refl

deploy_reported_example :
    IsTrue texts answers store options report (deploy texts answers store options).0
deploy_reported_example = deploy_reported texts answers store options report deploys

placed : Placed texts answers (place_of remote (text ".mai")) (deploy texts answers store options).0
placed =
    let (t, (bytes, (found, (path, (up, same))))) =
      deploy_reported texts answers store options report deploys in
    up refl

swaps : Calls (swap_in (place_of remote (text ".mai"))) (deploy texts answers store options).0
swaps = placed.0

deploy-Justified_example :
    Justified texts answers store options
      (place_of remote (text ".mai"))
      (deploy texts answers store options).0
deploy-Justified_example =
    deploy-Justified texts answers store options (place_of remote (text ".mai")) swaps
