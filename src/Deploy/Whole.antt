-- ===== src/Deploy/Whole.antt =====
-- crates/mai-core/src/deploy.rs: the whole deployment (`deploy`), and the store of
-- bundled binaries (`ProbeStore`).
use multi_ai.Base.{
  Bool, true, false, not, Option, none, some, List, [], ◌∷◌, ◌++◌, Text, text, ◌==◌, list_eq,
  nat_eq, option_eq, ok, if◌then◌else◌, contains,
}
use multi_ai.Host.{HookResult}
use multi_ai.Quoting.{invoke}
use multi_ai.Deploy.{
  Remote, target, probe_path, stop_args, hash_command, detect, no_binary, hooks_result,
}
use multi_ai.Deploy.Detect.{parse_hash}
use multi_ai.Deploy.Run.{
  exec, Answers, DeployOptions, DeployReport, Course, and_then, fail, over_ssh, Texts,
  detect_remote, upload_probe,
}

-- `ProbeStore`, with `Path::join`, and what is read from a path.
pub record Store : Type 0 where
  pub dir : Text
  pub join : Text → Text → Text
  pub read : Text → Option Text

-- `ProbeStore::binary`.
unfoldable pub binary : Store → Text → Text
unfolding contains
binary store target =
    store.join (store.join store.dir target)
      (if contains target (text "windows") then text "mai-probe.exe" else text "mai-probe")

module _ (x : Texts) (w : Answers) (store : Store) (opts : DeployOptions) where
  abbrev pub choose_target : Remote → Option Text → Course Text
  choose_target r none =
      fail (detect (text "unsupported " ++ (x.debug_os r.os ++ (text " " ++ r.arch))))
  choose_target r (some t) = ([], ok t)

  abbrev pub read_binary : Text → Option Text → Course Text
  read_binary t none = fail (no_binary t (binary store t))
  read_binary t (some bytes) = ([], ok bytes)

  -- A running probe is told to stop; it may be too old to know how, and the answer is not used.
  abbrev pub stop_old : Remote → Option Text → Course (Unit {0})
  stop_old r none = ([], ok tt)
  stop_old r (some old) =
      (exec (invoke r.shell (probe_path r opts.dir) (stop_args opts.client)) ∷ [], ok tt)

  abbrev pub differs : Text → Option Text → Bool
  differs bytes old = not (old == some (x.sha256_hex bytes))

  unfoldable pub replace_probe : Remote → Text → Option Text → Course Bool
  unfolding upload_probe probe_path stop_args invoke
  replace_probe r bytes old =
      if differs bytes old
      then and_then (stop_old r old)
          (λ _. and_then (upload_probe x w r opts.dir bytes) (λ _. ([], ok true)))
      else ([], ok false)

  unfoldable pub install : Remote → Course (List HookResult)
  unfolding hooks_result invoke probe_path
  install r =
      if opts.install_hooks
      then and_then
          (over_ssh (exec (invoke r.shell (probe_path r opts.dir) (text "install-hooks"))) w.hooks)
          (λ out. ([], hooks_result x.parse_hook out))
      else ([], ok [])

  -- Once the remote host and the binary are known.
  unfoldable pub deploy_to : Remote → Text → Course DeployReport
  unfolding replace_probe install parse_hash hash_command probe_path
  deploy_to r bytes =
      let command : Text = hash_command r.os r.shell (probe_path r opts.dir) in
      and_then (over_ssh (exec command) (w.old_hash command)) λ out.
        and_then (replace_probe r bytes (parse_hash out.stdout)) λ uploaded.
          and_then (install r) λ hooks. (
            [],
            ok (record {
              remote = r;
              path = probe_path r opts.dir;
              uploaded = uploaded;
              hooks = hooks;
            }),
          )

  unfoldable pub deploy : Course DeployReport
  unfolding detect_remote deploy_to binary
  deploy = and_then (detect_remote x w) λ r.
      and_then (choose_target r (target r))
        λ t. and_then (read_binary t (store.read (binary store t))) λ bytes. deploy_to r bytes
