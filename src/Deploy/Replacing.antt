-- ===== src/Deploy/Replacing.antt =====
-- crates/mai-core/src/deploy.rs: when a deployment replaces the probe, and what it reports (`deploy`).
use multi_ai.Base.{
  ◌≡◌, ◌≢◌, refl, ap, sym, ◌∙◌, inl, inr, Bool, true, false, not, Option, none, some, List, [], ◌∷◌,
  ◌++◌, Text, text, ◌==◌, list_eq, nat_eq, option_eq, arith, Bool-cases, Result, ok, err,
  if◌then◌else◌, if_cases, ok-injective, option_beq_iff,
}
use multi_ai.Host.{HookResult}
use multi_ai.Quoting.{invoke}
use multi_ai.Deploy.{
  Remote, SshError, target, probe_path, hash_command, stop_args, DeployError, ExecOutput,
  hooks_result,
}
use multi_ai.Deploy.Detect.{
  parse_hash, posix_detect_command, parse_posix_detect, parse_windows_detect,
  windows_detect_command,
}
use multi_ai.Deploy.Asked.{Asks, hash_command-Asks}
use multi_ai.Deploy.Run.{
  Call, exec, swap_in, Answers, DeployOptions, Course, over_ssh, upload_probe, Texts, detect_remote,
  detect_windows, detected, shell_of,
}
use multi_ai.Deploy.Whole.{
  binary, Store, choose_target, read_binary, stop_old, differs, replace_probe, install, deploy_to,
  deploy,
}
use multi_ai.Deploy.Bundled.{bundled, binary-bundled}
use multi_ai.Deploy.Verified.{
  Calls, IsClosed, through, over_ssh_none, over_ssh_ok, call_none, Replaces, Replaces-IsClosed,
  upload-Replaces,
}

with_fact : {Q : List Call → Type 0} (F : Type 0) → IsClosed Q → IsClosed (λ cs. F × Q cs)
with_fact F k = record {
  left = λ c cs (f, q). (f, k.left c cs q);
  right = λ cs ds (f, q). (f, k.right cs ds q);
}

module _ (x : Texts) (w : Answers) (store : Store) (opts : DeployOptions) where
  -- The remote host that was detected, its target, and what is read of the bundled binary for it: in the target's
  -- directory, under the name that the probe has on the host.
  abbrev pub Found : Remote → Text → Text → Type 0
  Found r t bytes =
      ((detect_remote x w).1 ≡ ok r)
      × ((target r ≡ some t) × (store.read (bundled store t r.os) ≡ some bytes))

  -- The probe that the host had has not the hash of the bytes, as far as the host can tell.
  abbrev pub Outdated : Remote → Text → Type 0
  Outdated r bytes =
      Asks r (probe_path r opts.dir)
      × (out : ExecOutput) × ((w.old_hash (hash_command r.os r.shell (probe_path r opts.dir))
            ≡ ok out)
          × (parse_hash out.stdout ≢ some (x.sha256_hex bytes)))

  abbrev pub Justified : Text → List Call → Type 0
  Justified p cs =
      (r : Remote) × ((t : Text) × ((bytes : Text) × (Found r t bytes
            × (Outdated r bytes × Replaces x w r opts.dir bytes p cs))))

  Justified-IsClosed : (p : Text) → IsClosed (Justified p)
  Justified-IsClosed p = record {
    left = λ c cs (r, (t, (b, (f, (o, q))))).
        (r, (t, (b, (f, (o, (Replaces-IsClosed x w r opts.dir b p).left c cs q)))));
    right = λ cs ds (r, (t, (b, (f, (o, q))))).
        (r, (t, (b, (f, (o, (Replaces-IsClosed x w r opts.dir b p).right cs ds q)))));
  }

  stop_old_none :
      (P : Type 0) (p : Text) (r : Remote) (old : Option Text)
      → Calls (swap_in p) (stop_old x w store opts r old).0
      → P
  stop_old_none P p r none h = elim h [ ]
  stop_old_none P p r (some old) h =
      call_none P p (exec (invoke r.shell (probe_path r opts.dir) (stop_args opts.client)))
        (λ f. cc) h

  replace_lem :
      (r : Remote) (bytes : Text) (old : Option Text) (p : Text)
      → let c : Course Bool = replace_probe x w store opts r bytes old in
        Calls (swap_in p) c.0
        → (old ≢ some (x.sha256_hex bytes)) × Replaces x w r opts.dir bytes p c.0
  unfolding replace_probe
  replace_lem r bytes old p =
      let F : Type 0 = old ≢ some (x.sha256_hex bytes) in
      let Q : List Call → Type 0 = λ cs. F × Replaces x w r opts.dir bytes p cs in
      let k : IsClosed Q = with_fact F (Replaces-IsClosed x w r opts.dir bytes p) in
      let s : Call = swap_in p in
      if_cases {A = Course Bool} (λ c. Calls s c.0 → Q c.0) (differs x w store opts bytes old)
        (λ y.
          let n : F = λ q. ground (arith, y, option_beq_iff old (some (x.sha256_hex bytes)), q) in
          through Q s k (stop_old x w store opts r old) _
            (stop_old_none (Q (stop_old x w store opts r old).0) p r old)
            (λ _ _.
              through Q s k (upload_probe x w r opts.dir bytes) _
                (λ h. (n, upload-Replaces x w r opts.dir bytes p h)) (λ _ _ h. elim h [ ])))
        (λ _ h. elim h [ ])

  nothing : IsClosed (λ cs. ⊥)
  nothing = record { left = λ c cs q. q; right = λ cs ds q. q }

  install_none : (p : Text) (r : Remote) → Calls (swap_in p) (install x w store opts r).0 → ⊥
  unfolding install
  install_none p r =
      let c : Call = exec (invoke r.shell (probe_path r opts.dir) (text "install-hooks")) in
      if_cases {A = Course (List HookResult)} (λ c. Calls (swap_in p) c.0 → ⊥) opts.install_hooks
        (λ _.
          through (λ cs. ⊥) (swap_in p) nothing (over_ssh c w.hooks) _
            (over_ssh_none ⊥ p c w.hooks (λ f. cc)) (λ _ _ k. k))
        (λ _ k. k)

  deploy_to_lem :
      (r : Remote) (bytes p : Text)
      → let c = deploy_to x w store opts r bytes in
        Calls (swap_in p) c.0 → Outdated r bytes × Replaces x w r opts.dir bytes p c.0
  unfolding deploy_to
  deploy_to_lem r bytes p =
      let Q : List Call → Type 0 = λ cs. Outdated r bytes × Replaces x w r opts.dir bytes p cs in
      let k : IsClosed Q =
        with_fact (Outdated r bytes) (Replaces-IsClosed x w r opts.dir bytes p) in
      let s : Call = swap_in p in
      let command : Text = hash_command r.os r.shell (probe_path r opts.dir) in
      let asked : Course ExecOutput = over_ssh (exec command) (w.old_hash command) in
      through Q s k asked _
        (over_ssh_none (Q asked.0) p (exec command) (w.old_hash command) (λ f. cc))
        (λ out q.
          through Q s k (replace_probe x w store opts r bytes (parse_hash out.stdout)) _
            (λ h.
              let (n, f) = replace_lem r bytes (parse_hash out.stdout) p h in
              let at : Asks r (probe_path r opts.dir) =
                hash_command-Asks r (probe_path r opts.dir) in
              ((at, out, (over_ssh_ok (exec command) (w.old_hash command) q, n)), f))
            (λ _ _.
              through Q s k (install x w store opts r) _ (λ h. absurd (install_none p r h))
                (λ _ _ h. elim h [ ])))

  windows_none : (p : Text) → Calls (swap_in p) (detect_windows x w).0 → ⊥
  unfolding detect_windows
  windows_none p =
      let s : Call = swap_in p in
      through (λ cs. ⊥) s nothing (over_ssh (exec (text "echo %OS%")) w.os_variable) _
        (over_ssh_none ⊥ p (exec (text "echo %OS%")) w.os_variable (λ f. cc))
        (λ os _.
          through (λ cs. ⊥) s nothing ([], shell_of x w (multi_ai.Base.trim os.stdout)) _ (λ k. k)
            (λ shell _.
              through (λ cs. ⊥) s nothing
                (over_ssh (exec (windows_detect_command shell)) w.windows_detect) _
                (over_ssh_none ⊥ p (exec (windows_detect_command shell)) w.windows_detect (λ f. cc))
                (λ out _.
                  through (λ cs. ⊥) s nothing
                    ([], parse_windows_detect x.debug x.debug_list out.stdout) _ (λ k. k)
                    (λ _ _ k. k))))

  detected_none :
      (p : Text) (o : Option (multi_ai.Deploy.Os × (Text × Text)))
      → Calls (swap_in p) (detected x w o).0
      → ⊥
  detected_none p none h = windows_none p h
  detected_none p (some (os, (arch, home))) h = h

  detect_none : (p : Text) → Calls (swap_in p) (detect_remote x w).0 → ⊥
  unfolding detect_remote
  detect_none p =
      through (λ cs. ⊥) (swap_in p) nothing (over_ssh (exec posix_detect_command) w.posix_detect) _
        (over_ssh_none ⊥ p (exec posix_detect_command) w.posix_detect (λ f. cc))
        (λ out _.
          through (λ cs. ⊥) (swap_in p) nothing
            ([], parse_posix_detect x.debug x.debug_list out.stdout) _ (λ k. k)
            (λ found _. detected_none p found))

  choose_none :
      (p : Text) (r : Remote) (o : Option Text)
      → Calls (swap_in p) (choose_target x w store opts r o).0
      → ⊥
  choose_none p r none h = h
  choose_none p r (some t) h = h

  pub choose_ok :
      (r : Remote) (o : Option Text) (t : Text)
      → (choose_target x w store opts r o).1 ≡ ok t
      → o ≡ some t
  choose_ok r none t q = cc
  choose_ok r (some u) t q = ap some (ok-injective q)

  read_none :
      (p t : Text) (o : Option Text) → Calls (swap_in p) (read_binary x w store opts t o).0 → ⊥
  read_none p t none h = h
  read_none p t (some bytes) h = h

  -- The bytes that were read are of the bundled binary.
  pub bundled_read :
      (r : Remote) (t bytes : Text)
      → target r ≡ some t
      → store.read (binary store t) ≡ some bytes
      → store.read (bundled store t r.os) ≡ some bytes
  bundled_read r t bytes u q = ap store.read (sym (binary-bundled store r t u)) ∙ q

  pub read_ok :
      (t : Text) (o : Option Text) (bytes : Text)
      → (read_binary x w store opts t o).1 ≡ ok bytes
      → o ≡ some bytes
  read_ok t none bytes q = cc
  read_ok t (some s) bytes q = ap some (ok-injective q)

  -- Whatever a host answers, a deployment puts a file in place only as the probe in its directory, and only if
  -- the hash that the host computed of its probe is not that of the bundled binary for the detected host, or
  -- could not be told. Before that it wrote the binary to the upload file next to the probe, then asked for the
  -- hash of that file, and the answer was the hash of the binary. A POSIX shell reads the command that asks as
  -- the program that computes hashes and the path of the file.
  pub deploy-Justified :
      (p : Text)
      → Calls (swap_in p) (deploy x w store opts).0
      → Justified p (deploy x w store opts).0
  unfolding deploy
  deploy-Justified p =
      let Q : List Call → Type 0 = Justified p in
      let k : IsClosed Q = Justified-IsClosed p in
      let s : Call = swap_in p in
      through Q s k (detect_remote x w) _ (λ h. absurd (detect_none p h))
        (λ r d.
          through Q s k (choose_target x w store opts r (target r)) _
            (λ h. absurd (choose_none p r (target r) h))
            (λ t u.
              let o : Option Text = store.read (binary store t) in
              through Q s k (read_binary x w store opts t o) _ (λ h. absurd (read_none p t o h))
                (λ bytes v h.
                  let found : Found r t bytes =
                    let known : target r ≡ some t = choose_ok r (target r) t u in
                    (d, (known, bundled_read r t bytes known (read_ok t o bytes v))) in
                  (r, (t, (bytes, (found, deploy_to_lem r bytes p h)))))))
