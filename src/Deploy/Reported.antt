-- ===== src/Deploy/Reported.antt =====
-- crates/mai-core/src/deploy.rs: what a deployment reports of the upload is what it did (`deploy`).
use multi_ai.Base.{
  split_char, subst, sym, ◌≡◌, refl, ap, ◌∙◌, inl, inr, Bool, true, false, Option, none, some, List,
  [], ◌++◌, Text, text, ◌==◌, list_eq, nat_eq, option_eq, arith, ok, err, if_cases, ok-injective,
  option_beq_iff,
}
use multi_ai.Host.{HookResult}
use multi_ai.Deploy.{Remote, target, probe_path, hash_command, ExecOutput}
use multi_ai.Deploy.Detect.{parse_hash}
use multi_ai.Deploy.Asked.{Asks, hash_command-Asks}
use multi_ai.Deploy.Run.{
  Call, exec, open_sftp, create, write_all, shutdown, swap_in, Answers, DeployOptions, DeployReport,
  Course, and_then, over_ssh, over_sftp, make_dirs, make_executable, swapped, check_hash, verify,
  upload_probe, Texts, detect_remote,
}
use multi_ai.Deploy.Whole.{
  binary, Store, choose_target, read_binary, stop_old, differs, replace_probe, install, deploy_to,
  deploy,
}
use multi_ai.Deploy.Verified.{Calls, Calls_sooner, IsClosed, left_all, place_of, over_ssh_ok}
use multi_ai.Deploy.Replacing.{Found, choose_ok, bundled_read, read_ok}

-- What holds of the calls of a course that succeeds, if it holds of those of its rest or of its first part.
later {ℓ κ} :
    {A : Type ℓ} {B : Type κ} {b : B} (Q : List Call → Type 0) (k : IsClosed Q) (r : Course A)
    (next : A → Course B)
    → ((a : A) → r.1 ≡ ok a → (next a).1 ≡ ok b → Q (next a).0)
    → (and_then r next).1 ≡ ok b
    → Q (and_then r next).0
later Q k (cs, err x) next f h = cc
later Q k (cs, ok a) next f h = left_all k cs (next a).0 (f a refl h)

sooner {ℓ κ} :
    {A : Type ℓ} {B : Type κ} {b : B} (Q : List Call → Type 0) (k : IsClosed Q) (r : Course A)
    (next : A → Course B)
    → ((a : A) → r.1 ≡ ok a → (next a).1 ≡ ok b → Q r.0)
    → (and_then r next).1 ≡ ok b
    → Q (and_then r next).0
sooner Q k (cs, err x) next f h = cc
sooner Q k (cs, ok a) next f h = k.right cs (next a).0 (f a refl h)

and_then_ok {ℓ κ μ} :
    {A : Type ℓ} {B : Type κ} {b : B} (P : Type μ) (r : Course A) (next : A → Course B)
    → ((a : A) → r.1 ≡ ok a → (next a).1 ≡ ok b → P)
    → (and_then r next).1 ≡ ok b
    → P
and_then_ok P (cs, err x) next f h = cc
and_then_ok P (cs, ok a) next f h = f a refl h

module _ (x : Texts) (w : Answers) where
  -- A file was put in place, without an error.
  abbrev pub Placed : Text → List Call → Type 0
  Placed p cs = Calls (swap_in p) cs × (w.swap p ≡ none)

  Placed-IsClosed : (p : Text) → IsClosed (Placed p)
  Placed-IsClosed p = record {
    left = λ c cs (h, q). (inr h, q);
    right = λ cs ds (h, q). (Calls_sooner (swap_in p) cs ds h, q);
  }

  swapped-Placed :
      (p : Text) (o : Option Text) (u : Unit {0})
      → w.swap p ≡ o
      → (swapped x w p o).1 ≡ ok u
      → Placed p (swapped x w p o).0
  swapped-Placed p none u q h = (inl refl, q)
  swapped-Placed p (some e) u q h = cc

  check_hash-Placed :
      (bytes p tmp tmp_abs : Text) (out : ExecOutput) (o : Option Text) (u : Unit {0})
      → (check_hash x w bytes p tmp tmp_abs out o).1 ≡ ok u
      → Placed p (check_hash x w bytes p tmp tmp_abs out o).0
  check_hash-Placed bytes p tmp tmp_abs out none u h = cc
  check_hash-Placed bytes p tmp tmp_abs out (some written) u h =
      if_cases {A = Course (Unit {0})} (λ r. r.1 ≡ ok u → Placed p r.0)
        (written == x.sha256_hex bytes) (λ _. swapped-Placed p (w.swap p) u refl) (λ _ k. cc) h

  verify-Placed :
      (r : Remote) (dir bytes p tmp : Text) (u : Unit {0})
      → (verify x w r dir bytes p tmp).1 ≡ ok u
      → Placed p (verify x w r dir bytes p tmp).0
  unfolding verify
  verify-Placed r dir bytes p tmp u =
      let tmp_abs : Text = probe_path r dir ++ text ".upload" in
      let command : Text = hash_command r.os r.shell tmp_abs in
      later (Placed p) (Placed-IsClosed p) (over_ssh (exec command) (w.new_hash command)) _
        (λ out _. check_hash-Placed bytes p tmp tmp_abs out (parse_hash out.stdout) u)

  upload-Placed :
      (r : Remote) (dir bytes : Text) (u : Unit {0})
      → (upload_probe x w r dir bytes).1 ≡ ok u
      → Placed (place_of r dir) (upload_probe x w r dir bytes).0
  unfolding upload_probe
  upload-Placed r dir bytes u =
      let p : Text = place_of r dir in
      let tmp : Text = p ++ text ".upload" in
      let Q : List Call → Type 0 = Placed p in
      let k : IsClosed Q = Placed-IsClosed p in
      later Q k (over_ssh open_sftp w.sftp) _ (λ _ _.
        later Q k (make_dirs x w [] (split_char 47 (dir ++ text "/bin"))) _ (λ _ _.
          later Q k (over_sftp x w (create tmp) w.create) _ (λ _ _.
            later Q k (over_sftp x w (write_all tmp bytes) w.write_all) _ (λ _ _.
              later Q k (over_sftp x w (shutdown tmp) w.shutdown) _ (λ _ _.
                later Q k (make_executable x w r.os tmp) _
                  (λ _ _. verify-Placed r dir bytes p tmp u))))))

module _ (x : Texts) (w : Answers) (store : Store) (opts : DeployOptions) where
  -- The host's probe had the hash of the bytes already.
  abbrev pub UpToDate : Remote → Text → Type 0
  UpToDate r bytes =
      Asks r (probe_path r opts.dir)
      × (out : ExecOutput) × ((w.old_hash (hash_command r.os r.shell (probe_path r opts.dir))
            ≡ ok out)
          × (parse_hash out.stdout ≡ some (x.sha256_hex bytes)))

  -- The report names the detected host and where its probe is, and its `uploaded` says what was done for the bundled
  -- binary of that host.
  abbrev pub IsTrue : DeployReport → List Call → Type 0
  IsTrue rep cs =
      (t : Text) × ((bytes : Text) × (Found x w store opts rep.remote t bytes
          × ((rep.path ≡ probe_path rep.remote opts.dir)
              × ((rep.uploaded ≡ true → Placed x w (place_of rep.remote opts.dir) cs)
                  × (rep.uploaded ≡ false → UpToDate rep.remote bytes)))))

  replace-Placed :
      (r : Remote) (bytes : Text) (old : Option Text)
      → (replace_probe x w store opts r bytes old).1 ≡ ok true
      → Placed x w (place_of r opts.dir) (replace_probe x w store opts r bytes old).0
  unfolding replace_probe
  replace-Placed r bytes old =
      let Q : List Call → Type 0 = Placed x w (place_of r opts.dir) in
      let k : IsClosed Q = Placed-IsClosed x w (place_of r opts.dir) in
      if_cases {A = Course Bool} (λ c. c.1 ≡ ok true → Q c.0) (differs x w store opts bytes old)
        (λ _. later Q k (stop_old x w store opts r old) _ (λ _ _.
          sooner Q k (upload_probe x w r opts.dir bytes) _
            (λ u q _. upload-Placed x w r opts.dir bytes u q)))
        (λ _ k. cc)

  replace_same :
      (r : Remote) (bytes : Text) (old : Option Text)
      → (replace_probe x w store opts r bytes old).1 ≡ ok false
      → old ≡ some (x.sha256_hex bytes)
  unfolding replace_probe
  replace_same r bytes old =
      let P : Type 0 = old ≡ some (x.sha256_hex bytes) in
      if_cases {A = Course Bool} (λ c. c.1 ≡ ok false → P) (differs x w store opts bytes old)
        (λ _.
          and_then_ok P (stop_old x w store opts r old) _
            (λ _ _. and_then_ok P (upload_probe x w r opts.dir bytes) _ (λ _ _ k. cc)))
        (λ n _. (option_beq_iff old (some (x.sha256_hex bytes))).0 (ground (arith, n)))

  abbrev pub report_of : Remote → Bool → List HookResult → DeployReport
  report_of r b hooks = record {
    remote = r;
    path = probe_path r opts.dir;
    uploaded = b;
    hooks = hooks;
  }

  -- What is reported, but for the hooks.
  installed_report :
      (r : Remote) (b : Bool) (rep : DeployReport)
      → (and_then (install x w store opts r) (λ hooks. ([], ok (report_of r b hooks)))).1 ≡ ok rep
      → (b ≡ rep.uploaded) × ((r ≡ rep.remote) × (probe_path r opts.dir ≡ rep.path))
  installed_report r b rep =
      let P : Type 0 =
        (b ≡ rep.uploaded) × ((r ≡ rep.remote) × (probe_path r opts.dir ≡ rep.path)) in
      and_then_ok P (install x w store opts r) _ (λ hooks _ k.
        let same : report_of r b hooks ≡ rep = ok-injective k in
        (ap (λ z. z.uploaded) same, (ap (λ z. z.remote) same, ap (λ z. z.path) same)))

  deploy_to-Placed :
      (r : Remote) (bytes : Text) (rep : DeployReport)
      → rep.uploaded ≡ true
      → (deploy_to x w store opts r bytes).1 ≡ ok rep
      → Placed x w (place_of r opts.dir) (deploy_to x w store opts r bytes).0
  unfolding deploy_to
  deploy_to-Placed r bytes rep up =
      let Q : List Call → Type 0 = Placed x w (place_of r opts.dir) in
      let k : IsClosed Q = Placed-IsClosed x w (place_of r opts.dir) in
      let command : Text = hash_command r.os r.shell (probe_path r opts.dir) in
      later Q k (over_ssh (exec command) (w.old_hash command)) _ (λ out _.
        sooner Q k (replace_probe x w store opts r bytes (parse_hash out.stdout)) _ (λ b q h.
          replace-Placed r bytes (parse_hash out.stdout)
            (q ∙ ap ok ((installed_report r b rep h).0 ∙ up))))

  deploy_to-UpToDate :
      (r : Remote) (bytes : Text) (rep : DeployReport)
      → rep.uploaded ≡ false
      → (deploy_to x w store opts r bytes).1 ≡ ok rep
      → UpToDate r bytes
  unfolding deploy_to
  deploy_to-UpToDate r bytes rep up =
      let P : Type 0 = UpToDate r bytes in
      let command : Text = hash_command r.os r.shell (probe_path r opts.dir) in
      and_then_ok P (over_ssh (exec command) (w.old_hash command)) _ (λ out e.
        and_then_ok P (replace_probe x w store opts r bytes (parse_hash out.stdout)) _ (λ b q k. (
          hash_command-Asks r (probe_path r opts.dir),
          out,
          (
            over_ssh_ok (exec command) (w.old_hash command) e,
            replace_same r bytes (parse_hash out.stdout)
                (q ∙ ap ok ((installed_report r b rep k).0 ∙ up)),
          ),
        )))

  deploy_to_names :
      (r : Remote) (bytes : Text) (rep : DeployReport)
      → (deploy_to x w store opts r bytes).1 ≡ ok rep
      → (r ≡ rep.remote) × (probe_path r opts.dir ≡ rep.path)
  unfolding deploy_to
  deploy_to_names r bytes rep =
      let P : Type 0 = (r ≡ rep.remote) × (probe_path r opts.dir ≡ rep.path) in
      let command : Text = hash_command r.os r.shell (probe_path r opts.dir) in
      and_then_ok P (over_ssh (exec command) (w.old_hash command)) _ (λ out e.
        and_then_ok P (replace_probe x w store opts r bytes (parse_hash out.stdout)) _
          (λ b q k. (installed_report r b rep k).1))

  IsTrue-IsClosed : (rep : DeployReport) → IsClosed (IsTrue rep)
  IsTrue-IsClosed rep = record {
    left = λ c cs (t, (b, (f, (p, (up, kept))))). (
      t,
      (
        b,
        (
          f,
          (p, (λ y. (Placed-IsClosed x w (place_of rep.remote opts.dir)).left c cs (up y), kept)),
        ),
      ),
    );
    right = λ cs ds (t, (b, (f, (p, (up, kept))))). (
      t,
      (
        b,
        (
          f,
          (p, (λ y. (Placed-IsClosed x w (place_of rep.remote opts.dir)).right cs ds (up y), kept)),
        ),
      ),
    );
  }

  deploy_to-IsTrue :
      (r : Remote) (t bytes : Text) (rep : DeployReport)
      → Found x w store opts r t bytes
      → (deploy_to x w store opts r bytes).1 ≡ ok rep
      → IsTrue rep (deploy_to x w store opts r bytes).0
  deploy_to-IsTrue r t bytes rep found h =
      let cs : List Call = (deploy_to x w store opts r bytes).0 in
      let (same, path) = deploy_to_names r bytes rep h in
      (
        t,
        (
          bytes,
          (
            subst (λ z. Found x w store opts z t bytes) same found,
            (
              sym path ∙ ap (λ z. probe_path z opts.dir) same,
              (
                λ up.
                    subst (λ z. Placed x w (place_of z opts.dir) cs) same
                      (deploy_to-Placed r bytes rep up h),
                λ n. subst (λ z. UpToDate z bytes) same (deploy_to-UpToDate r bytes rep n h),
              ),
            ),
          ),
        ),
      )

  -- A deployment that succeeds reports the detected host and the path of its probe; it reports an upload only if it
  -- put the uploaded file in the probe's place without an error, and none only if the hash that the host
  -- computed of its probe was already that of the bundled binary for the host.
  pub deploy_reported :
      (rep : DeployReport)
      → (deploy x w store opts).1 ≡ ok rep
      → IsTrue rep (deploy x w store opts).0
  unfolding deploy
  deploy_reported rep =
      let Q : List Call → Type 0 = IsTrue rep in
      let k : IsClosed Q = IsTrue-IsClosed rep in
      later Q k (detect_remote x w) _ (λ r d.
        later Q k (choose_target x w store opts r (target r)) _ (λ t u.
          let o : Option Text = store.read (binary store t) in
          later Q k (read_binary x w store opts t o) _ (λ bytes v. deploy_to-IsTrue r t bytes rep (
            d,
            (
              choose_ok x w store opts r (target r) t u,
              bundled_read x w store opts r t bytes (choose_ok x w store opts r (target r) t u)
                  (read_ok x w store opts t o bytes v),
            ),
          ))))
