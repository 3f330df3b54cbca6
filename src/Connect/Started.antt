-- ===== src/Connect/Started.antt =====
-- crates/mai-core/src/connect.rs: which probe is started on a host (`open_ssh`).
use multi_ai.Base.{
  ℕ, ◌≡◌, refl, ap, sym, subst, ◌∙◌, ◌⊎◌, inl, inr, Bool-cases, Option, List, [], ◌∷◌, ◌++◌, Text,
  text, Result, ok, err, if_cases, ok-injective,
}
use multi_ai.Host.{HookResult, OpenError, Opened}
use multi_ai.Quoting.{invoke}
use multi_ai.Deploy.{Remote, SshError, DeployError, probe_path, serve_args}
use multi_ai.Deploy.Run.{Call, DeployReport, DeployOptions, Texts}
use multi_ai.Deploy.Whole.{Store, deploy}
use multi_ai.Deploy.Verified.{place_of, Replaces}
use multi_ai.Deploy.Replacing.{Found, deploy-Justified}
use multi_ai.Deploy.Reported.{Placed, UpToDate, deploy_reported}
use multi_ai.Connect.Opening.{
  lock, calls, HostConfig, Connector, ConfigReader, Step, unlock, connect, run, start, Session,
  Opening, next_step, held, spec, over_session, over_deploy, options, run_hooks, prepare,
  start_serve, open_at, open_ssh,
}

-- A command line that starts a probe stands somewhere in the steps.
abbrev pub Starts : Text → List Step → Type 0
Starts cmd [] = ⊥
Starts cmd (s ∷ ss) = (s ≡ start cmd) ⊎ Starts cmd ss

Starts-append :
    (cmd : Text) (ss ts : List Step) → Starts cmd (ss ++ ts) → Starts cmd ss ⊎ Starts cmd ts
Starts-append cmd [] ts h = inr h
Starts-append cmd (s ∷ ss) ts (inl h) = inl (inl h)
Starts-append cmd (s ∷ ss) ts (inr h) = elim (Starts-append cmd ss ts h) [
  | inl a ↦ inl (inr a)
  | inr b ↦ inr b
]

Starts-next_step {ℓ κ} :
    {A : Type ℓ} {B : Type κ} (P : Type 0) (cmd : Text) (r : Opening A) (next : A → Opening B)
    → (Starts cmd r.0 → P)
    → ((a : A) → r.1 ≡ ok a → Starts cmd (next a).0 → P)
    → Starts cmd (next_step r next).0
    → P
Starts-next_step P cmd (ss, err x) next f g h = f h
Starts-next_step P cmd (ss, ok a) next f g h = elim (Starts-append cmd ss (next a).0 h) [
  | inl s ↦ f s
  | inr s ↦ g a refl s
]

lock_starts_none : {id cmd : Text} → lock id ≡ start cmd → ⊥
lock_starts_none h = cc

unlock_starts_none : {id cmd : Text} → unlock id ≡ start cmd → ⊥
unlock_starts_none h = cc

Starts-held {ℓ} :
    {A : Type ℓ} (P : Type 0) (cmd id : Text) (r : Opening A)
    → (Starts cmd r.0 → P)
    → Starts cmd (held id r).0
    → P
Starts-held P cmd id (ss, r) f (inl h) = absurd (lock_starts_none h)
Starts-held P cmd id (ss, r) f (inr h) = elim (Starts-append cmd ss (unlock id ∷ []) h) [
  | inl s ↦ f s
  | inr (inl s) ↦ absurd (unlock_starts_none s)
  | inr (inr s) ↦ elim s [ ]
]

next_step_ok {ℓ κ μ} :
    {A : Type ℓ} {B : Type κ} {b : B} (P : Type μ) (r : Opening A) (next : A → Opening B)
    → ((a : A) → r.1 ≡ ok a → (next a).1 ≡ ok b → P)
    → (next_step r next).1 ≡ ok b
    → P
next_step_ok P (ss, err x) next f h = cc
next_step_ok P (ss, ok a) next f h = f a refl h

module _ {Config HostSpec : Type 0} (reader : ConfigReader Config HostSpec) (x : Texts)
    (store : Store) (debug : Option ℕ → Text) (c : Connector) (w : Session HostSpec) where
  abbrev pub deployed : List Call × Result DeployReport DeployError
  deployed = deploy x w.answers store (options reader x store debug c w)

  -- The host computed the hash of the bytes for the probe that it has: it had it already; or the probe was replaced,
  -- without an error, by the upload that has it.
  abbrev pub Verified : Remote → Text → Type 0
  Verified r bytes =
      UpToDate x w.answers store (options reader x store debug c w) r bytes
      ⊎ (Placed x w.answers (place_of r c.dir) deployed.0
          × Replaces x w.answers r c.dir bytes (place_of r c.dir) deployed.0)

  -- The command line starts the probe of the detected host, whose bytes are the bundled binary for that host.
  abbrev pub Trusted : HostConfig → Text → Type 0
  Trusted host cmd =
      (r : Remote) × ((t : Text) × ((bytes : Text) × (Found x w.answers store
              (options reader x store debug c w) r t bytes
            × ((cmd ≡ invoke r.shell (probe_path r c.dir) (serve_args r c.client host.zellij))
                × Verified r bytes))))

  -- The host, its target and its binary are what they are.
  same_found :
      (r : Remote) (t bytes : Text) (r' : Remote) (t' bytes' : Text)
      → let o : DeployOptions = options reader x store debug c w in
        Found x w.answers store o r t bytes
        → Found x w.answers store o r' t' bytes'
        → (r ≡ r') × (bytes ≡ bytes')
  same_found r t bytes r' t' bytes' (d, (u, b)) (d', (u', b')) =
      let e : r ≡ r' = ok-injective (sym d ∙ d') in
      let f : t ≡ t' = cc (e, u, u') in (e, cc (f, b, b'))

  trust :
      (host : HostConfig) (report : DeployReport)
      → deployed.1 ≡ ok report
      → Trusted host
          (invoke report.remote.shell report.path (serve_args report.remote c.client host.zellij))
  trust host report h =
      let o : DeployOptions = options reader x store debug c w in
      let r : Remote = report.remote in
      let (t, (bytes, (found, (path, (up, same))))) =
        deploy_reported x w.answers store o report h in
      (
        r,
        (
          t,
          (
            bytes,
            (
              found,
              (
                ap (λ z. invoke r.shell z (serve_args r c.client host.zellij)) path,
                elim (Bool-cases report.uploaded) [
                  | inl q ↦
                      let placed : Placed x w.answers (place_of r c.dir) deployed.0 = up q in
                      let (r', (t', (bytes', (found', (_, replaces))))) =
                        deploy-Justified x w.answers store o (place_of r c.dir) placed.0 in
                      let (e, b) = same_found r' t' bytes' r t bytes found' found in
                      inr (
                        placed,
                        subst
                            (λ z. Replaces x w.answers z c.dir bytes (place_of r c.dir) deployed.0)
                            e
                            (subst
                              (λ z. Replaces x w.answers r' c.dir z (place_of r c.dir) deployed.0) b
                              replaces),
                      )
                  | inr q ↦ inl (same q)
                ],
              ),
            ),
          ),
        ),
      )

  session_none {ℓ} :
      {A : Type ℓ} (cmd : Text) (t : Step) (notes : List Text) (r : Result A SshError)
      → (t ≡ start cmd → ⊥)
      → Starts cmd (over_session reader x store debug c w t notes r).0
      → ⊥
  session_none cmd t notes (ok a) n (inl h) = n h
  session_none cmd t notes (ok a) n (inr h) = h
  session_none cmd t notes (err e) n (inl h) = n h
  session_none cmd t notes (err e) n (inr h) = h

  calls_start_none : {cs : List Call} {cmd : Text} → calls cs ≡ start cmd → ⊥
  calls_start_none h = cc

  deploy_none {ℓ} :
      {A : Type ℓ} (cmd : Text) (notes : List Text) (r : List Call × Result A DeployError)
      → Starts cmd (over_deploy reader x store debug c w notes r).0
      → ⊥
  deploy_none cmd notes (cs, ok a) (inl h) = calls_start_none h
  deploy_none cmd notes (cs, ok a) (inr h) = h
  deploy_none cmd notes (cs, err e) (inl h) = calls_start_none h
  deploy_none cmd notes (cs, err e) (inr h) = h

  over_deploy_ok {ℓ} :
      {A : Type ℓ} (notes : List Text) (r : List Call × Result A DeployError) (a : A)
      → (over_deploy reader x store debug c w notes r).1 ≡ ok a
      → r.1 ≡ ok a
  over_deploy_ok notes (cs, ok b) a h = cc h
  over_deploy_ok notes (cs, err e) a h = cc

  run_hooks_none :
      (cmd : Text) (report : DeployReport) (notes : List Text)
      → Starts cmd (run_hooks reader x store debug c w report notes).0
      → ⊥
  unfolding run_hooks
  run_hooks_none cmd report notes =
      if_cases {A = Opening (Result (List HookResult) Text)} (λ r. Starts cmd r.0 → ⊥)
        c.install_hooks
        (λ _.
          let t : Step = run (invoke report.remote.shell report.path (text "install-hooks")) in
          Starts-next_step ⊥ cmd (over_session reader x store debug c w t notes w.hooks) _
            (session_none cmd t notes w.hooks (λ f. cc)) (λ _ _ k. k))
        (λ _ k. k)

  prepare_none :
      (cmd : Text) (sp : HostSpec) (warnings : List Text)
      → Starts cmd (prepare reader x store debug c w sp warnings).0
      → ⊥
  unfolding prepare
  prepare_none cmd sp warnings =
      Starts-next_step ⊥ cmd (over_session reader x store debug c w connect warnings (w.connect sp))
        _ (session_none cmd connect warnings (w.connect sp) (λ f. cc))
        (λ own _.
          let notes : List Text = warnings ++ own in
          Starts-next_step ⊥ cmd (over_deploy reader x store debug c w notes deployed) _
            (deploy_none cmd notes deployed)
            (λ report _.
              Starts-next_step ⊥ cmd (run_hooks reader x store debug c w report notes) _
                (run_hooks_none cmd report notes) (λ _ _ k. k)))

  -- What was prepared is of the deployment's report.
  prepare_report :
      (sp : HostSpec) (warnings : List Text) (p : DeployReport × Opened)
      → (prepare reader x store debug c w sp warnings).1 ≡ ok p
      → deployed.1 ≡ ok p.0
  unfolding prepare
  prepare_report sp warnings p =
      let P : Type 0 = deployed.1 ≡ ok p.0 in
      next_step_ok P (over_session reader x store debug c w connect warnings (w.connect sp)) _
        (λ own _.
          let notes : List Text = warnings ++ own in
          next_step_ok P (over_deploy reader x store debug c w notes deployed) _ (λ report q.
            next_step_ok P (run_hooks reader x store debug c w report notes) _ (λ hooks _ k.
              over_deploy_ok notes deployed report q
              ∙ ap (λ z. ok z) (ap (λ z. z.0) (ok-injective k)))))

  session_start {ℓ} :
      {A : Type ℓ} (line cmd : Text) (notes : List Text) (r : Result A SshError)
      → Starts cmd (over_session reader x store debug c w (start line) notes r).0
      → line ≡ cmd
  session_start line cmd notes (ok a) (inl h) = cc h
  session_start line cmd notes (ok a) (inr h) = elim h [ ]
  session_start line cmd notes (err e) (inl h) = cc h
  session_start line cmd notes (err e) (inr h) = elim h [ ]

  -- The only command line that starts a probe.
  started_cmd :
      (host : HostConfig) (cmd : Text) (report : DeployReport) (opened : Opened)
      → Starts cmd (start_serve reader x store debug c w host (report, opened)).0
      → invoke report.remote.shell report.path (serve_args report.remote c.client host.zellij) ≡ cmd
  unfolding start_serve
  started_cmd host cmd report opened =
      let line : Text =
        invoke report.remote.shell report.path (serve_args report.remote c.client host.zellij) in
      Starts-next_step (line ≡ cmd) cmd
        (over_session reader x store debug c w (start line) opened.notes w.serve) _
        (session_start line cmd opened.notes w.serve) (λ _ _ k. elim k [ ])

  open_at-Trusted :
      (host : HostConfig) (cmd : Text) (o : Result (HostSpec × List Text) OpenError)
      → Starts cmd (open_at reader x store debug c w host o).0
      → Trusted host cmd
  open_at-Trusted host cmd (err e) h = elim h [ ]
  open_at-Trusted host cmd (ok (sp, warnings)) h =
      let P : Type 0 = Trusted host cmd in
      let r = prepare reader x store debug c w sp warnings in
      Starts-next_step P cmd (held host.id r) (start_serve reader x store debug c w host)
        (Starts-held P cmd host.id r (λ k. absurd (prepare_none cmd sp warnings k)))
        (λ p q k.
          subst (Trusted host) (started_cmd host cmd p.0 p.1 k)
            (trust host p.0 (prepare_report sp warnings p q)))
        h

  -- Whatever a host answers, the app starts a probe there only by the command line of the probe in its directory,
  -- and only if the hash that the host has computed of that probe is the hash of the bundled binary for the
  -- detected host: of the probe that it had; or of the upload file, to which the binary was written before,
  -- and which was put in the probe's place after that without an error.
  pub open_ssh-Trusted :
      (host : HostConfig) (target cmd : Text)
      → Starts cmd (open_ssh reader x store debug c w host target).0
      → Trusted host cmd
  unfolding open_ssh
  open_ssh-Trusted host target cmd h =
      open_at-Trusted host cmd (spec reader x store debug c w target) h
