-- ===== src/Connect/Retries.antt =====
-- crates/mai-core/src/connect.rs: which failures of a connection are retried (`open_ssh`).
use multi_ai.Base.{
  ℕ, ◌≡◌, refl, ap, ◌⊎◌, inl, inr, Option, none, some, List, [], ◌∷◌, ◌++◌, Text, text, Result, ok,
  err, if_cases,
}
use multi_ai.Host.{HookResult, OpenError, retry, needs_user, Opened}
use multi_ai.Quoting.{invoke}
use multi_ai.Deploy.{SshError, DeployError, serve_args}
use multi_ai.Deploy.Run.{DeployReport, Texts}
use multi_ai.Deploy.Whole.{Store, deploy}
use multi_ai.Connect.{noted, with_notes, ssh_open_error, deploy_open_error}
use multi_ai.Connect.Opening.{
  HostConfig, ConfigFile, Connector, ConfigReader, Step, connect, run, start, Session, Opening,
  next_step, held, text_of, config_text, resolved, parsed, spec_from, spec, over_session,
  over_deploy, options, run_hooks, prepare, start_serve, open_at, open_ssh,
}

-- A connection or a channel that failed.
abbrev pub Transient : SshError → Type 0
Transient (SshError.connect m) = Unit
Transient (SshError.channel m) = Unit
Transient _ = ⊥

noted_retry :
    (e : OpenError) (notes : List Text) (m : Text)
    → noted notes e ≡ retry m
    → (n : Text) × (e ≡ retry n)
noted_retry (retry n) notes m h = (n, refl)
noted_retry (needs_user p) notes m h = cc

with_notes_retry :
    (e : OpenError) (notes : List Text) (m : Text)
    → with_notes e notes ≡ retry m
    → (n : Text) × (e ≡ retry n)
unfolding with_notes
with_notes_retry e [] m h = (m, h)
with_notes_retry e (n ∷ ns) m h = noted_retry e (n ∷ ns) m h

ssh_open_error_retry : (s : SshError) (m : Text) → ssh_open_error s ≡ retry m → Transient s
unfolding ssh_open_error
ssh_open_error_retry (SshError.connect n) m h = tt
ssh_open_error_retry (SshError.channel n) m h = tt
ssh_open_error_retry (SshError.auth n) m h = cc
ssh_open_error_retry (SshError.host_key_rejected host port f) m h = cc
ssh_open_error_retry (SshError.host_key_changed host port f l) m h = cc
ssh_open_error_retry (SshError.host_key_revoked host port f l) m h = cc

deploy_open_error_retry :
    (debug : Option ℕ → Text) (d : DeployError) (m : Text)
    → deploy_open_error debug d ≡ retry m
    → (s : SshError) × (d ≡ DeployError.ssh s) × Transient s
unfolding deploy_open_error
deploy_open_error_retry debug (DeployError.ssh s) m h = (s, refl, ssh_open_error_retry s m h)
deploy_open_error_retry debug (DeployError.detect n) m h = cc
deploy_open_error_retry debug (DeployError.no_binary t p) m h = cc
deploy_open_error_retry debug (DeployError.upload n) m h = cc
deploy_open_error_retry debug (DeployError.hooks s n) m h = cc

pub next_step_err {ℓ κ μ} :
    {A : Type ℓ} {B : Type κ} {e : OpenError} (P : Type μ) (r : Opening A) (next : A → Opening B)
    → (r.1 ≡ err e → P)
    → ((a : A) → r.1 ≡ ok a → (next a).1 ≡ err e → P)
    → (next_step r next).1 ≡ err e
    → P
next_step_err P (steps, err x) next f g h = f (cc h)
next_step_err P (steps, ok a) next f g h = g a refl h

module _ {Config HostSpec : Type 0} (reader : ConfigReader Config HostSpec) (x : Texts)
    (store : Store) (debug : Option ℕ → Text) (c : Connector) (w : Session HostSpec) where
  -- Where an SSH failure comes from.
  abbrev pub Raised : SshError → Type 0
  Raised s =
      ((sp : HostSpec) × (w.connect sp ≡ err s))
      ⊎ (((deploy x w.answers store (options reader x store debug c w)).1 ≡ err (DeployError.ssh s))
          ⊎ ((w.hooks ≡ err s) ⊎ (w.serve ≡ err s)))

  abbrev pub Lost : Type 0
  Lost = (s : SshError) × (Transient s × Raised s)

  session_retry {ℓ} :
      {A : Type ℓ} (t : Step) (notes : List Text) (r : Result A SshError) (m : Text)
      → ((s : SshError) → r ≡ err s → Raised s)
      → (over_session reader x store debug c w t notes r).1 ≡ err (retry m)
      → Lost
  session_retry t notes (ok a) m f h = cc
  session_retry t notes (err s) m f h =
      let (n, q) = with_notes_retry (ssh_open_error s) notes m (cc h) in
      (s, (ssh_open_error_retry s n q, f s refl))

  deploy_retry {ℓ} :
      {A : Type ℓ} (notes : List Text) (r : List multi_ai.Deploy.Run.Call × Result A DeployError)
      (m : Text)
      → ((s : SshError) → r.1 ≡ err (DeployError.ssh s) → Raised s)
      → (over_deploy reader x store debug c w notes r).1 ≡ err (retry m)
      → Lost
  deploy_retry notes (cs, ok a) m f h = cc
  deploy_retry notes (cs, err d) m f h =
      let (n, q) = with_notes_retry (deploy_open_error debug d) notes m (cc h) in
      let (s, p, y) = deploy_open_error_retry debug d n q in (s, (y, f s (ap err p)))

  run_hooks_retry :
      (report : DeployReport) (notes : List Text) (m : Text)
      → (run_hooks reader x store debug c w report notes).1 ≡ err (retry m)
      → Lost
  unfolding run_hooks
  run_hooks_retry report notes m =
      if_cases {A = Opening (Result (List HookResult) Text)} (λ r. r.1 ≡ err (retry m) → Lost)
        c.install_hooks
        (λ _.
          next_step_err Lost
            (over_session reader x store debug c w
              (run (invoke report.remote.shell report.path (text "install-hooks"))) notes w.hooks)
            _
            (session_retry (run (invoke report.remote.shell report.path (text "install-hooks")))
              notes w.hooks m (λ s q. inr (inr (inl q))))
            (λ _ _ k. cc))
        (λ _ k. cc)

  prepare_retry :
      (sp : HostSpec) (warnings : List Text) (m : Text)
      → (prepare reader x store debug c w sp warnings).1 ≡ err (retry m)
      → Lost
  unfolding prepare
  prepare_retry sp warnings m =
      next_step_err Lost (over_session reader x store debug c w connect warnings (w.connect sp)) _
        (session_retry connect warnings (w.connect sp) m (λ s q. inl (sp, q)))
        (λ own _.
          let notes : List Text = warnings ++ own in
          let d = deploy x w.answers store (options reader x store debug c w) in
          next_step_err Lost (over_deploy reader x store debug c w notes d) _
            (deploy_retry notes d m (λ s q. inr (inl q)))
            (λ report _.
              next_step_err Lost (run_hooks reader x store debug c w report notes) _
                (run_hooks_retry report notes m) (λ _ _ k. cc)))

  start_retry :
      (host : HostConfig) (p : DeployReport × Opened) (m : Text)
      → (start_serve reader x store debug c w host p).1 ≡ err (retry m)
      → Lost
  unfolding start_serve
  start_retry host (report, opened) m =
      let args : Text = serve_args report.remote c.client host.zellij in
      let t : Step = start (invoke report.remote.shell report.path args) in
      next_step_err Lost (over_session reader x store debug c w t opened.notes w.serve) _
        (session_retry t opened.notes w.serve m (λ s q. inr (inr (inr q)))) (λ _ _ k. cc)

  text_of_never :
      (f : ConfigFile) (r : Result (Option Text) Text) (m : Text)
      → text_of reader x store debug c w f r ≡ err (retry m)
      → ⊥
  text_of_never f (ok none) m h = cc
  text_of_never f (ok (some t)) m h = cc
  text_of_never f (err e) m h = cc

  config_text_never :
      (o : Option ConfigFile) (m : Text)
      → config_text reader x store debug c w o ≡ err (retry m)
      → ⊥
  config_text_never none m h = cc
  config_text_never (some f) m h = text_of_never f f.contents m h

  resolved_never :
      (t : Text) (cfg : Config) (r : Result HostSpec Text) (m : Text)
      → resolved reader x store debug c w t cfg r ≡ err (retry m)
      → ⊥
  resolved_never t cfg (err e) m h = cc
  resolved_never t cfg (ok sp) m h = cc

  parsed_never :
      (target t : Text) (r : Result Config Text) (m : Text)
      → parsed reader x store debug c w target t r ≡ err (retry m)
      → ⊥
  parsed_never target t (err e) m h = cc
  parsed_never target t (ok cfg) m h =
      resolved_never t cfg (reader.resolve cfg target c.default_user c.home) m h

  spec_from_never :
      (target : Text) (r : Result Text OpenError) (m : Text)
      → (r ≡ err (retry m) → ⊥)
      → spec_from reader x store debug c w target r ≡ err (retry m)
      → ⊥
  spec_from_never target (err e) m n h = n (cc h)
  spec_from_never target (ok t) m n h = parsed_never target t (reader.parse_config t) m h

  config_never :
      (target : Text) (m : Text) → spec reader x store debug c w target ≡ err (retry m) → ⊥
  unfolding spec
  config_never target m h =
      spec_from_never target (config_text reader x store debug c w c.ssh_config) m
        (config_text_never c.ssh_config m) h

  open_at_retry :
      (host : HostConfig) (o : Result (HostSpec × List Text) OpenError) (m : Text)
      → (o ≡ err (retry m) → ⊥)
      → (open_at reader x store debug c w host o).1 ≡ err (retry m)
      → Lost
  open_at_retry host (err e) m n h = elim (n (cc h)) [ ]
  open_at_retry host (ok (sp, warnings)) m n h =
      next_step_err Lost (held host.id (prepare reader x store debug c w sp warnings)) _
        (prepare_retry sp warnings m) (λ p _. start_retry host p m) h

  -- Opening a connection is left to be retried only if some call over SSH lost its connection or its channel. What
  -- is wrong with the configuration, a host key, the authentication, the binaries or the host itself waits for the
  -- user.
  pub open_ssh_retries :
      (host : HostConfig) (target m : Text)
      → (open_ssh reader x store debug c w host target).1 ≡ err (retry m)
      → Lost
  unfolding open_ssh
  open_ssh_retries host target m h =
      open_at_retry host (spec reader x store debug c w target) m (config_never target m) h
