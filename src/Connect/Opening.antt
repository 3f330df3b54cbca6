-- ===== src/Connect/Opening.antt =====
-- crates/mai-core/src/connect.rs: opening a connection to a host over SSH (`spec`, `open_ssh`, `open_ssh_terminals`). A
-- run lists its steps, in order, with its result; what the connection answers is given.
use multi_ai.Base.{
  ℕ, Bool, false, Option, none, some, List, [], ◌∷◌, ◌++◌, Text, text, Result, ok, err,
  if◌then◌else◌,
}
use multi_ai.Host.{HookResult, OpenError, needs_user, config, Opened}
use multi_ai.Quoting.{invoke}
use multi_ai.Deploy.{SshError, DeployError, ExecOutput, serve_args}
use multi_ai.Deploy.Run.{Call, Answers, DeployOptions, DeployReport, Texts}
use multi_ai.Deploy.Whole.{Store, deploy}
use multi_ai.Connect.{with_notes, ssh_open_error, deploy_open_error, hooks_outcome}

pub data HostKind : Type 0 where
  local : HostKind
  ssh : Text → HostKind

pub record HostConfig : Type 0 where
  pub id : Text
  pub kind : HostKind
  pub zellij : Option Text

-- The file of the SSH configuration: its path, and what reading it gives; `ok none` if there is none.
pub record ConfigFile : Type 0 where
  pub path : Text
  pub contents : Result (Option Text) Text

-- The fields of `SystemConnector` that a connection reads.
pub record Connector : Type 0 where
  pub ssh_config : Option ConfigFile
  pub home : Text
  pub default_user : Text
  pub client : Text
  pub dir : Text
  pub install_hooks : Bool

-- What is asked of crates/mai-core/src/ssh/config.rs, with its errors as texts; SshConfig/Reader gives it.
pub record ConfigReader (Config HostSpec : Type 0) : Type 0 where
  pub parse_config : Text → Result Config Text
  pub resolve : Config → Text → Text → Text → Result HostSpec Text
  pub config_warnings : Text → List Text
  pub jump_warnings : Config → HostSpec → List Text

pub data Step : Type 0 where
  lock : Text → Step
  unlock : Text → Step
  connect : Step
  calls : List Call → Step
  run : Text → Step
  start : Text → Step
  place : Text → Step
  program : Text → List Text → Step

-- What the connection answers: its notes, the deployment's calls, and the two commands.
pub record Session (HostSpec : Type 0) : Type 0 where
  pub connect : HostSpec → Result (List Text) SshError
  pub answers : Answers
  pub hooks : Result ExecOutput SshError
  pub serve : Result (Unit {0}) SshError
  -- The search for zellij, within its time.
  pub search : Option (Result ExecOutput SshError)

abbrev pub Opening {ℓ} : Type ℓ → Type ℓ
Opening A = List Step × Result A OpenError

abbrev pub next_step {ℓ κ} : {A : Type ℓ} {B : Type κ} → Opening A → (A → Opening B) → Opening B
next_step (steps, err e) next = (steps, err e)
next_step (steps, ok a) next = (steps ++ (next a).0, (next a).1)

-- The guard is dropped at the end, also after an error.
abbrev pub held {ℓ} : {A : Type ℓ} → Text → Opening A → Opening A
held id (steps, r) = (lock id ∷ (steps ++ unlock id ∷ []), r)

abbrev pub bad_config {ℓ} : {A : Type ℓ} → Text → Result A OpenError
bad_config m = err (needs_user (config m))

module _ {Config HostSpec : Type 0} (reader : ConfigReader Config HostSpec) (x : Texts)
    (store : Store) (debug : Option ℕ → Text) (c : Connector) (w : Session HostSpec) where
  abbrev pub text_of : ConfigFile → Result (Option Text) Text → Result Text OpenError
  text_of f (ok none) = ok []
  text_of f (ok (some t)) = ok t
  text_of f (err e) = bad_config (f.path ++ (text ": " ++ e))

  abbrev pub config_text : Option ConfigFile → Result Text OpenError
  config_text none = ok []
  config_text (some f) = text_of f f.contents

  abbrev pub resolved :
      Text → Config → Result HostSpec Text → Result (HostSpec × List Text) OpenError
  resolved t cfg (err e) = bad_config e
  resolved t cfg (ok sp) = ok (sp, reader.config_warnings t ++ reader.jump_warnings cfg sp)

  abbrev pub parsed : Text → Text → Result Config Text → Result (HostSpec × List Text) OpenError
  parsed target t (err e) = bad_config e
  parsed target t (ok cfg) = resolved t cfg (reader.resolve cfg target c.default_user c.home)

  abbrev pub spec_from : Text → Result Text OpenError → Result (HostSpec × List Text) OpenError
  spec_from target (err e) = err e
  spec_from target (ok t) = parsed target t (reader.parse_config t)

  unfoldable pub spec : Text → Result (HostSpec × List Text) OpenError
  spec target = spec_from target (config_text c.ssh_config)

  abbrev pub failed {ℓ} : {A : Type ℓ} → OpenError → List Text → Result A OpenError
  failed e notes = err (with_notes e notes)

  abbrev pub over_session {ℓ} : {A : Type ℓ} → Step → List Text → Result A SshError → Opening A
  over_session s notes (ok a) = (s ∷ [], ok a)
  over_session s notes (err e) = (s ∷ [], err (with_notes (ssh_open_error e) notes))

  abbrev pub over_deploy {ℓ} :
      {A : Type ℓ} → List Text → List Call × Result A DeployError → Opening A
  over_deploy notes (cs, ok a) = (calls cs ∷ [], ok a)
  over_deploy notes (cs, err e) =
      (calls cs ∷ [], err (with_notes (deploy_open_error debug e) notes))

  abbrev pub options : DeployOptions
  options = record { dir = c.dir; install_hooks = false; client = c.client }

  unfoldable pub run_hooks : DeployReport → List Text → Opening (Result (List HookResult) Text)
  unfolding invoke hooks_outcome with_notes ssh_open_error
  run_hooks report notes =
      if c.install_hooks
      then next_step
          (over_session (run (invoke report.remote.shell report.path (text "install-hooks"))) notes
            w.hooks)
          (λ out. ([], ok (hooks_outcome debug x.parse_hook out)))
      else ([], ok (ok []))

  -- The part under the lock: the deployment, the hooks and the notes.
  unfoldable pub prepare : HostSpec → List Text → Opening (DeployReport × Opened)
  unfolding deploy run_hooks with_notes ssh_open_error deploy_open_error
  prepare sp warnings = next_step (over_session connect warnings (w.connect sp)) λ own.
      let notes : List Text = warnings ++ own in
      next_step (over_deploy notes (deploy x w.answers store options)) λ report.
        next_step (run_hooks report notes)
          λ hooks. ([], ok (report, record { hooks = hooks; notes = notes }))

  unfoldable pub start_serve : HostConfig → DeployReport × Opened → Opening Opened
  unfolding serve_args invoke with_notes ssh_open_error
  start_serve host (report, opened) =
      let args : Text = serve_args report.remote c.client host.zellij in
      next_step
        (over_session (start (invoke report.remote.shell report.path args)) opened.notes w.serve)
        λ _. ([], ok opened)

  abbrev pub open_at : HostConfig → Result (HostSpec × List Text) OpenError → Opening Opened
  open_at host (err e) = ([], err e)
  open_at host (ok (sp, warnings)) =
      next_step (held host.id (prepare sp warnings)) (start_serve host)

  unfoldable pub open_ssh : HostConfig → Text → Opening Opened
  unfolding spec prepare start_serve
  open_ssh host target = open_at host (spec target)
