-- ===== src/Connect/Local.antt =====
-- crates/mai-core/src/connect.rs: opening the connection to this machine, and to any host (`open_local`, `open`).
use multi_ai.Base.{
  ℕ, Bool, Option, none, some, List, [], ◌∷◌, ◌++◌, Text, text, Result, ok, err, if◌then◌else◌,
}
use multi_ai.Host.{HookResult, OpenError, retry, needs_user, Opened}
use multi_ai.Deploy.{Remote, target, probe_path, serve_argv, ExecOutput}
use multi_ai.Deploy.Run.{Texts}
use multi_ai.Deploy.Whole.{Store, binary}
use multi_ai.Connect.{hooks_outcome}
use multi_ai.Connect.Opening.{
  HostKind, local, ssh, HostConfig, Connector, ConfigReader, place, program, Session, Opening,
  next_step, held, open_ssh,
}

-- What this machine answers: `local_remote`, the bytes of the bundled probe, `place_binary` for them, the run of
-- `install-hooks`, starting the probe, and whether its pipes are there.
pub record Machine : Type 0 where
  pub remote : Option Remote
  pub read : Result Text Text
  pub placing : Text → Text → Result Bool Text
  pub hooks : Result ExecOutput Text
  pub spawn : Option Text
  pub pipes : Bool

abbrev pub deploy_err {ℓ} : {A : Type ℓ} → Text → Result A OpenError
deploy_err m = err (needs_user (multi_ai.Host.Problem.deploy m))

module _ (x : Texts) (store : Store) (debug : Option ℕ → Text) (c : Connector) (v : Machine) where
  abbrev pub placed : Text → Result Bool Text → Opening Bool
  placed exe (ok b) = (place exe ∷ [], ok b)
  placed exe (err e) = (place exe ∷ [], deploy_err (exe ++ (text ": " ++ e)))

  abbrev pub local_outcome : Result ExecOutput Text → Result (List HookResult) Text
  local_outcome (ok out) = hooks_outcome debug x.parse_hook out
  local_outcome (err e) = err e

  abbrev pub local_hooks : Text → Opening (Result (List HookResult) Text)
  local_hooks exe =
      if c.install_hooks
      then (program exe (text "install-hooks" ∷ []) ∷ [], ok (local_outcome v.hooks))
      else ([], ok (ok []))

  abbrev pub started :
      HostConfig → Text → Result (List HookResult) Text → Option Text → Opening Opened
  started host exe hooks (some e) = (
    program exe (serve_argv c.client host.zellij) ∷ [],
    err (retry (text "start " ++ (exe ++ (text ": " ++ e)))),
  )
  started host exe hooks none = (
    program exe (serve_argv c.client host.zellij) ∷ [],
    (if v.pipes
        then ok (record { hooks = hooks; notes = [] })
        else err (retry (text "probe pipes unavailable"))),
  )

  abbrev pub place_local : HostConfig → Text → Text → Opening Opened
  place_local host exe bytes =
      next_step (held host.id (next_step (placed exe (v.placing exe bytes)) (λ _. local_hooks exe)))
        (λ hooks. started host exe hooks v.spawn)

  abbrev pub with_probe : HostConfig → Remote → Text → Result Text Text → Opening Opened
  with_probe host r t (err e) = ([], deploy_err (binary store t ++ (text ": " ++ e)))
  with_probe host r t (ok bytes) = place_local host (probe_path r c.dir) bytes

  abbrev pub for_target : HostConfig → Remote → Option Text → Opening Opened
  for_target host r none = ([], deploy_err (text "unsupported local platform"))
  for_target host r (some t) = with_probe host r t v.read

  abbrev pub on_machine : HostConfig → Option Remote → Opening Opened
  on_machine host none = ([], deploy_err (text "unsupported local platform"))
  on_machine host (some r) = for_target host r (target r)

  unfoldable pub open_local : HostConfig → Opening Opened
  unfolding hooks_outcome binary probe_path serve_argv
  open_local host = on_machine host v.remote

  -- `open`.
  module _ {Config HostSpec : Type 0} (reader : ConfigReader Config HostSpec)
      (w : Session HostSpec) where
    abbrev pub open_kind : HostConfig → HostKind → Opening Opened
    open_kind host local = open_local host
    open_kind host (ssh t) = open_ssh reader x store debug c w host t

    unfoldable pub open_host : HostConfig → Opening Opened
    unfolding open_local open_ssh
    open_host host = open_kind host host.kind
