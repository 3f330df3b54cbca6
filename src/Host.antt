-- ===== src/Host.antt =====
-- crates/mai-core/src/host.rs: the types of a host's connection, the state that the UI shows, and
-- the reconnect delays. A duration is a number of milliseconds. The host's task is in `Host/Task`.
pub mod Summary
pub mod Backoff
pub mod Task
mod Examples
use multi_ai.Base.{
  ℕ, Bool, true, false, ◌||◌, Option, none, some, List, [], ◌∷◌, Text, Result, filter, any, length,
  nat_beq, ltb, to_list, if◌then◌else◌, text, decimal, ◌++◌,
}
use multi_ai.Protocol.{HelloInfo, ProbeMsg, AppMsg}

-- One line of `install-hooks` (deploy.rs).
pub record HookResult : Type 0 where
  pub agent : Text
  pub outcome : Text
  pub path : Option Text
  pub note : Option Text
  pub reason : Option Text
  pub error : Option Text

pub data Problem : Type 0 where
  auth : Text → Problem
  host_key_rejected : Problem
  host_key_changed : Text → ℕ → Problem
  host_key_revoked : Text → ℕ → Problem
  deploy : Text → Problem
  config : Text → Problem
  protocol : ℕ → ℕ → Problem

-- `Display` of a problem.
unfoldable pub display_problem : Problem → Text
unfolding decimal
display_problem (auth m) = text "authentication failed: " ++ m
display_problem host_key_rejected = text "host key not accepted"
display_problem (host_key_changed file line) =
    text "HOST KEY CHANGED (recorded in " ++ (file ++ (text " line " ++ (decimal line ++ text ")")))
display_problem (host_key_revoked file line) =
    text "host key REVOKED (marked in " ++ (file ++ (text " line " ++ (decimal line ++ text ")")))
display_problem (deploy m) = text "probe deployment failed: " ++ m
display_problem (config m) = text "configuration error: " ++ m
display_problem (protocol probe app) =
    text "probe protocol "
    ++ (decimal probe ++ (text " does not match app protocol " ++ decimal app))

pub data OpenError : Type 0 where
  retry : Text → OpenError
  needs_user : Problem → OpenError

-- What `Connector::open` gives, less the streams and the values that are only kept alive.
pub record Opened : Type 0 where
  pub hooks : Result (List HookResult) Text
  pub notes : List Text

pub data ConnState : Type 0 where
  connecting up : ConnState
  retrying : ℕ → Text → ConnState
  needs_user : Problem → ConnState

pub data HostState : Type 0 where
  connecting online degraded offline auth_required : HostState

unfoldable pub needs_auth : ConnState → Bool
needs_auth (ConnState.needs_user (auth m)) = true
needs_auth (ConnState.needs_user host_key_rejected) = true
needs_auth (ConnState.needs_user (host_key_changed f l)) = true
needs_auth (ConnState.needs_user (host_key_revoked f l)) = true
needs_auth _ = false

-- `== ConnState::Up` and `== ConnState::Connecting`.
unfoldable pub is_up : ConnState → Bool
is_up up = true
is_up _ = false

unfoldable pub is_connecting : ConnState → Bool
is_connecting ConnState.connecting = true
is_connecting _ = false

unfoldable pub host_state : ConnState → Option ConnState → HostState
unfolding needs_auth is_up is_connecting
host_state probe term =
    let conns : List ConnState = probe ∷ to_list term in
    let ups : ℕ = length (filter is_up conns) in
    if nat_beq ups (length conns)
    then online
    else if ltb 0 ups
    then degraded
    else if any needs_auth conns
    then auth_required
    else if any is_connecting conns
    then HostState.connecting
    else offline

-- Sent by a host task to the monitor.
pub data HostEvent : Type 0 where
  probe : ConnState → HostEvent
  hello : HelloInfo → HostEvent
  hooks : Result (List HookResult) Text → HostEvent
  msg : ProbeMsg → HostEvent
  dropped : AppMsg → HostEvent
  term : Option ConnState → HostEvent
  notes : List Text → HostEvent

pub data HostCommand : Type 0 where
  retry : HostCommand
  send : AppMsg → HostCommand
  stop : HostCommand
