-- ===== src/Manager.antt =====
-- crates/mai-core/src/manager.rs: the handle to the hosts (`HostManager`) and the task that owns the
-- monitor (`run_monitor`). The channels of a host's two tasks are named by the generation that the
-- host was added with; what runs at their other ends is in Host/Task. Opening terminals, and the
-- end of the program, are not modelled.
pub mod Incarnations
pub mod Paths
mod Examples
use multi_ai.Base.{
  ◌++◌, ℕ, ◌+◌, Bool, true, false, Option, none, some, List, [], ◌∷◌, Text, is_some, to_list,
  nat_beq, list_eq, nat_eq, option_eq, ◌==◌, not, if◌then◌else◌, suc,
}
use multi_ai.Map
use multi_ai.Map.{Map}
use multi_ai.Protocol.{AppMsg}
use multi_ai.Host.{HostEvent, hello, HostCommand, retry, send, stop}
use multi_ai.Tracker.{AgentKey, TrackerConfig}
use multi_ai.Monitor.{Monitor, Update}
use multi_ai.Monitor

pub data Ctl : Type 0 where
  added : Text → ℕ → Ctl
  removed : Text → Ctl
  acknowledge : AgentKey → Ctl

-- `HostTasks`: its two channels, by the generation.
pub record HostTasks : Type 0 where
  pub generation : ℕ

-- What the manager sends to a host's tasks: a command of the probe's, or one of the two commands
-- for the terminals that it sends itself.
pub data TermOrder : Type 0 where
  retry_terms stop_terms : TermOrder

pub data Sent : Type 0 where
  to_probe : HostTasks → HostCommand → Sent
  to_terms : HostTasks → TermOrder → Sent

pub record Manager : Type 0 where
  pub hosts : Map Text HostTasks
  pub generation : ℕ

-- What a call of the manager sends, and its result.
pub record Reply : Type 0 where
  pub accepted : Bool
  pub ctl : List Ctl
  pub sent : List Sent

abbrev refused : Reply
refused = record { accepted = false; ctl = []; sent = [] }

-- `HostManager::add_host`.
unfoldable pub add_host : Manager → Text → Manager × Reply
add_host m id =
    let g : ℕ = m.generation + 1 in
    if is_some (Map.get id m.hosts) then (m, refused) else (
      record { hosts = Map.insert id (record { generation = g }) m.hosts; generation = g },
      record { accepted = true; ctl = added id g ∷ []; sent = [] },
    )

-- `HostManager::remove_host`.
unfoldable pub remove_host : Manager → Text → Manager × Reply
remove_host m id = elim (Map.get id m.hosts) [
  | none ↦ (m, refused)
  | some tasks ↦ (
    record m { hosts = Map.remove id m.hosts },
    record {
      accepted = true;
      ctl = removed id ∷ [];
      sent = to_probe tasks stop ∷ to_terms tasks stop_terms ∷ [];
    },
  )
]

-- `HostManager::retry` and `HostManager::send`; `receives` tells whether a host's probe task still
-- takes commands.
unfoldable pub retry_host : (HostTasks → Bool) → Manager → Text → Reply
retry_host receives m id = elim (Map.get id m.hosts) [
  | none ↦ refused
  | some tasks ↦ record {
    accepted = receives tasks;
    ctl = [];
    sent = to_terms tasks retry_terms ∷ to_probe tasks HostCommand.retry ∷ [];
  }
]

unfoldable pub send_to : (HostTasks → Bool) → Manager → Text → AppMsg → Reply
send_to receives m id x = elim (Map.get id m.hosts) [
  | none ↦ refused
  | some tasks ↦ record { accepted = receives tasks; ctl = []; sent = to_probe tasks (send x) ∷ [] }
]

-- The state of `run_monitor`: the monitor, the generations of the current hosts and the zellij
-- binaries that the probes found.
pub record MonitorTask : Type 0 where
  pub monitor : Monitor
  pub current : Map Text ℕ
  pub zellij : Map Text Text

-- One control message.
unfoldable pub on_ctl : MonitorTask → Ctl → MonitorTask × List Update
on_ctl t (added id g) = (record t { current = Map.insert id g t.current }, [])
on_ctl t (removed id) = (
  record {
    monitor = Monitor.remove_host t.monitor id;
    current = Map.remove id t.current;
    zellij = Map.remove id t.zellij;
  },
  [],
)
on_ctl t (acknowledge key) =
    let (m, u) = Monitor.acknowledge t.monitor key in (record t { monitor = m }, to_list u)

-- The binary to attach terminals with, as a greeting tells it.
unfoldable pub learn_path : Map Text Text → Text → HostEvent → Map Text Text
learn_path paths id (hello info) = elim info.zellij_path [
  | some p ↦ Map.insert id p paths
  | none ↦ Map.remove id paths
]
learn_path paths id _ = paths

-- One event of a host's tasks, tagged with their generation.
unfoldable pub on_event : MonitorTask → Text → ℕ → HostEvent → ℕ → MonitorTask × List Update
on_event t id g ev now =
    let (m, out) = Monitor.apply t.monitor id ev now in
    if not (Map.get id t.current == some g)
    then (t, [])
    else (record t { monitor = m; zellij = learn_path t.zellij id ev }, out)

-- The manager with its monitor task. The task reads control messages first, so a control message is
-- handled before any event that it reads after that.
pub record System : Type 0 where
  pub manager : Manager
  pub task : MonitorTask

unfoldable pub on_ctls : MonitorTask → List Ctl → MonitorTask × List Update
on_ctls t [] = (t, [])
on_ctls t (c ∷ cs) =
    let (t', out) = on_ctl t c in let (t'', more) = on_ctls t' cs in (t'', out ++ more)

pub data Call : Type 0 where
  add : Text → Call
  remove : Text → Call
  seen : AgentKey → Call
  arrives : Text → ℕ → HostEvent → ℕ → Call

unfoldable pub step : System → Call → System × List Update
step s (add id) =
    let (m, r) = add_host s.manager id in
    let (t, out) = on_ctls s.task r.ctl in (record { manager = m; task = t }, out)
step s (remove id) =
    let (m, r) = remove_host s.manager id in
    let (t, out) = on_ctls s.task r.ctl in (record { manager = m; task = t }, out)
step s (seen key) = let (t, out) = on_ctl s.task (acknowledge key) in (record s { task = t }, out)
step s (arrives id g ev now) =
    let (t, out) = on_event s.task id g ev now in (record s { task = t }, out)

-- `HostManager::start`.
unfoldable pub start : TrackerConfig → System
start cfg = record {
  manager = record { hosts = []; generation = 0 };
  task = record { monitor = Monitor.new cfg; current = []; zellij = [] };
}

unfoldable pub run : System → List Call → System
run s [] = s
run s (c ∷ cs) = run (step s c).0 cs
