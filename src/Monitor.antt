-- ===== src/Monitor.antt =====
-- crates/mai-core/src/monitor.rs: one view of all hosts. A call returns the monitor afterwards and
-- the updates for the UI. A message of the monitor's caller carries the time.
pub mod Gone
pub mod Agents
pub mod Isolation
pub mod Hosts
mod Examples
use multi_ai.Base.{
  ℕ, ◌≡◌, Bool, true, false, ◌&&◌, ◌||◌, not, Option, none, some, List, [], ◌∷◌, ◌++◌, map, Text,
  nat_beq, ◌==◌, PartialEq, nat_eq, list_eq, option_eq, bool_eq, Result, is_none_or, unwrap_or,
  to_list, any, filter, if◌then◌else◌,
}
use multi_ai.Map
use multi_ai.Map.{Map}
use multi_ai.Protocol.{
  AgentEvent, AgentState, exited, SessionInfo, PaneInfo, Metrics, HelloInfo, ProbeMsg, AppMsg,
  agent_event, heartbeat, error,
}
use multi_ai.Protocol.Equal.{state_beq, state_eq}
use multi_ai.Host.{
  HookResult, ConnState, connecting, HostState, HostEvent, host_state, probe, msg, term,
}
use multi_ai.Tracker.{AgentKey, from_event, AgentRecord, Alert, Tracker, TrackerConfig, records}
use multi_ai.Tracker

pub data Update : Type 0 where
  host : Text → HostState → ConnState → Option ConnState → Update
  hello : Text → HelloInfo → Update
  hooks : Text → Result (List HookResult) Text → Update
  sessions : Text → List SessionInfo → Update
  panes : Text → Text → List PaneInfo → Update
  agent : AgentRecord → Update
  alert : Alert → Update
  metrics : Text → Metrics → Update
  probe_error : Text → Text → Text → Update
  notes : Text → List Text → Update
  dropped : Text → AppMsg → Update

pub record HostView : Type 0 where
  pub probe : Option ConnState
  pub term : Option ConnState
  pub hello : Option HelloInfo
  pub sessions : List SessionInfo
  pub panes : Map Text (List PaneInfo)
  pub metrics : Option Metrics

-- `HostView::default`.
abbrev pub empty_view : HostView
empty_view = record {
  probe = none;
  term = none;
  hello = none;
  sessions = [];
  panes = [];
  metrics = none;
}

pub record Monitor : Type 0 where
  pub tracker : Tracker
  pub hosts : Map Text HostView

-- `Monitor::new`.
unfoldable pub new : TrackerConfig → Monitor
new cfg = record { tracker = Tracker.new cfg; hosts = [] }

-- `hosts.entry(id).or_default()`, and writing the entry.
abbrev pub view_of : Monitor → Text → HostView
view_of m id = unwrap_or (Map.get id m.hosts) empty_view

abbrev pub set_view : Monitor → Text → HostView → Monitor
set_view m id v = record m { hosts = Map.insert id v m.hosts }

-- `Monitor::acknowledge`.
unfoldable pub acknowledge : Monitor → AgentKey → Monitor × Option Update
acknowledge m key = elim (Tracker.get m.tracker key) [
  | none ↦ (m, none)
  | some before ↦
      let t : Tracker = (Tracker.acknowledge m.tracker key).0 in
      (
        record m { tracker = t },
        elim (Tracker.get t key) [
          | none ↦ none
          | some rec ↦ if not before.acknowledged then some (agent rec) else none
        ],
      )
]

-- `Monitor::remove_host`.
unfoldable pub remove_host : Monitor → Text → Monitor
remove_host m id = record m { hosts = Map.remove id m.hosts }

-- `Monitor::host_update`.
unfoldable pub host_update : Text → HostView → Update
host_update id v =
    let p : ConnState = unwrap_or v.probe connecting in host id (host_state p v.term) p v.term

-- The filters of `agents_gone`.
unfoldable pub is_gone : Text → Option Text → (Text → ℕ → Bool) → AgentRecord → Bool
is_gone id session live r =
    (r.key.host_id == id)
    && (is_none_or session (λ s. r.key.session == s)
        && (not (r.state == exited) && not (live r.key.session r.key.pane_id)))

-- The loop of `agents_gone` over the collected keys.
unfoldable pub mark_gone : Tracker → List AgentKey → ℕ → Tracker × List Update
mark_gone t [] now = (t, [])
mark_gone t (k ∷ ks) now =
    let t' = Tracker.pane_gone t k now in
    let (t'', more) = mark_gone t' ks now in
    (t'', elim (Tracker.get t' k) [ none ↦ more | some rec ↦ agent rec ∷ more ])

-- `Monitor::agents_gone`.
unfoldable pub agents_gone :
    Tracker → Text → Option Text → (Text → ℕ → Bool) → ℕ → Tracker × List Update
agents_gone t id session live now =
    mark_gone t (map (λ r. r.key) (filter (is_gone id session live) (records t))) now

-- A session, or a pane, that is listed and has not exited.
abbrev pub session_live : List SessionInfo → Text → Bool
session_live ss name = any (λ s. (s.name == name) && not s.exited) ss

abbrev pub pane_live : List PaneInfo → ℕ → Bool
pane_live ps pane = any (λ p. (p.id == pane) && not p.exited) ps

-- What two records of an agent are compared by.
abbrev pub summary_changed : Option AgentRecord → AgentRecord → Bool
summary_changed none r = true
summary_changed (some b) r = not (state_beq b.state r.state && (b.acknowledged == r.acknowledged))

unfoldable pub agent_updates : Option AgentRecord → Option AgentRecord → Option Alert → List Update
agent_updates before none a = map alert (to_list a)
agent_updates before (some rec) a =
    if summary_changed before rec then agent rec ∷ map alert (to_list a) else map alert (to_list a)

-- `Monitor::apply_msg`.
unfoldable pub apply_msg : Monitor → Text → ProbeMsg → ℕ → Monitor × List Update
apply_msg m id (ProbeMsg.sessions ss) now =
    let v : HostView = view_of m id in
    let v' : HostView = record v {
      panes = Map.retain_keys (session_live ss) v.panes;
      sessions = ss;
    } in
    let (t, gone) = agents_gone m.tracker id none (λ s _. session_live ss s) now in
    (record (set_view m id v') { tracker = t }, sessions id ss ∷ gone)
apply_msg m id (ProbeMsg.panes session ps) now =
    let v : HostView = view_of m id in
    let v' : HostView = record v { panes = Map.insert session ps v.panes } in
    let (t, gone) = agents_gone m.tracker id (some session) (λ _ p. pane_live ps p) now in
    (record (set_view m id v') { tracker = t }, panes id session ps ∷ gone)
apply_msg m id (agent_event ev) now =
    let key : AgentKey = from_event id ev in
    let (t, a) = Tracker.apply m.tracker id ev in
    (
      record (set_view m id (view_of m id)) { tracker = t },
      agent_updates (Tracker.get m.tracker key) (Tracker.get t key) a,
    )
apply_msg m id (ProbeMsg.metrics x) now =
    let v : HostView = view_of m id in
    (set_view m id (record v { metrics = some x }), metrics id x ∷ [])
apply_msg m id (error code message) now =
    (set_view m id (view_of m id), probe_error id code message ∷ [])
apply_msg m id (ProbeMsg.hello info) now = (set_view m id (view_of m id), [])
apply_msg m id (heartbeat ts) now = (set_view m id (view_of m id), [])

-- `Monitor::apply`.
unfoldable pub apply : Monitor → Text → HostEvent → ℕ → Monitor × List Update
unfolding apply_msg host_update
apply m id (probe c) now =
    let v : HostView = view_of m id in
    let v' : HostView = record v { probe = some c } in (set_view m id v', host_update id v' ∷ [])
apply m id (term c) now =
    let v : HostView = view_of m id in
    let v' : HostView = record v { term = c } in (set_view m id v', host_update id v' ∷ [])
apply m id (HostEvent.hello info) now =
    let v : HostView = view_of m id in
    let v' : HostView = record v { hello = some info } in (set_view m id v', hello id info ∷ [])
apply m id (HostEvent.hooks r) now = (set_view m id (view_of m id), hooks id r ∷ [])
apply m id (HostEvent.notes n) now = (set_view m id (view_of m id), notes id n ∷ [])
apply m id (HostEvent.dropped x) now = (set_view m id (view_of m id), dropped id x ∷ [])
apply m id (msg x) now = apply_msg (set_view m id (view_of m id)) id x now
