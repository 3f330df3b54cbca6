-- ===== src/Monitor/Examples.antt =====
-- crates/mai-core/src/monitor.rs: tests, and the theorems at concrete inputs.
use multi_ai.Base.{
  ℕ, ◌≡◌, ◌≢◌, refl, true, none, some, List, [], ◌∷◌, Text, text, list_beq, bool_beq, list_eq,
  nat_eq,
}
use multi_ai.Protocol.{
  AgentEvent, AgentState, working, needs_input, done, hook, SessionInfo, PaneInfo, ProbeMsg,
  agent_event,
}
use multi_ai.Protocol.Equal.{state_beq}
use multi_ai.Host.{up, probe, msg}
use multi_ai.Map
use multi_ai.Tracker.{
  AgentKey, from_event, AgentRecord, Alert, default_config, key_beq, admit, update, transition,
}
use multi_ai.Tracker
use multi_ai.Monitor.{Monitor, new, apply, apply_msg, acknowledge, agent_updates}
use multi_ai.Monitor.Gone.{exit_if, lost_session, lost_pane, reported_gone}
use multi_ai.Monitor.Isolation.{Call, event, run, step, monitor-IsValid, apply_isolated}

-- What a call of the monitor unfolds.
calls : Unit {0}
unfolding apply apply_msg Tracker.apply update admit transition Map.get Map.insert key_beq list_beq
    bool_beq state_beq agent_updates acknowledge Tracker.acknowledge step run new Tracker.new
calls = tt

abbrev hook_event : AgentState → ℕ → ℕ → AgentEvent
hook_event s ts o = record {
  pane = record { session = text "w"; pane_id = 3 };
  agent = text "claude";
  source = hook;
  state = s;
  message = none;
  ts_ms = ts;
  spool_offset = some o;
}

abbrev key : AgentKey
key = from_event (text "h") (hook_event working 0 0)

abbrev reported : AgentEvent → Call
reported ev = event (text "h") (msg (agent_event ev)) 0

abbrev first : List Call
first = reported (hook_event working 100 1) ∷ []

-- A monitor that knows one working agent.
abbrev at_work : Monitor
at_work = run (new default_config) first

abbrev working_record : AgentRecord
working_record = record {
  key = key;
  agent = text "claude";
  state = working;
  message = none;
  acknowledged = true;
  since_ms = 100;
  last_hook_ms = some 100;
  last_hook_offset = some 1;
  last_alert = none;
}

known : Tracker.get at_work.tracker key ≡ some working_record
unfolding calls
known = refl

abbrev done_alert : Alert
done_alert = record { key = key; agent = text "claude"; state = done; message = none }

abbrev later_record : AgentRecord
later_record = record working_record { last_hook_ms = some 200; last_hook_offset = some 2 }

abbrev waiting : Monitor
waiting = run at_work (reported (hook_event needs_input 200 2) ∷ [])

apply_isolated_example :
    ((other : Text)
      → other ≢ text "i"
      → Map.get other (apply at_work (text "i") (probe up) 0).0.hosts ≡ Map.get other at_work.hosts)
    × ((k : AgentKey)
        → k.host_id ≢ text "i"
        → Tracker.get (apply at_work (text "i") (probe up) 0).0.tracker k
          ≡ Tracker.get at_work.tracker k)
apply_isolated_example =
    apply_isolated at_work (text "i") (probe up) 0 (monitor-IsValid default_config first)

reported_gone_example :
    ((ss : List SessionInfo)
      → Tracker.get (apply at_work (text "h") (msg (ProbeMsg.sessions ss)) 9).0.tracker key
        ≡ some (exit_if (lost_session (text "h") ss) 9 working_record))
    × ((session : Text) (ps : List PaneInfo)
        → Tracker.get (apply at_work (text "h") (msg (ProbeMsg.panes session ps)) 9).0.tracker key
          ≡ some (exit_if (lost_pane (text "h") session ps) 9 working_record))
reported_gone_example =
    reported_gone at_work (text "h") 9 key working_record (monitor-IsValid default_config first)
      known
