-- ===== src/Monitor/Agents.antt =====
-- crates/mai-core/src/monitor.rs: the updates about one agent.
use multi_ai.Base.{
  ℕ, ◌≡◌, ◌≢◌, refl, ap, sym, ◌∙◌, ◌↔◌, true, false, not, Option, none, some, [], ◌∷◌, arith, Text,
  nat_eq, list_eq, bool_eq, bool_beq_iff, if◌then◌else◌,
}
use multi_ai.Map
use multi_ai.Protocol.{AgentEvent, agent_event}
use multi_ai.Protocol.Equal.{state_beq_iff}
use multi_ai.Host.{msg}
use multi_ai.Tracker.{AgentKey, from_event, AgentRecord, Alert, key_beq_iff, key_eq, record_for}
use multi_ai.Tracker
use multi_ai.Tracker.Alerts.{alert_sound}
use multi_ai.Monitor.{agent, alert, Monitor, agent_updates, apply, acknowledge}

event_updates :
    (m : Monitor) (id : Text) (ev : AgentEvent) (now : ℕ)
    → (apply m id (msg (agent_event ev)) now).1
      ≡ agent_updates
          (Tracker.get m.tracker (from_event id ev))
          (Tracker.get (Tracker.apply m.tracker id ev).0 (from_event id ev))
          (Tracker.apply m.tracker id ev).1
unfolding apply
event_updates m id ev now = refl

updates_alerted :
    (before : Option AgentRecord) (r : AgentRecord) (a : Alert)
    → ((b : AgentRecord) → before ≡ some b → b.state ≢ r.state)
    → agent_updates before (some r) (some a) ≡ agent r ∷ alert a ∷ []
unfolding agent_updates
updates_alerted none r a ne = refl
updates_alerted (some b) r a ne = ground (arith, ne b refl, state_beq_iff b.state r.state)

record_for_known :
    (t : Tracker.Tracker) (k : AgentKey) (ev : AgentEvent) (b : AgentRecord)
    → Tracker.get t k ≡ some b
    → record_for t k ev ≡ b
record_for_known t k ev b e = rw e

-- Whenever an event alerts the user, the UI is first given the agent's new record, in the state of
-- the alert and not acknowledged, and then the alert, and nothing else.
pub alert_updates :
    (m : Monitor) (id : Text) (ev : AgentEvent) (now : ℕ) (a : Alert)
    → (Tracker.apply m.tracker id ev).1 ≡ some a
    → (r : AgentRecord) × ((apply m id (msg (agent_event ev)) now).1 ≡ agent r ∷ alert a ∷ [])
      × (Tracker.get (apply m id (msg (agent_event ev)) now).0.tracker (from_event id ev) ≡ some r)
      × (r.state ≡ a.state)
      × (r.acknowledged ≡ false)
alert_updates m id ev now a e =
    let (r, g, v) = alert_sound m.tracker id ev a e in
    let changed : (b : AgentRecord)
        → Tracker.get m.tracker (from_event id ev) ≡ some b
        → b.state ≢ r.state =
      λ b p q. v.changed (
        ap (λ (x : AgentRecord). x.state) (record_for_known m.tracker (from_event id ev) ev b p)
        ∙ q
        ∙ v.now) in
    (
      r,
      event_updates m id ev now
          ∙ rw (g, e) (updates_alerted (Tracker.get m.tracker (from_event id ev)) r a changed),
      unfold apply in g,
      v.now ∙ sym v.state,
      v.waits,
    )

updates_unalerted :
    (b r : AgentRecord)
    → (agent_updates (some b) (some r) none ≡ [])
      ↔ ((b.state ≡ r.state) × (b.acknowledged ≡ r.acknowledged))
unfolding agent_updates
updates_unalerted b r =
    ground (arith, state_beq_iff b.state r.state, bool_beq_iff b.acknowledged r.acknowledged)

-- An event of a known agent that raises no alert gives no update exactly if it changes neither the
-- agent's state nor whether it waits for the user.
pub silent_event :
    (m : Monitor) (id : Text) (ev : AgentEvent) (now : ℕ) (b r : AgentRecord)
    → Tracker.get m.tracker (from_event id ev) ≡ some b
    → Tracker.get (Tracker.apply m.tracker id ev).0 (from_event id ev) ≡ some r
    → (Tracker.apply m.tracker id ev).1 ≡ none
    → ((apply m id (msg (agent_event ev)) now).1 ≡ [])
      ↔ ((b.state ≡ r.state) × (b.acknowledged ≡ r.acknowledged))
silent_event m id ev now b r eb er ea =
    rw (event_updates m id ev now, eb, er, ea) (updates_unalerted b r)

abbrev as_seen : AgentRecord → AgentRecord
as_seen r = record r { acknowledged = true }

get-acknowledge :
    (t : Tracker.Tracker) (k : AgentKey) (r : AgentRecord)
    → Tracker.get t k ≡ some r
    → Tracker.get (Tracker.acknowledge t k).0 k ≡ some (as_seen r)
unfolding Tracker.acknowledge
get-acknowledge t k r e = rw (e, Tracker.acknowledge) (Map.get-insert_self k (as_seen r) t.agents)

acknowledge_known :
    (m : Monitor) (k : AgentKey) (r : AgentRecord)
    → Tracker.get m.tracker k ≡ some r
    → acknowledge m k ≡ (
      record m { tracker = (Tracker.acknowledge m.tracker k).0 },
      if not r.acknowledged then some (agent (as_seen r)) else none,
    )
unfolding acknowledge
acknowledge_known m k r e = ground (arith, e, get-acknowledge m.tracker k r e)

-- Acknowledging an agent that waits for the user gives one update, of its record as seen, and
-- doing it again gives none; of an agent that is not known it changes nothing.
pub acknowledge_lem :
    (m : Monitor) (k : AgentKey)
    → ((r : AgentRecord)
        → Tracker.get m.tracker k ≡ some r
        → r.acknowledged ≡ false
        → ((acknowledge m k).1 ≡ some (agent (record r { acknowledged = true })))
          × ((acknowledge (acknowledge m k).0 k).1 ≡ none))
      × (Tracker.get m.tracker k ≡ none → acknowledge m k ≡ (m, none))
unfolding acknowledge
acknowledge_lem m k = (
  λ r e w.
      let p = acknowledge_known m k r e in
      let q =
        acknowledge_known (record m { tracker = (Tracker.acknowledge m.tracker k).0 }) k (as_seen r)
          (get-acknowledge m.tracker k r e) in
      (ap (λ x. x.1) p ∙ rw w refl, ap (λ x. (acknowledge x.0 k).1) p ∙ ap (λ x. x.1) q),
  λ e. rw (e, acknowledge),
)
