-- ===== src/Tracker/Alerts.antt =====
-- crates/mai-core/src/tracker.rs: when `apply` alerts the user.
use multi_ai.Base.{
  ℕ, ◌-◌, ◌≤◌, ◌≡◌, ◌≢◌, ◌∙◌, true, false, none, some, arith, Text, Option-cases, inl, inr,
}
use multi_ai.Protocol.{AgentEvent}
use multi_ai.Protocol.Equal.{state_beq_iff}
use multi_ai.Tracker.{
  AgentKey, key_eq, from_event, TrackerConfig, AgentRecord, Alert, Tracker, apply, get, update,
  admit, transition, record_for, is_alerting,
}
use multi_ai.Tracker.Authority.{get-apply_self}

-- What an alert says, against the records before and after it.
pub record IsAlertOf (k : AgentKey) (ev : AgentEvent) (r r' : AgentRecord) (a : Alert)
    : Type 0 where
  pub key : a.key ≡ k
  pub agent : a.agent ≡ ev.agent
  pub state : a.state ≡ ev.state
  pub message : a.message ≡ ev.message
  pub alerting : is_alerting ev.state ≡ true
  pub changed : r.state ≢ ev.state
  pub now : r'.state ≡ ev.state
  pub waits : r'.acknowledged ≡ false
  pub noted : r'.last_alert ≡ some (ev.state, ev.ts_ms)

transition-IsAlertOf :
    (cfg : TrackerConfig) (k : AgentKey) (r : AgentRecord) (ev : AgentEvent) (a : Alert)
    → (transition cfg k r ev).1 ≡ some a
    → IsAlertOf k ev r (transition cfg k r ev).0 a
unfolding transition
transition-IsAlertOf cfg k r ev a e = ground (arith, state_beq_iff r.state ev.state)

admit-state :
    (cfg : TrackerConfig) (r : AgentRecord) (ev : AgentEvent) {r' : AgentRecord}
    → admit cfg r ev ≡ some r'
    → (r'.state ≡ r.state) × (r'.last_alert ≡ r.last_alert)
unfolding admit
admit-state cfg r ev e = ground arith

-- `update` by what `admit` says.
update-refused :
    (cfg : TrackerConfig) (k : AgentKey) (r : AgentRecord) (ev : AgentEvent)
    → admit cfg r ev ≡ none
    → update cfg k r ev ≡ (r, none)
unfolding update
update-refused cfg k r ev e = rw (e, update)

update-admitted :
    (cfg : TrackerConfig) (k : AgentKey) (r : AgentRecord) (ev : AgentEvent) {r' : AgentRecord}
    → admit cfg r ev ≡ some r'
    → update cfg k r ev ≡ transition cfg k r' ev
unfolding update
update-admitted cfg k r ev e = rw (e, update)

pub update-IsAlertOf :
    (cfg : TrackerConfig) (k : AgentKey) (r : AgentRecord) (ev : AgentEvent) (a : Alert)
    → (update cfg k r ev).1 ≡ some a
    → IsAlertOf k ev r (update cfg k r ev).0 a
update-IsAlertOf cfg k r ev a e = elim (Option-cases (admit cfg r ev)) [
  | inl n ↦ cc (update-refused cfg k r ev n)
  | inr (r', s) ↦
      let p = update-admitted cfg k r ev s in
      let v = transition-IsAlertOf cfg k r' ev a (rw (← p) e) in
      rw p (record {
        key = v.key;
        agent = v.agent;
        state = v.state;
        message = v.message;
        alerting = v.alerting;
        changed = λ q. v.changed ((admit-state cfg r ev s).0 ∙ q);
        now = v.now;
        waits = v.waits;
        noted = v.noted;
      })
]

-- An alert is of the event's agent, state and message; it is raised only when the agent enters
-- that state and the state is an alerting one; its record then waits to be acknowledged.
pub alert_sound :
    (t : Tracker) (h : Text) (ev : AgentEvent) (a : Alert)
    → (apply t h ev).1 ≡ some a
    → (r : AgentRecord) × (get (apply t h ev).0 (from_event h ev) ≡ some r)
      × IsAlertOf (from_event h ev) ev (record_for t (from_event h ev) ev) r a
alert_sound t h ev a e =
    let j : AgentKey = from_event h ev in
    (
      (update t.cfg j (record_for t j ev) ev).0,
      get-apply_self t h ev,
      update-IsAlertOf t.cfg j (record_for t j ev) ev a (unfold apply in e),
    )

transition_quiet :
    (cfg : TrackerConfig) (k : AgentKey) (r : AgentRecord) (ev : AgentEvent)
    → (transition cfg k r ev).1 ≡ none
    → (transition cfg k r ev).0.last_alert ≡ r.last_alert
unfolding transition
transition_quiet cfg k r ev e = ground arith

transition_spaced :
    (cfg : TrackerConfig) (k : AgentKey) (r : AgentRecord) (ev : AgentEvent) (a : Alert) (ts : ℕ)
    → r.last_alert ≡ some (a.state, ts)
    → (transition cfg k r ev).1 ≡ some a
    → cfg.alert_dedupe_ms ≤ ev.ts_ms - ts
unfolding transition
transition_spaced cfg k r ev a ts l e = ground (arith, state_beq_iff a.state ev.state)

pub update_quiet :
    (cfg : TrackerConfig) (k : AgentKey) (r : AgentRecord) (ev : AgentEvent)
    → (update cfg k r ev).1 ≡ none
    → (update cfg k r ev).0.last_alert ≡ r.last_alert
update_quiet cfg k r ev e = elim (Option-cases (admit cfg r ev)) [
  | inl n ↦ rw (update-refused cfg k r ev n)
  | inr (r', s) ↦
      let p = update-admitted cfg k r ev s in
      rw p (transition_quiet cfg k r' ev (rw (← p) e) ∙ (admit-state cfg r ev s).1)
]

pub update_spaced :
    (cfg : TrackerConfig) (k : AgentKey) (r : AgentRecord) (ev : AgentEvent) (a : Alert) (ts : ℕ)
    → r.last_alert ≡ some (a.state, ts)
    → (update cfg k r ev).1 ≡ some a
    → cfg.alert_dedupe_ms ≤ ev.ts_ms - ts
update_spaced cfg k r ev a ts l e = elim (Option-cases (admit cfg r ev)) [
  | inl n ↦ cc (update-refused cfg k r ev n)
  | inr (r', s) ↦
      transition_spaced cfg k r' ev a ts ((admit-state cfg r ev s).1 ∙ l)
        (rw (← update-admitted cfg k r ev s) e)
]
