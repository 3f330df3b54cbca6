-- ===== src/Tracker.antt =====
-- crates/mai-core/src/tracker.rs: per-agent state merged from hook and scrape events, and the
-- alerts. `apply` is split where the source returns early: `admit` is the match on the event's
-- source, `transition` what follows it. `saturating_sub` on u64 is `-` on ℕ.
pub mod Sort
pub mod Invariant
pub mod Redelivery
pub mod Alerts
pub mod Authority
pub mod Pending
pub mod Spacing
mod Examples
use multi_ai.Base.{
  ℕ, ◌-◌, ◌≡◌, ◌↔◌, Bool, true, false, ◌&&◌, ◌||◌, not, Option, none, some, List, [], ◌∷◌, map,
  arith, Text, ltb, leb, PartialEq, ◌==◌, nat_eq, list_eq, list_beq_iff, if◌then◌else◌, is_some_and,
  unwrap_or, filter,
}
use multi_ai.Protocol.{
  AgentState, unknown, working, needs_input, done, exited, EventSource, hook, scrape, AgentEvent,
}
use multi_ai.Protocol.Equal.{state_beq, state_eq}
use multi_ai.Map
use multi_ai.Map.{Map}
use Sort.{sort_by}

pub record AgentKey : Type 0 where
  pub host_id : Text
  pub session : Text
  pub pane_id : ℕ

unfoldable pub key_beq : AgentKey → AgentKey → Bool
key_beq a b = (a.host_id == b.host_id) && ((a.session == b.session) && (a.pane_id == b.pane_id))

pub key_beq_iff : (a b : AgentKey) → (key_beq a b ≡ true) ↔ (a ≡ b)
unfolding key_beq
key_beq_iff a b = ground (arith, list_beq_iff a.host_id b.host_id, list_beq_iff a.session b.session)

instance abbrev pub key_eq : PartialEq AgentKey
key_eq = record { beq = key_beq; beq_iff = key_beq_iff }

-- `AgentKey::from_event`.
abbrev pub from_event : Text → AgentEvent → AgentKey
from_event host_id ev = record {
  host_id = host_id;
  session = ev.pane.session;
  pane_id = ev.pane.pane_id;
}

pub record TrackerConfig : Type 0 where
  pub hook_authority_ms : ℕ
  pub alert_dedupe_ms : ℕ

abbrev pub default_config : TrackerConfig
default_config = record { hook_authority_ms = 600_000; alert_dedupe_ms = 30_000 }

pub record Alert : Type 0 where
  pub key : AgentKey
  pub agent : Text
  pub state : AgentState
  pub message : Option Text

pub record AgentRecord : Type 0 where
  pub key : AgentKey
  pub agent : Text
  pub state : AgentState
  pub message : Option Text
  pub acknowledged : Bool
  pub since_ms : ℕ
  pub last_hook_ms : Option ℕ
  pub last_hook_offset : Option ℕ
  pub last_alert : Option (AgentState × ℕ)

pub record Tracker : Type 0 where
  pub cfg : TrackerConfig
  pub agents : Map AgentKey AgentRecord

-- `Tracker::new`.
unfoldable pub new : TrackerConfig → Tracker
new cfg = record { cfg = cfg; agents = [] }

unfoldable pub is_alerting : AgentState → Bool
is_alerting needs_input = true
is_alerting done = true
is_alerting _ = false

unfoldable pub scrape_may_override : AgentState → AgentState → Bool
unfolding is_alerting state_beq
scrape_may_override from to = is_alerting from && (to == working)

-- What `or_insert_with` makes for an agent seen for the first time.
abbrev pub first_record : AgentKey → AgentEvent → AgentRecord
first_record key ev = record {
  key = key;
  agent = ev.agent;
  state = unknown;
  message = none;
  acknowledged = true;
  since_ms = ev.ts_ms;
  last_hook_ms = none;
  last_hook_offset = none;
  last_alert = none;
}

-- The `Hook` arm: `none` is its early return, for a record read before or an older time.
unfoldable pub admit_hook : AgentRecord → ℕ → Option ℕ → Option AgentRecord
admit_hook rec ts (some o) =
    if is_some_and rec.last_hook_offset (λ prev. leb o prev)
    then none
    else some (record rec { last_hook_ms = some ts; last_hook_offset = some o })
admit_hook rec ts none =
    if is_some_and rec.last_hook_ms (λ h. ltb ts h)
    then none
    else some (record rec { last_hook_ms = some ts })

-- Whether a hook event is newer than the configured time.
unfoldable pub is_authoritative : TrackerConfig → AgentRecord → ℕ → Bool
is_authoritative cfg rec ts = is_some_and rec.last_hook_ms (λ h. ltb (ts - h) cfg.hook_authority_ms)

-- The `Scrape` arm.
unfoldable pub admit_scrape : TrackerConfig → AgentRecord → ℕ → AgentState → Option AgentRecord
unfolding is_authoritative
admit_scrape cfg rec ts to =
    if is_authoritative cfg rec ts && not (scrape_may_override rec.state to) then none else some rec

unfoldable pub admit : TrackerConfig → AgentRecord → AgentEvent → Option AgentRecord
unfolding admit_hook admit_scrape
admit cfg rec ev = elim ev.source [
  | hook ↦ admit_hook rec ev.ts_ms ev.spool_offset
  | scrape ↦ admit_scrape cfg rec ev.ts_ms ev.state
]

-- The last alert was for the same state, and is recent.
unfoldable pub is_repeat : TrackerConfig → Option (AgentState × ℕ) → AgentState → ℕ → Bool
is_repeat cfg none s ts = false
is_repeat cfg (some (s', t)) s ts = (s' == s) && ltb (ts - t) cfg.alert_dedupe_ms

-- The rest of `apply`, from the comparison of the states.
unfoldable pub transition :
    TrackerConfig → AgentKey → AgentRecord → AgentEvent → AgentRecord × Option Alert
unfolding is_repeat is_alerting
transition cfg key rec ev =
    let moved : AgentRecord = record rec {
      agent = ev.agent;
      state = ev.state;
      message = ev.message;
      since_ms = ev.ts_ms;
    } in
    if rec.state == ev.state
    then (rec, none)
    else if not (is_alerting ev.state)
    then (record moved { acknowledged = true }, none)
    else if is_repeat cfg rec.last_alert ev.state ev.ts_ms
    then (record moved { acknowledged = false }, none)
    else (
      record moved { acknowledged = false; last_alert = some (ev.state, ev.ts_ms) },
      some (record { key = key; agent = ev.agent; state = ev.state; message = ev.message }),
    )

-- `apply` on the record of the event's agent.
unfoldable pub update :
    TrackerConfig → AgentKey → AgentRecord → AgentEvent → AgentRecord × Option Alert
update cfg key rec ev = elim (admit cfg rec ev) [
  | none ↦ (rec, none)
  | some r ↦ transition cfg key r ev
]

-- The record that an event meets: the agent's own, or a new one.
abbrev pub record_for : Tracker → AgentKey → AgentEvent → AgentRecord
record_for t key ev = unwrap_or (Map.get key t.agents) (first_record key ev)

-- `Tracker::apply`.
unfoldable pub apply : Tracker → Text → AgentEvent → Tracker × Option Alert
apply t host_id ev =
    let key : AgentKey = from_event host_id ev in
    let (rec, alert) = update t.cfg key (record_for t key ev) ev in
    (record t { agents = Map.insert key rec t.agents }, alert)

-- `Tracker::pane_gone`.
unfoldable pub pane_gone : Tracker → AgentKey → ℕ → Tracker
pane_gone t key now_ms = elim (Map.get key t.agents) [
  | none ↦ t
  | some rec ↦ record t {
    agents =
        Map.insert key (record rec { state = exited; since_ms = now_ms; acknowledged = true })
          t.agents;
  }
]

-- `Tracker::acknowledge`.
unfoldable pub acknowledge : Tracker → AgentKey → Tracker × Bool
acknowledge t key = elim (Map.get key t.agents) [
  | none ↦ (t, false)
  | some rec ↦
      (record t { agents = Map.insert key (record rec { acknowledged = true }) t.agents }, true)
]

-- `Tracker::get` and `Tracker::records`.
abbrev pub get : Tracker → AgentKey → Option AgentRecord
get t key = Map.get key t.agents

abbrev pub records : Tracker → List AgentRecord
records t = Map.values t.agents

-- `<` on strings, and the order of the tuples that `pending` sorts by.
unfoldable pub text_ltb : Text → Text → Bool
text_ltb s [] = false
text_ltb [] (d ∷ t) = true
text_ltb (c ∷ s) (d ∷ t) = ltb c d || ((c == d) && text_ltb s t)

abbrev pub rank : AgentRecord → ℕ
rank r = if state_beq r.state needs_input then 0 else 1

unfoldable pub key_leb : AgentKey → AgentKey → Bool
unfolding text_ltb
key_leb a b =
    text_ltb a.host_id b.host_id
    || ((a.host_id == b.host_id)
        && (text_ltb a.session b.session || ((a.session == b.session) && leb a.pane_id b.pane_id)))

unfoldable pub pending_leb : AgentRecord → AgentRecord → Bool
pending_leb a b =
    ltb (rank a) (rank b)
    || ((rank a == rank b)
        && (ltb a.since_ms b.since_ms || ((a.since_ms == b.since_ms) && key_leb a.key b.key)))

unfoldable pub is_pending : AgentRecord → Bool
unfolding is_alerting
is_pending r = is_alerting r.state && not r.acknowledged

-- `Tracker::pending`.
unfoldable pub pending : Tracker → List AgentRecord
pending t = sort_by pending_leb (filter is_pending (records t))
