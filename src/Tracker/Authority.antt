-- ===== src/Tracker/Authority.antt =====
-- crates/mai-core/src/tracker.rs: which events may change an agent's state.
use multi_ai.Base.{
  ℕ, ◌-◌, ◌<◌, ◌≤◌, ◌≡◌, refl, false, Option, none, some, arith, Text, leb, is_some_and,
  Option-cases, inl, inr, if◌then◌else◌,
}
use multi_ai.Protocol.{AgentEvent, hook, scrape}
use multi_ai.Protocol.Equal.{state_beq_iff}
use multi_ai.Map
use multi_ai.Tracker.{
  AgentKey, key_beq, key_eq, from_event, TrackerConfig, AgentRecord, Tracker, apply, get, update,
  admit, transition, record_for, is_authoritative, scrape_may_override,
}
use multi_ai.Tracker.Redelivery.{apply_unmoved}

-- The agent's record after an event, and every other agent's.
pub get-apply :
    (t : Tracker) (h : Text) (ev : AgentEvent) (k : AgentKey)
    → let j : AgentKey = from_event h ev in
      get (apply t h ev).0 k
      ≡ (if key_beq j k then some (update t.cfg j (record_for t j ev) ev).0 else get t k)
unfolding apply
get-apply t h ev k = Map.get-insert _ k _ t.agents

-- While a hook event is newer than the configured time, a scrape event changes nothing and raises
-- no alert, unless it moves an agent that waits for the user (needs input, or done) to working.
pub scrape_yields :
    (t : Tracker) (h : Text) (ev : AgentEvent) (r : AgentRecord) (heard : ℕ)
    → get t (from_event h ev) ≡ some r
    → ev.source ≡ scrape
    → r.last_hook_ms ≡ some heard
    → ev.ts_ms - heard < t.cfg.hook_authority_ms
    → scrape_may_override r.state ev.state ≡ false
    → apply t h ev ≡ (t, none)
scrape_yields t h ev r heard e s l fresh blocked =
    apply_unmoved t h ev r e (unfold update admit transition in ground arith)

pub get-apply_self :
    (t : Tracker) (h : Text) (ev : AgentEvent)
    → get (apply t h ev).0 (from_event h ev)
      ≡ some (update t.cfg (from_event h ev) (record_for t (from_event h ev) ev) ev).0
unfolding apply
get-apply_self t h ev = Map.get-insert_self _ _ t.agents

update_newer :
    (cfg : TrackerConfig) (k : AgentKey) (r : AgentRecord) (ev : AgentEvent) (o : ℕ)
    → ev.source ≡ hook
    → ev.spool_offset ≡ some o
    → is_some_and r.last_hook_offset (λ prev. leb o prev) ≡ false
    → ((update cfg k r ev).0.state ≡ ev.state)
      × ((update cfg k r ev).0.last_hook_offset ≡ some o)
      × ((update cfg k r ev).0.last_hook_ms ≡ some ev.ts_ms)
unfolding update admit transition
update_newer cfg k r ev o s c newer = ground (arith, state_beq_iff r.state ev.state)

older_cursor :
    (last : Option ℕ) (o : ℕ)
    → ((p : ℕ) → last ≡ some p → p < o)
    → is_some_and last (λ prev. leb o prev) ≡ false
older_cursor none o newer = refl
older_cursor (some p) o newer = ground (arith, newer p refl)

-- A hook event whose cursor is past the record's is never lost: the agent has its state, and the
-- record its cursor and its time.
pub newer_hook_applies :
    (t : Tracker) (h : Text) (ev : AgentEvent) (o : ℕ)
    → ev.source ≡ hook
    → ev.spool_offset ≡ some o
    → ((p : ℕ) → (record_for t (from_event h ev) ev).last_hook_offset ≡ some p → p < o)
    → (r : AgentRecord) × (get (apply t h ev).0 (from_event h ev) ≡ some r)
      × (r.state ≡ ev.state)
      × (r.last_hook_offset ≡ some o)
      × (r.last_hook_ms ≡ some ev.ts_ms)
newer_hook_applies t h ev o s c newer =
    let j : AgentKey = from_event h ev in
    let r : AgentRecord = record_for t j ev in
    let (a, b, d) = update_newer t.cfg j r ev o s c (older_cursor r.last_hook_offset o newer) in
    ((update t.cfg j r ev).0, get-apply_self t h ev, a, b, d)

update_scraped :
    (cfg : TrackerConfig) (k : AgentKey) (r : AgentRecord) (ev : AgentEvent)
    → ev.source ≡ scrape
    → is_authoritative cfg r ev.ts_ms ≡ false
    → (update cfg k r ev).0.state ≡ ev.state
unfolding update admit transition
update_scraped cfg k r ev s stale = ground (arith, state_beq_iff r.state ev.state)

stale_hook :
    (cfg : TrackerConfig) (r : AgentRecord) (ts : ℕ)
    → ((heard : ℕ) → r.last_hook_ms ≡ some heard → cfg.hook_authority_ms ≤ ts - heard)
    → is_authoritative cfg r ts ≡ false
unfolding is_authoritative
stale_hook cfg r ts stale = elim (Option-cases r.last_hook_ms) [
  | inl e ↦ ground (arith, e)
  | inr (heard, e) ↦ ground (arith, e, stale heard e)
]

-- Once an agent has had no hook event for the configured time, or never had one, a scrape event
-- decides its state.
pub silent_agent_scraped :
    (t : Tracker) (h : Text) (ev : AgentEvent)
    → ev.source ≡ scrape
    → ((heard : ℕ)
        → (record_for t (from_event h ev) ev).last_hook_ms ≡ some heard
        → t.cfg.hook_authority_ms ≤ ev.ts_ms - heard)
    → (r : AgentRecord) × (get (apply t h ev).0 (from_event h ev) ≡ some r) × (r.state ≡ ev.state)
silent_agent_scraped t h ev s stale =
    let j : AgentKey = from_event h ev in
    let r : AgentRecord = record_for t j ev in
    (
      (update t.cfg j r ev).0,
      get-apply_self t h ev,
      update_scraped t.cfg j r ev s (stale_hook t.cfg r ev.ts_ms stale),
    )
