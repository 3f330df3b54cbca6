-- ===== src/Tracker/Spacing.antt =====
-- crates/mai-core/src/tracker.rs: alerts that repeat one another are kept apart.
use multi_ai.Base.{
  ℕ, ◌-◌, ◌≤◌, ◌≡◌, refl, sym, ap, ◌∙◌, none, some, List, [], ◌∷◌, arith, Text, Option-cases,
  Bool-cases, inl, inr,
}
use multi_ai.Protocol.{AgentEvent, AgentState}
use multi_ai.Map
use multi_ai.Tracker.{
  AgentKey, key_beq, key_beq_iff, key_eq, from_event, TrackerConfig, AgentRecord, Alert, Tracker,
  apply, pane_gone, acknowledge, get, update, record_for,
}
use multi_ai.Tracker.Invariant.{Op, event, gone, seen, step, run}
use multi_ai.Tracker.Authority.{get-apply, get-apply_self}
use multi_ai.Tracker.Alerts.{alert_sound, update_quiet, update_spaced}

-- No call of the history alerts for agent `k`.
abbrev NoAlert : Tracker → AgentKey → Op → Type 0
NoAlert t k (event h ev) = from_event h ev ≡ k → (apply t h ev).1 ≡ none
NoAlert t k (gone j now) = Unit
NoAlert t k (seen j) = Unit

abbrev pub Quiet : Tracker → AgentKey → List Op → Type 0
Quiet t k [] = Unit
Quiet t k (o ∷ os) = NoAlert t k o × Quiet (step t o) k os

-- The last alert of agent `k` was for state `s`, at time `ts`.
abbrev Alerted : Tracker → AgentKey → AgentState → ℕ → Type 0
Alerted t k s ts = (r : AgentRecord) × (get t k ≡ some r) × (r.last_alert ≡ some (s, ts))

apply-alert :
    (t : Tracker) (h : Text) (ev : AgentEvent)
    → (apply t h ev).1 ≡ (update t.cfg (from_event h ev) (record_for t (from_event h ev) ev) ev).1
unfolding apply
apply-alert t h ev = refl

record_for-get :
    (t : Tracker) (h : Text) (ev : AgentEvent) (r : AgentRecord)
    → get t (from_event h ev) ≡ some r
    → record_for t (from_event h ev) ev ≡ r
record_for-get t h ev r e = rw e

apply-Alerted :
    (t : Tracker) (h : Text) (ev : AgentEvent) (k : AgentKey) (s : AgentState) (ts : ℕ)
    → NoAlert t k (event h ev)
    → Alerted t k s ts
    → Alerted (apply t h ev).0 k s ts
apply-Alerted t h ev k s ts quiet (r, e, l) = elim (Bool-cases (key_beq (from_event h ev) k)) [
  | inl same ↦
      let p = (key_beq_iff (from_event h ev) k).0 same in
      let u =
        update_quiet t.cfg (from_event h ev) (record_for t (from_event h ev) ev) ev
          (sym (apply-alert t h ev) ∙ quiet p) in
      let q = record_for-get t h ev r (rw p e) in
      (
        (update t.cfg (from_event h ev) (record_for t (from_event h ev) ev) ev).0,
        rw (← p) (get-apply_self t h ev),
        u ∙ ap (λ (x : AgentRecord). x.last_alert) q ∙ l,
      )
  | inr other ↦ (r, rw (get-apply t h ev k, other) e, l)
]

-- Writing a record with the last alert of the one that stood there.
write-Alerted :
    (t : Tracker) (j k : AgentKey) (r r' : AgentRecord) (s : AgentState) (ts : ℕ)
    → get t j ≡ some r
    → r'.last_alert ≡ r.last_alert
    → Alerted t k s ts
    → Alerted (record t { agents = Map.insert j r' t.agents }) k s ts
write-Alerted t j k r r' s ts e same (x, ex, l) = elim (Bool-cases (key_beq j k)) [
  | inl hit ↦ (r', rw (Map.get-insert j k r' t.agents, hit) refl, ground (arith, key_beq_iff j k))
  | inr miss ↦ (x, rw (Map.get-insert j k r' t.agents, miss) ex, l)
]

step-Alerted :
    (t : Tracker) (o : Op) (k : AgentKey) (s : AgentState) (ts : ℕ)
    → NoAlert t k o
    → Alerted t k s ts
    → Alerted (step t o) k s ts
unfolding step pane_gone acknowledge
step-Alerted t (event h ev) k s ts quiet a = apply-Alerted t h ev k s ts quiet a
step-Alerted t (gone j now) k s ts quiet a = elim (Option-cases (get t j)) [
  | inl e ↦ rw (e, step, pane_gone) a
  | inr (r, e) ↦ rw (e, step, pane_gone) (write-Alerted t j k r _ s ts e refl a)
]
step-Alerted t (seen j) k s ts quiet a = elim (Option-cases (get t j)) [
  | inl e ↦ rw (e, step, acknowledge) a
  | inr (r, e) ↦ rw (e, step, acknowledge) (write-Alerted t j k r _ s ts e refl a)
]

run-Alerted :
    (t : Tracker) (os : List Op) (k : AgentKey) (s : AgentState) (ts : ℕ)
    → Quiet t k os
    → Alerted t k s ts
    → Alerted (run t os) k s ts
unfolding run
run-Alerted t [] k s ts q a = a
run-Alerted t (o ∷ os) k s ts q a =
    run-Alerted (step t o) os k s ts q.1 (step-Alerted t o k s ts q.0 a)

step-cfg : (t : Tracker) (o : Op) → (step t o).cfg ≡ t.cfg
unfolding step apply pane_gone acknowledge
step-cfg t (event h ev) = refl
step-cfg t (gone j now) = ground arith
step-cfg t (seen j) = ground arith

run-cfg : (t : Tracker) (os : List Op) → (run t os).cfg ≡ t.cfg
unfolding run
run-cfg t [] = refl
run-cfg t (o ∷ os) = run-cfg (step t o) os ∙ step-cfg t o

apply-cfg : (t : Tracker) (h : Text) (ev : AgentEvent) → (apply t h ev).0.cfg ≡ t.cfg
unfolding apply
apply-cfg t h ev = refl

-- Two alerts of one agent for the same state, with no other alert of that agent between them, are
-- at least the configured time apart, whatever else happens between.
pub alerts_spaced :
    (t : Tracker) (h : Text) (ev ev' : AgentEvent) (between : List Op) (a b : Alert)
    → (apply t h ev).1 ≡ some a
    → Quiet (apply t h ev).0 (from_event h ev) between
    → from_event h ev' ≡ from_event h ev
    → (apply (run (apply t h ev).0 between) h ev').1 ≡ some b
    → b.state ≡ a.state
    → t.cfg.alert_dedupe_ms ≤ ev'.ts_ms - ev.ts_ms
alerts_spaced t h ev ev' between a b first quiet key second same =
    let (r, e, v) = alert_sound t h ev a first in
    let t1 : Tracker = (apply t h ev).0 in
    let t2 : Tracker = run t1 between in
    let (x, ex, l) =
      run-Alerted t1 between (from_event h ev) b.state ev.ts_ms quiet
        (r, e, v.noted ∙ ap (λ s. some (s, ev.ts_ms)) (sym (same ∙ v.state))) in
    let k : AgentKey = from_event h ev' in
    let spaced =
      update_spaced t2.cfg k (record_for t2 k ev') ev' b ev.ts_ms
        (ap (λ (y : AgentRecord). y.last_alert) (record_for-get t2 h ev' x (rw key ex)) ∙ l)
        (sym (apply-alert t2 h ev') ∙ second) in
    rw (← (ap (λ (c : TrackerConfig). c.alert_dedupe_ms) (run-cfg t1 between ∙ apply-cfg t h ev)))
      spaced
