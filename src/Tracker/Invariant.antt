-- ===== src/Tracker/Invariant.antt =====
-- crates/mai-core/src/tracker.rs: what holds of every tracker that the operations can build.
use multi_ai.Base.{
  ℕ, ◌≡◌, refl, true, false, some, List, [], ◌∷◌, arith, Text, Option-cases, inl, inr,
}
use multi_ai.Protocol.{AgentEvent}
use multi_ai.Map
use multi_ai.Map.{Map}
use multi_ai.Tracker.{
  AgentKey, key_eq, from_event, TrackerConfig, AgentRecord, Tracker, new, apply, pane_gone,
  acknowledge, get, is_alerting, update, admit, transition, record_for,
}

-- The calls that change a tracker.
pub data Op : Type 0 where
  event : Text → AgentEvent → Op
  gone : AgentKey → ℕ → Op
  seen : AgentKey → Op

unfoldable pub step : Tracker → Op → Tracker
step t (event host_id ev) = (apply t host_id ev).0
step t (gone key now_ms) = pane_gone t key now_ms
step t (seen key) = (acknowledge t key).0

unfoldable pub run : Tracker → List Op → Tracker
run t [] = t
run t (o ∷ os) = run (step t o) os

-- A record stands under its own key, and only an alerting state waits for the user.
pub record IsValidRecord (k : AgentKey) (r : AgentRecord) : Type 0 where
  pub keyed : r.key ≡ k
  pub waiting : r.acknowledged ≡ false → is_alerting r.state ≡ true

pub record IsValid (t : Tracker) : Type 0 where
  pub distinct : Map.Distinct t.agents
  pub at : (k : AgentKey) (r : AgentRecord) → get t k ≡ some r → IsValidRecord k r

update-IsValidRecord :
    (cfg : TrackerConfig) (k : AgentKey) (r : AgentRecord) (ev : AgentEvent)
    → IsValidRecord k r
    → IsValidRecord k (update cfg k r ev).0
unfolding update admit transition
update-IsValidRecord cfg k r ev v = ground arith

-- Writing a valid record keeps the tracker valid.
write-IsValid :
    (t : Tracker) (k : AgentKey) (r : AgentRecord)
    → IsValid t
    → IsValidRecord k r
    → IsValid (record t { agents = Map.insert k r t.agents })
write-IsValid t k r v w = record {
  distinct = Map.insert-Distinct k r t.agents v.distinct;
  at = λ j x e. elim (Map.get-insert_cases k j r t.agents e) [
    | inl (ej, ex) ↦ rw (ej, ex) w
    | inr old ↦ v.at j x old
  ];
}

record_for-IsValidRecord :
    (t : Tracker) (k : AgentKey) (ev : AgentEvent) → IsValid t → IsValidRecord k (record_for t k ev)
record_for-IsValidRecord t k ev v = elim (Option-cases (get t k)) [
  | inl e ↦ rw e (record { keyed = refl; waiting = λ h. cc })
  | inr (r, e) ↦ rw e (v.at k r e)
]

pub apply-IsValid :
    (t : Tracker) (h : Text) (ev : AgentEvent) → IsValid t → IsValid (apply t h ev).0
unfolding apply
apply-IsValid t h ev v =
    let k : AgentKey = from_event h ev in
    write-IsValid t _ _ v
      (update-IsValidRecord t.cfg k (record_for t k ev) ev (record_for-IsValidRecord t k ev v))

pub pane_gone-IsValid :
    (t : Tracker) (k : AgentKey) (now : ℕ) → IsValid t → IsValid (pane_gone t k now)
unfolding pane_gone
pane_gone-IsValid t k now v = elim (Option-cases (get t k)) [
  | inl e ↦ rw (e, pane_gone) v
  | inr (r, e) ↦
      rw (e, pane_gone)
        (write-IsValid t k _ v (record { keyed = (v.at k r e).keyed; waiting = λ h. cc }))
]

pub acknowledge-IsValid : (t : Tracker) (k : AgentKey) → IsValid t → IsValid (acknowledge t k).0
unfolding acknowledge
acknowledge-IsValid t k v = elim (Option-cases (get t k)) [
  | inl e ↦ rw (e, acknowledge) v
  | inr (r, e) ↦
      rw (e, acknowledge)
        (write-IsValid t k _ v (record { keyed = (v.at k r e).keyed; waiting = λ h. cc }))
]

pub step-IsValid : (t : Tracker) (o : Op) → IsValid t → IsValid (step t o)
unfolding step
step-IsValid t (event h ev) = apply-IsValid t h ev
step-IsValid t (gone k now) = pane_gone-IsValid t k now
step-IsValid t (seen k) = acknowledge-IsValid t k

run_from-IsValid : (t : Tracker) (os : List Op) → IsValid t → IsValid (run t os)
unfolding run
run_from-IsValid t [] v = v
run_from-IsValid t (o ∷ os) v = run_from-IsValid (step t o) os (step-IsValid t o v)

pub new-IsValid : (cfg : TrackerConfig) → IsValid (new cfg)
unfolding new Map.get
new-IsValid cfg = record { distinct = tt; at = λ k r e. cc }

-- Whatever calls are made of a new tracker, no agent has two records, each record stands under its
-- own key, and a record that is not acknowledged is in an alerting state.
pub run-IsValid : (cfg : TrackerConfig) (os : List Op) → IsValid (run (new cfg) os)
run-IsValid cfg os = run_from-IsValid (new cfg) os (new-IsValid cfg)
