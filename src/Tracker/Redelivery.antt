-- ===== src/Tracker/Redelivery.antt =====
-- crates/mai-core/src/tracker.rs: the probe delivers hook events at least once (it resumes after
-- the last acknowledged cursor); the tracker makes each count once.
use multi_ai.Base.{
  ℕ, ◌≡◌, refl, Bool, true, false, Option, none, some, List, [], ◌∷◌, ◌++◌, arith, Text, leb,
  Option-cases, inl, inr, is_some_and, All, to_list,
}
use multi_ai.Protocol.{AgentEvent, hook}
use multi_ai.Map
use multi_ai.Tracker.{
  AgentKey, key_beq_iff, key_eq, from_event, TrackerConfig, AgentRecord, Alert, Tracker, apply,
  pane_gone, acknowledge, get, update, admit, transition, record_for,
}
use multi_ai.Tracker.Invariant.{Op, event, gone, seen, step, run}

-- A batch of events of one host, with the alerts that it raises.
unfoldable pub apply_all : Tracker → Text → List AgentEvent → Tracker × List Alert
apply_all t host_id [] = (t, [])
apply_all t host_id (ev ∷ evs) =
    let (t', alert) = apply t host_id ev in
    let (t'', alerts) = apply_all t' host_id evs in (t'', to_list alert ++ alerts)

-- The agent's record has the cursor of a hook event, or a later one.
unfoldable pub reached : Option AgentRecord → ℕ → Bool
reached none o = false
reached (some r) o = is_some_and r.last_hook_offset (λ prev. leb o prev)

abbrev pub Heard : Tracker → AgentKey → ℕ → Type 0
Heard t k o = reached (get t k) o ≡ true

abbrev pub IsHookAt : AgentEvent → ℕ → Type 0
IsHookAt ev o = (ev.source ≡ hook) × (ev.spool_offset ≡ some o)

update-reached :
    (cfg : TrackerConfig) (k : AgentKey) (r : AgentRecord) (ev : AgentEvent) (o : ℕ)
    → reached (some r) o ≡ true
    → reached (some (update cfg k r ev).0) o ≡ true
unfolding update admit transition reached
update-reached cfg k r ev o h = ground arith

update_reaches :
    (cfg : TrackerConfig) (k : AgentKey) (r : AgentRecord) (ev : AgentEvent) (o : ℕ)
    → IsHookAt ev o
    → reached (some (update cfg k r ev).0) o ≡ true
unfolding update admit transition reached
update_reaches cfg k r ev o h = ground arith

update_ignores :
    (cfg : TrackerConfig) (k : AgentKey) (r : AgentRecord) (ev : AgentEvent) (o : ℕ)
    → IsHookAt ev o
    → reached (some r) o ≡ true
    → update cfg k r ev ≡ (r, none)
unfolding update admit transition reached
update_ignores cfg k r ev o h e = ground arith

apply-Heard :
    (t : Tracker) (h : Text) (ev : AgentEvent) (k : AgentKey) (o : ℕ)
    → Heard t k o
    → Heard (apply t h ev).0 k o
unfolding apply reached
apply-Heard t h ev k o heard =
    let j : AgentKey = from_event h ev in
    ground (
      arith,
      Map.get-insert j k (update t.cfg j (record_for t j ev) ev).0 t.agents,
      key_beq_iff j k,
      update-reached t.cfg j (record_for t j ev) ev o,
    )

-- Writing a record with the cursor of the one that stood there.
write-Heard :
    (t : Tracker) (j k : AgentKey) (r r' : AgentRecord) (o : ℕ)
    → get t j ≡ some r
    → r'.last_hook_offset ≡ r.last_hook_offset
    → Heard t k o
    → Heard (record t { agents = Map.insert j r' t.agents }) k o
unfolding reached
write-Heard t j k r r' o e same heard =
    ground (arith, Map.get-insert j k r' t.agents, key_beq_iff j k)

pane_gone-Heard :
    (t : Tracker) (j : AgentKey) (now : ℕ) (k : AgentKey) (o : ℕ)
    → Heard t k o
    → Heard (pane_gone t j now) k o
unfolding pane_gone reached
pane_gone-Heard t j now k o heard = elim (Option-cases (get t j)) [
  | inl e ↦ rw (e, pane_gone) heard
  | inr (r, e) ↦ rw (e, pane_gone) (write-Heard t j k r _ o e refl heard)
]

acknowledge-Heard :
    (t : Tracker) (j k : AgentKey) (o : ℕ) → Heard t k o → Heard (acknowledge t j).0 k o
unfolding acknowledge reached
acknowledge-Heard t j k o heard = elim (Option-cases (get t j)) [
  | inl e ↦ rw (e, acknowledge) heard
  | inr (r, e) ↦ rw (e, acknowledge) (write-Heard t j k r _ o e refl heard)
]

step-Heard : (t : Tracker) (o : Op) (k : AgentKey) (c : ℕ) → Heard t k c → Heard (step t o) k c
unfolding step
step-Heard t (event h ev) k c heard = apply-Heard t h ev k c heard
step-Heard t (gone j now) k c heard = pane_gone-Heard t j now k c heard
step-Heard t (seen j) k c heard = acknowledge-Heard t j k c heard

run-Heard : (t : Tracker) (os : List Op) (k : AgentKey) (c : ℕ) → Heard t k c → Heard (run t os) k c
unfolding run
run-Heard t [] k c heard = heard
run-Heard t (o ∷ os) k c heard = run-Heard (step t o) os k c (step-Heard t o k c heard)

apply_hears :
    (t : Tracker) (h : Text) (ev : AgentEvent) (o : ℕ)
    → IsHookAt ev o
    → Heard (apply t h ev).0 (from_event h ev) o
unfolding apply reached
apply_hears t h ev o hk =
    let j : AgentKey = from_event h ev in
    ground (
      arith,
      Map.get-insert_self j (update t.cfg j (record_for t j ev) ev).0 t.agents,
      update_reaches t.cfg j (record_for t j ev) ev o,
    )

-- An update that keeps the record keeps the tracker.
pub apply_unmoved :
    (t : Tracker) (h : Text) (ev : AgentEvent) (r : AgentRecord)
    → get t (from_event h ev) ≡ some r
    → update t.cfg (from_event h ev) r ev ≡ (r, none)
    → apply t h ev ≡ (t, none)
unfolding apply
apply_unmoved t h ev r e u = ground (arith, e, u, Map.insert-get_self (from_event h ev) r t.agents)

-- An event whose cursor the record has reached changes nothing and raises no alert.
apply-Heard' :
    (t : Tracker) (h : Text) (ev : AgentEvent) (o : ℕ)
    → IsHookAt ev o
    → Heard t (from_event h ev) o
    → apply t h ev ≡ (t, none)
unfolding reached
apply-Heard' t h ev o hk heard = elim (Option-cases (get t (from_event h ev))) [
  | inl e ↦ ground (arith, e)
  | inr (r, e) ↦
      apply_unmoved t h ev r e
        (update_ignores t.cfg (from_event h ev) r ev o hk (ground (arith, e)))
]

-- Every event of the batch is a hook event with a cursor.
abbrev pub AreHooks : List AgentEvent → Type 0
AreHooks = All (λ ev. (o : ℕ) × (ev.source ≡ hook) × (ev.spool_offset ≡ some o))

abbrev AreHeard : Tracker → Text → List AgentEvent → Type 0
AreHeard t h =
    All (λ ev.
      (o : ℕ) × (ev.source ≡ hook) × (ev.spool_offset ≡ some o) × Heard t (from_event h ev) o)

AreHeard-run :
    (t : Tracker) (h : Text) (os : List Op) (evs : List AgentEvent)
    → AreHeard t h evs
    → AreHeard (run t os) h evs
AreHeard-run t h os [] a = tt
AreHeard-run t h os (ev ∷ evs) a = (
  (a.0.0, a.0.1, a.0.2, run-Heard t os (from_event h ev) a.0.0 a.0.3),
  AreHeard-run t h os evs a.1,
)

apply_all-AreHeard :
    (t : Tracker) (h : Text) (evs : List AgentEvent) (k : AgentKey) (o : ℕ)
    → Heard t k o
    → Heard (apply_all t h evs).0 k o
unfolding apply_all
apply_all-AreHeard t h [] k o heard = heard
apply_all-AreHeard t h (ev ∷ evs) k o heard =
    apply_all-AreHeard (apply t h ev).0 h evs k o (apply-Heard t h ev k o heard)

apply_all_hears :
    (t : Tracker) (h : Text) (evs : List AgentEvent)
    → AreHooks evs
    → AreHeard (apply_all t h evs).0 h evs
unfolding apply_all
apply_all_hears t h [] a = tt
apply_all_hears t h (ev ∷ evs) a = (
  (
    a.0.0,
    a.0.1,
    a.0.2,
    apply_all-AreHeard (apply t h ev).0 h evs (from_event h ev) a.0.0
        (apply_hears t h ev a.0.0 (a.0.1, a.0.2)),
  ),
  apply_all_hears (apply t h ev).0 h evs a.1,
)

apply_all_heard :
    (t : Tracker) (h : Text) (evs : List AgentEvent)
    → AreHeard t h evs
    → apply_all t h evs ≡ (t, [])
unfolding apply_all
apply_all_heard t h [] a = refl
apply_all_heard t h (ev ∷ evs) a =
    rw (apply-Heard' t h ev a.0.0 (a.0.1, a.0.2) a.0.3) (rw (apply_all_heard t h evs a.1))

-- When a batch of hook events with cursors is delivered again, after any other calls, the tracker
-- does not change and no alert is raised.
pub redelivery :
    (t : Tracker) (h : Text) (evs : List AgentEvent) (between : List Op)
    → AreHooks evs
    → let t' : Tracker = run (apply_all t h evs).0 between in apply_all t' h evs ≡ (t', [])
redelivery t h evs between a =
    apply_all_heard _ h evs
      (AreHeard-run (apply_all t h evs).0 h between evs (apply_all_hears t h evs a))
