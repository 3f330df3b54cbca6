-- ===== src/Monitor/Gone.antt =====
-- crates/mai-core/src/monitor.rs: what becomes of the agents whose panes are gone.
use multi_ai.Base.{
  ℕ, ◌≡◌, refl, Bool, true, false, ◌&&◌, ◌||◌, not, Option, none, some, List, [], ◌∷◌, arith, Text,
  ◌==◌, nat_eq, list_eq, if◌then◌else◌, any, is_some, is_some_and, Bool-cases, Option-cases, inl,
  inr,
}
use multi_ai.Map
use multi_ai.Map.{Map}
use multi_ai.Map.Values.{Keyed, Keyed-of_get, any_key}
use multi_ai.Protocol.{exited, ProbeMsg, SessionInfo, PaneInfo}
use multi_ai.Tracker.{
  AgentKey, AgentRecord, Tracker, records, key_beq, key_beq_iff, key_eq, pane_gone,
}
use multi_ai.Tracker
use multi_ai.Tracker.Invariant.{IsValid, pane_gone-IsValid}
use multi_ai.Monitor.{
  Update, agent, Monitor, is_gone, mark_gone, agents_gone, session_live, pane_live, apply,
}
use multi_ai.Host.{msg}
use multi_ai.Protocol.Equal.{state_beq, state_eq}

-- The record of an agent whose pane is gone.
abbrev pub left : ℕ → AgentRecord → AgentRecord
left now r = record r { state = exited; since_ms = now; acknowledged = true }

abbrev pub leave_if : Bool → ℕ → Option AgentRecord → Option AgentRecord
leave_if b now none = none
leave_if b now (some r) = if b then some (left now r) else some r

get-pane_gone :
    (t : Tracker) (j k : AgentKey) (now : ℕ)
    → Tracker.get (pane_gone t j now) k ≡ leave_if (j == k) now (Tracker.get t k)
unfolding pane_gone
get-pane_gone t j k now = elim (Option-cases (Tracker.get t j)) [
  | inl e ↦
      rw (e, pane_gone)
        (elim (Bool-cases (j == k)) [
          | inl same ↦
              let q : Tracker.get t k ≡ none = rw (← (key_beq_iff j k).0 same) e in rw q refl
          | inr other ↦ ground (arith, other)
        ])
  | inr (r, e) ↦
      rw (e, pane_gone)
        (ground (arith, e, Map.get-insert j k (left now r) t.agents, key_beq_iff j k))
]

get-mark_gone :
    (t : Tracker) (ks : List AgentKey) (k : AgentKey) (now : ℕ)
    → Tracker.get (mark_gone t ks now).0 k ≡ leave_if (any (λ j. j == k) ks) now (Tracker.get t k)
unfolding mark_gone
get-mark_gone t [] k now = ground arith
get-mark_gone t (j ∷ ks) k now =
    ground (arith, get-mark_gone (pane_gone t j now) ks k now, get-pane_gone t j k now)

-- The agents of `agents_gone` leave, and no others; the tracker holds each agent once.
pub get-agents_gone :
    (t : Tracker) (id : Text) (session : Option Text) (live : Text → ℕ → Bool) (now : ℕ)
    (k : AgentKey)
    → IsValid t
    → Tracker.get (agents_gone t id session live now).0 k
      ≡ leave_if (is_some_and (Tracker.get t k) (is_gone id session live)) now (Tracker.get t k)
unfolding agents_gone
get-agents_gone t id session live now k v =
    let keyed : Keyed (λ (r : AgentRecord). r.key) t.agents =
      Keyed-of_get (λ (r : AgentRecord). r.key) t.agents v.distinct (λ j r g. (v.at j r g).keyed) in
    rw (
      get-mark_gone t _ k now,
      any_key (λ (r : AgentRecord). r.key) (is_gone id session live) k t.agents v.distinct keyed,
    )

-- A session of this name is listed as running.
abbrev pub runs : List SessionInfo → Text → Bool
runs [] name = false
runs (s ∷ ss) name = let rest = runs ss name in if s.exited then rest else (s.name == name) || rest

runs_lem : (ss : List SessionInfo) (name : Text) → session_live ss name ≡ runs ss name
runs_lem [] name = refl
runs_lem (s ∷ ss) name = ground (arith, runs_lem ss name)

-- A pane of this number is listed as running.
abbrev pub runs_pane : List PaneInfo → ℕ → Bool
runs_pane [] pane = false
runs_pane (p ∷ ps) pane =
    let rest = runs_pane ps pane in if p.exited then rest else (p.id == pane) || rest

runs_pane_lem : (ps : List PaneInfo) (pane : ℕ) → pane_live ps pane ≡ runs_pane ps pane
runs_pane_lem [] pane = refl
runs_pane_lem (p ∷ ps) pane = ground (arith, runs_pane_lem ps pane)

-- Whether the agent's pane is gone after a report of the host's sessions: it is not of a session
-- that is listed and has not exited.
abbrev pub lost_session : Text → List SessionInfo → AgentRecord → Bool
lost_session id ss r = (r.key.host_id == id) && not (runs ss r.key.session)

-- After a report of the panes of one session.
abbrev pub lost_pane : Text → Text → List PaneInfo → AgentRecord → Bool
lost_pane id session ps r =
    (r.key.host_id == id) && ((r.key.session == session) && not (runs_pane ps r.key.pane_id))

-- An agent that had exited before keeps its record.
abbrev pub exit_if : (AgentRecord → Bool) → ℕ → AgentRecord → AgentRecord
exit_if gone now r = if gone r && not (state_beq r.state exited) then left now r else r

-- In a monitor with a valid tracker, a report of a host's sessions marks exactly the agents of that
-- host as exited whose session is not listed as running, and changes no other agent; a report of a
-- session's panes does so for the agents of that session whose pane is not listed as running. An
-- agent that had exited before keeps its record.
pub reported_gone :
    (m : Monitor) (id : Text) (now : ℕ) (k : AgentKey) (r : AgentRecord)
    → IsValid m.tracker
    → Tracker.get m.tracker k ≡ some r
    → ((ss : List SessionInfo)
        → Tracker.get (apply m id (msg (ProbeMsg.sessions ss)) now).0.tracker k
          ≡ some (exit_if (lost_session id ss) now r))
      × ((session : Text) (ps : List PaneInfo)
          → Tracker.get (apply m id (msg (ProbeMsg.panes session ps)) now).0.tracker k
            ≡ some (exit_if (lost_pane id session ps) now r))
unfolding apply
reported_gone m id now k r v e = (
  λ ss.
      rw (get-agents_gone m.tracker id none (λ s x. session_live ss s) now k v, e)
        (unfold is_gone in ground (arith, runs_lem ss r.key.session)),
  λ session ps.
      rw (get-agents_gone m.tracker id (some session) (λ x p. pane_live ps p) now k v, e)
        (unfold is_gone in ground (arith, runs_pane_lem ps r.key.pane_id)),
)

-- An update that shows the agent `k` as exited.
abbrev pub shows_exit : AgentKey → Update → Bool
shows_exit k (agent r) = (r.key == k) && (r.state == exited)
shows_exit k u = false

get_same :
    (t : Tracker) (j k : AgentKey)
    → (if j == k then Tracker.get t j else Tracker.get t k) ≡ Tracker.get t k
get_same t j k = elim (Bool-cases (j == k)) [
  | inl same ↦ rw ((key_beq_iff j k).0 same, (key_beq_iff k k).1 refl) refl
  | inr other ↦ rw other
]

pane_gone_unknown :
    (t : Tracker) (j : AgentKey) (now : ℕ) → Tracker.get t j ≡ none → pane_gone t j now ≡ t
unfolding pane_gone
pane_gone_unknown t j now e = rw (e, pane_gone)

mark_gone_unknown :
    (t : Tracker) (j : AgentKey) (ks : List AgentKey) (now : ℕ)
    → Tracker.get t j ≡ none
    → mark_gone t (j ∷ ks) now ≡ mark_gone t ks now
unfolding mark_gone
mark_gone_unknown t j ks now e = ground (arith, pane_gone_unknown t j now e, e)

mark_gone_known :
    (t : Tracker) (j : AgentKey) (ks : List AgentKey) (now : ℕ) (r : AgentRecord)
    → Tracker.get t j ≡ some r
    → (mark_gone t (j ∷ ks) now).1 ≡ agent (left now r) ∷ (mark_gone (pane_gone t j now) ks now).1
unfolding mark_gone
mark_gone_known t j ks now r e = ground (arith, e, get-pane_gone t j j now, key_beq_iff j j)

any-mark_gone :
    (t : Tracker) (ks : List AgentKey) (k : AgentKey) (now : ℕ)
    → IsValid t
    → any (shows_exit k) (mark_gone t ks now).1
      ≡ (any (λ j. j == k) ks && is_some (Tracker.get t k))
unfolding mark_gone state_beq
any-mark_gone t [] k now v = refl
any-mark_gone t (j ∷ ks) k now v = elim (Option-cases (Tracker.get t j)) [
  | inl e ↦
      rw (mark_gone_unknown t j ks now e)
        (ground (arith, any-mark_gone t ks k now v, e, key_beq_iff j k, get_same t j k))
  | inr (r, e) ↦ rw (mark_gone_known t j ks now r e) (
      ground (
        arith,
        any-mark_gone (pane_gone t j now) ks k now (pane_gone-IsValid t j now v),
        get-pane_gone t j k now,
        e,
        (v.at j r e).keyed,
        key_beq_iff j k,
        key_beq_iff r.key k,
        get_same t j k,
      ))
]

-- In a valid tracker the updates of `agents_gone` show an agent as exited exactly if its record
-- passes the filters: it is of the host and the session asked for, had not exited, and its pane is
-- not live.
pub gone_updates :
    (t : Tracker) (id : Text) (session : Option Text) (live : Text → ℕ → Bool) (now : ℕ)
    (k : AgentKey)
    → IsValid t
    → any (shows_exit k) (agents_gone t id session live now).1
      ≡ is_some_and (Tracker.get t k) (is_gone id session live)
unfolding agents_gone
gone_updates t id session live now k v =
    let keyed : Keyed (λ (r : AgentRecord). r.key) t.agents =
      Keyed-of_get (λ (r : AgentRecord). r.key) t.agents v.distinct (λ j r g. (v.at j r g).keyed) in
    rw
      (
        any-mark_gone t _ k now v,
        any_key (λ (r : AgentRecord). r.key) (is_gone id session live) k t.agents v.distinct keyed,
      )
      (ground arith)
