-- ===== src/Monitor/Isolation.antt =====
-- crates/mai-core/src/monitor.rs: what an event of one host leaves alone, and the invariant.
use multi_ai.Base.{
  ℕ, ◌≡◌, ◌≢◌, refl, ap, sym, ◌∙◌, Bool, false, Option, none, some, List, [], ◌∷◌, arith, Text,
  nat_eq, list_eq, list_beq_iff, Option-cases, inl, inr,
}
use multi_ai.Map
use multi_ai.Protocol.{AgentEvent, ProbeMsg, agent_event}
use multi_ai.Host.{HostEvent, msg}
use multi_ai.Tracker.{
  AgentKey, from_event, AgentRecord, Alert, TrackerConfig, key_beq, key_beq_iff, key_eq, record_for,
}
use multi_ai.Tracker
use multi_ai.Tracker.Authority.{get-apply}
use multi_ai.Tracker.Invariant.{
  IsValid, apply-IsValid, pane_gone-IsValid, acknowledge-IsValid, new-IsValid,
}
use multi_ai.Monitor.{
  Monitor, new, apply, apply_msg, acknowledge, remove_host, agents_gone, mark_gone, is_gone,
  set_view, view_of,
}
use multi_ai.Monitor.Gone.{get-agents_gone}

mark_gone-IsValid :
    (t : Tracker.Tracker) (ks : List AgentKey) (now : ℕ)
    → IsValid t
    → IsValid (mark_gone t ks now).0
unfolding mark_gone
mark_gone-IsValid t [] now v = v
mark_gone-IsValid t (k ∷ ks) now v =
    mark_gone-IsValid (Tracker.pane_gone t k now) ks now (pane_gone-IsValid t k now v)

agents_gone-IsValid :
    (t : Tracker.Tracker) (id : Text) (session : Option Text) (live : Text → ℕ → Bool) (now : ℕ)
    → IsValid t
    → IsValid (agents_gone t id session live now).0
unfolding agents_gone
agents_gone-IsValid t id session live now v = mark_gone-IsValid t _ now v

-- The calls of the monitor.
pub data Call : Type 0 where
  event : Text → HostEvent → ℕ → Call
  seen : AgentKey → Call
  removed : Text → Call

unfoldable pub step : Monitor → Call → Monitor
step m (event id ev now) = (apply m id ev now).0
step m (seen key) = (acknowledge m key).0
step m (removed id) = remove_host m id

unfoldable pub run : Monitor → List Call → Monitor
run m [] = m
run m (c ∷ cs) = run (step m c) cs

apply_msg-IsValid :
    (m : Monitor) (id : Text) (x : ProbeMsg) (now : ℕ)
    → IsValid m.tracker
    → IsValid (apply_msg m id x now).0.tracker
unfolding apply_msg
apply_msg-IsValid m id (ProbeMsg.sessions ss) now v = agents_gone-IsValid m.tracker _ _ _ now v
apply_msg-IsValid m id (ProbeMsg.panes s ps) now v = agents_gone-IsValid m.tracker _ _ _ now v
apply_msg-IsValid m id (agent_event ev) now v = apply-IsValid m.tracker id ev v
apply_msg-IsValid m id _ now v = v

apply-keeps :
    (m : Monitor) (id : Text) (ev : HostEvent) (now : ℕ)
    → IsValid m.tracker
    → IsValid (apply m id ev now).0.tracker
unfolding apply
apply-keeps m id (msg x) now v = apply_msg-IsValid (set_view m id (view_of m id)) id x now v
apply-keeps m id _ now v = v

acknowledge-keeps :
    (m : Monitor) (k : AgentKey) → IsValid m.tracker → IsValid (acknowledge m k).0.tracker
unfolding acknowledge
acknowledge-keeps m k v = elim (Option-cases (Tracker.get m.tracker k)) [
  | inl e ↦ rw (e, acknowledge) v
  | inr (r, e) ↦ rw (e, acknowledge) (acknowledge-IsValid m.tracker k v)
]

run_from-IsValid : (m : Monitor) (cs : List Call) → IsValid m.tracker → IsValid (run m cs).tracker
unfolding run step remove_host
run_from-IsValid m [] v = v
run_from-IsValid m (event id ev now ∷ cs) v =
    run_from-IsValid (apply m id ev now).0 cs (apply-keeps m id ev now v)
run_from-IsValid m (seen k ∷ cs) v =
    run_from-IsValid (acknowledge m k).0 cs (acknowledge-keeps m k v)
run_from-IsValid m (removed id ∷ cs) v = run_from-IsValid (remove_host m id) cs v

-- The tracker of a monitor is valid, whatever calls built it.
pub monitor-IsValid : (cfg : TrackerConfig) (cs : List Call) → IsValid (run (new cfg) cs).tracker
unfolding new
monitor-IsValid cfg cs = run_from-IsValid (new cfg) cs (new-IsValid cfg)

other_host :
    (id : Text) (k : AgentKey) (ev : AgentEvent)
    → k.host_id ≢ id
    → key_beq (from_event id ev) k ≡ false
unfolding key_beq
other_host id k ev ne = ground (arith, list_beq_iff id k.host_id)

other_gone :
    (id : Text) (session : Option Text) (live : Text → ℕ → Bool) (r : AgentRecord)
    → r.key.host_id ≢ id
    → is_gone id session live r ≡ false
unfolding is_gone
other_gone id session live r ne = ground (arith, list_beq_iff r.key.host_id id)

-- Agents of another host are not gone.
agents_gone_other :
    (t : Tracker.Tracker) (id : Text) (session : Option Text) (live : Text → ℕ → Bool) (now : ℕ)
    (k : AgentKey)
    → IsValid t
    → k.host_id ≢ id
    → Tracker.get (agents_gone t id session live now).0 k ≡ Tracker.get t k
agents_gone_other t id session live now k v ne =
    rw (get-agents_gone t id session live now k v) (elim (Option-cases (Tracker.get t k)) [
      | inl e ↦ rw e
      | inr (r, e) ↦ rw (
        e,
        other_gone id session live r
            (λ q. ne (ap (λ (x : AgentKey). x.host_id) (sym (v.at k r e).keyed) ∙ q)),
      )
    ])

msg_agents :
    (m : Monitor) (id : Text) (x : ProbeMsg) (now : ℕ) (k : AgentKey)
    → IsValid m.tracker
    → k.host_id ≢ id
    → Tracker.get (apply_msg m id x now).0.tracker k ≡ Tracker.get m.tracker k
unfolding apply_msg
msg_agents m id (ProbeMsg.sessions ss) now k v ne = agents_gone_other m.tracker id none _ now k v ne
msg_agents m id (ProbeMsg.panes s ps) now k v ne =
    agents_gone_other m.tracker id (some s) _ now k v ne
msg_agents m id (agent_event ev) now k v ne =
    rw (get-apply m.tracker id ev k, other_host id k ev ne)
msg_agents m id _ now k v ne = refl

msg_views :
    (m : Monitor) (id : Text) (x : ProbeMsg) (now : ℕ) (other : Text)
    → other ≢ id
    → Map.get other (apply_msg m id x now).0.hosts ≡ Map.get other m.hosts
unfolding apply_msg
msg_views m id (agent_event ev) now other ne = Map.get-insert_ne id other _ m.hosts ne
msg_views m id _ now other ne = Map.get-insert_ne id other _ m.hosts ne

pub event_views :
    (m : Monitor) (id : Text) (ev : HostEvent) (now : ℕ) (other : Text)
    → other ≢ id
    → Map.get other (apply m id ev now).0.hosts ≡ Map.get other m.hosts
unfolding apply
event_views m id (msg x) now other ne =
    msg_views (set_view m id (view_of m id)) id x now other ne
    ∙ Map.get-insert_ne id other (view_of m id) m.hosts ne
event_views m id _ now other ne = Map.get-insert_ne id other _ m.hosts ne

event_agents :
    (m : Monitor) (id : Text) (ev : HostEvent) (now : ℕ) (k : AgentKey)
    → IsValid m.tracker
    → k.host_id ≢ id
    → Tracker.get (apply m id ev now).0.tracker k ≡ Tracker.get m.tracker k
unfolding apply
event_agents m id (msg x) now k v ne = msg_agents (set_view m id (view_of m id)) id x now k v ne
event_agents m id _ now k v ne = refl

-- An event of one host changes neither the view of another host nor any agent of another host.
pub apply_isolated :
    (m : Monitor) (id : Text) (ev : HostEvent) (now : ℕ)
    → IsValid m.tracker
    → ((other : Text)
        → other ≢ id
        → Map.get other (apply m id ev now).0.hosts ≡ Map.get other m.hosts)
      × ((k : AgentKey)
          → k.host_id ≢ id
          → Tracker.get (apply m id ev now).0.tracker k ≡ Tracker.get m.tracker k)
apply_isolated m id ev now v =
    (λ other ne. event_views m id ev now other ne, λ k ne. event_agents m id ev now k v ne)
