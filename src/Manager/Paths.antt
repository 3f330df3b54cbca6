-- ===== src/Manager/Paths.antt =====
-- crates/mai-core/src/manager.rs: the zellij binaries that terminals are attached with.
use multi_ai.Base.{
  ℕ, ◌≡◌, ◌≢◌, refl, ap, sym, ◌∙◌, Option, none, some, List, [], ◌∷◌, arith, Text, list_eq, nat_eq,
  list_beq_iff, ◌==◌, Bool-cases, Option-cases, inl, inr, unwrap_or,
}
use multi_ai.Map
use multi_ai.Protocol.{HelloInfo, ProbeMsg, agent_event}
use multi_ai.Host.{HostEvent, hello, msg}
use multi_ai.Tracker.{AgentKey, TrackerConfig}
use multi_ai.Monitor.{Monitor, HostView, empty_view, view_of, set_view, apply, apply_msg}
use multi_ai.Monitor
use multi_ai.Monitor.Isolation.{event_views}
use multi_ai.Manager.{
  MonitorTask, acknowledge, on_ctl, on_event, learn_path, System, Call, add, remove, seen, arrives,
  step, start, run,
}
use multi_ai.Manager.Incarnations.{
  without_host, add_new, add_again, remove_known, remove_unknown, on_event_stale, on_event_current,
  event-cases,
}

-- The binary that the last greeting of a host told.
abbrev pub told : Option HelloInfo → Option Text
told none = none
told (some info) = info.zellij_path

abbrev pub known : Monitor → Text → Option Text
known m id = told (view_of m id).hello

abbrev pub PathsKnown : MonitorTask → Type 0
PathsKnown t = (id : Text) → Map.get id t.zellij ≡ known t.monitor id

-- What an event tells.
abbrev heard : Option HelloInfo → HostEvent → Option HelloInfo
heard before (hello info) = some info
heard before _ = before

view-set_view : (m : Monitor) (id : Text) (v : HostView) → view_of (set_view m id v) id ≡ v
view-set_view m id v = rw Map.get-insert_self

msg-hello :
    (m : Monitor) (id : Text) (x : ProbeMsg) (now : ℕ)
    → (view_of (apply_msg m id x now).0 id).hello ≡ (view_of m id).hello
unfolding apply_msg
msg-hello m id (agent_event ev) now = ap (λ (v : HostView). v.hello) (view-set_view m id _)
msg-hello m id _ now = ap (λ (v : HostView). v.hello) (view-set_view m id _)

apply-hello :
    (m : Monitor) (id : Text) (ev : HostEvent) (now : ℕ)
    → (view_of (apply m id ev now).0 id).hello ≡ heard (view_of m id).hello ev
unfolding apply
apply-hello m id (msg x) now =
    msg-hello (set_view m id (view_of m id)) id x now
    ∙ ap (λ (v : HostView). v.hello) (view-set_view m id (view_of m id))
apply-hello m id _ now = ap (λ (v : HostView). v.hello) (view-set_view m id _)

learn_path_self :
    (paths : Map.Map Text Text) (id : Text) (ev : HostEvent) (h : Option HelloInfo)
    → Map.get id paths ≡ told h
    → Map.get id (learn_path paths id ev) ≡ told (heard h ev)
unfolding learn_path
learn_path_self paths id (hello info) h e = elim (Option-cases info.zellij_path) [
  | inl n ↦ ground (arith, n, Map.get-remove id id paths, list_beq_iff id id)
  | inr (p, n) ↦ ground (arith, n, Map.get-insert_self id p paths)
]
learn_path_self paths id _ h e = e

learn_path_other :
    (paths : Map.Map Text Text) (id j : Text) (ev : HostEvent)
    → j ≢ id
    → Map.get j (learn_path paths id ev) ≡ Map.get j paths
unfolding learn_path
learn_path_other paths id j (hello info) ne = elim (Option-cases info.zellij_path) [
  | inl n ↦ ground (arith, n, Map.get-remove id j paths, list_beq_iff id j)
  | inr (p, n) ↦ ground (arith, n, Map.get-insert_ne id j p paths ne)
]
learn_path_other paths id j _ ne = refl

applied-PathsKnown :
    (t : MonitorTask) (id : Text) (ev : HostEvent) (now : ℕ)
    → PathsKnown t
    → PathsKnown
        (record t { monitor = (apply t.monitor id ev now).0; zellij = learn_path t.zellij id ev })
applied-PathsKnown t id ev now v j = elim (Bool-cases (j == id)) [
  | inl y ↦
      let same : j ≡ id = (list_beq_iff j id).0 y in
      rw same (
        learn_path_self t.zellij id ev (view_of t.monitor id).hello (v id)
        ∙ sym (ap told (apply-hello t.monitor id ev now)))
  | inr n ↦
      let ne : j ≢ id = λ e. cc (n, (list_beq_iff j id).1 e) in
      learn_path_other t.zellij id j ev ne
      ∙ (v j
          ∙ sym (
              ap (λ o. told (unwrap_or o empty_view).hello) (event_views t.monitor id ev now j ne)))
]

event-PathsKnown :
    (t : MonitorTask) (id : Text) (g : ℕ) (ev : HostEvent) (now : ℕ)
    → PathsKnown t
    → PathsKnown (on_event t id g ev now).0
event-PathsKnown t id g ev now v = elim (event-cases t id g) [
  | inl y ↦ rw (on_event_current t id g ev now y) (applied-PathsKnown t id ev now v)
  | inr n ↦ rw (on_event_stale t id g ev now n) v
]

removed-PathsKnown :
    (s : System) (id : Text) → PathsKnown s.task → PathsKnown (without_host s id).task
unfolding Monitor.remove_host
removed-PathsKnown s id v j =
    ground (arith, Map.get-remove id j s.task.zellij, Map.get-remove id j s.task.monitor.hosts, v j)

acknowledge-hosts : (m : Monitor) (key : AgentKey) → (Monitor.acknowledge m key).0.hosts ≡ m.hosts
unfolding Monitor.acknowledge
acknowledge-hosts m key = ground arith

seen-PathsKnown :
    (t : MonitorTask) (key : AgentKey) → PathsKnown t → PathsKnown (on_ctl t (acknowledge key)).0
unfolding on_ctl
seen-PathsKnown t key v j =
    v j
    ∙ sym (
        ap (λ h. told (unwrap_or (Map.get j h) empty_view).hello) (acknowledge-hosts t.monitor key))

step-PathsKnown : (s : System) (c : Call) → PathsKnown s.task → PathsKnown (step s c).0.task
step-PathsKnown s (add id) v = elim (Option-cases (Map.get id s.manager.hosts)) [
  | inl e ↦ rw (add_new s id e) v
  | inr (t, e) ↦ rw (add_again s id t e) v
]
step-PathsKnown s (remove id) v = elim (Option-cases (Map.get id s.manager.hosts)) [
  | inl e ↦ rw (remove_unknown s id e) v
  | inr (t, e) ↦ rw (remove_known s id t e) (removed-PathsKnown s id v)
]
step-PathsKnown s (seen key) v = unfold step in seen-PathsKnown s.task key v
step-PathsKnown s (arrives id g ev now) v = unfold step in event-PathsKnown s.task id g ev now v

run-PathsKnown : (s : System) (cs : List Call) → PathsKnown s.task → PathsKnown (run s cs).task
unfolding run
run-PathsKnown s [] v = v
run-PathsKnown s (c ∷ cs) v = run-PathsKnown (step s c).0 cs (step-PathsKnown s c v)

-- Whatever calls are made, the zellij binary that terminals of a host are attached with is the one
-- that the greeting shown for that host told; there is none exactly if no greeting is shown or it
-- told none.
pub started-PathsKnown :
    (cfg : TrackerConfig) (cs : List Call) → PathsKnown (run (start cfg) cs).task
started-PathsKnown cfg cs =
    run-PathsKnown (start cfg) cs (unfold start Monitor.new Map.get in λ j. refl)
