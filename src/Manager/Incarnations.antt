-- ===== src/Manager/Incarnations.antt =====
-- crates/mai-core/src/manager.rs: events of an earlier incarnation of a host are dropped.
use multi_ai.Base.{
  ℕ, ◌+◌, ◌≤◌, ◌<◌, ◌≡◌, ◌≢◌, ◌⊎◌, refl, ap, sym, ◌∙◌, true, false, Option, none, some, List, [],
  ◌∷◌, arith, Text, is_some, list_eq, nat_eq, option_eq, option_beq_iff, list_beq_iff, ◌==◌,
  Bool-cases, Option-cases, inl, inr,
}
use multi_ai.Map
use multi_ai.Host.{HostEvent}
use multi_ai.Tracker.{TrackerConfig}
use multi_ai.Monitor
use multi_ai.Monitor.{Update}
use multi_ai.Manager.{
  HostTasks, add_host, remove_host, MonitorTask, on_ctl, on_ctls, on_event, learn_path, System,
  Call, add, remove, seen, arrives, step, start, run,
}

abbrev generation_of : Option HostTasks → Option ℕ
generation_of none = none
generation_of (some t) = some t.generation

-- The monitor task knows the generation of each host of the manager, and of no other; generations
-- are not above the last one given out.
pub record Agrees (s : System) : Type 0 where
  pub same : (id : Text) → Map.get id s.task.current ≡ generation_of (Map.get id s.manager.hosts)
  pub bounded :
      (id : Text) (t : HostTasks)
      → Map.get id s.manager.hosts ≡ some t
      → t.generation ≤ s.manager.generation

-- What the calls do to a system.
abbrev pub with_host : System → Text → System
with_host s id =
    let g : ℕ = s.manager.generation + 1 in
    record {
      manager = record {
        hosts = Map.insert id (record { generation = g }) s.manager.hosts;
        generation = g;
      };
      task = record s.task { current = Map.insert id g s.task.current };
    }

abbrev pub without_host : System → Text → System
without_host s id = record {
  manager = record s.manager { hosts = Map.remove id s.manager.hosts };
  task = record {
    monitor = Monitor.remove_host s.task.monitor id;
    current = Map.remove id s.task.current;
    zellij = Map.remove id s.task.zellij;
  };
}

pub add_new :
    (s : System) (id : Text)
    → Map.get id s.manager.hosts ≡ none
    → (step s (add id)).0 ≡ with_host s id
unfolding step on_ctls on_ctl add_host
add_new s id e = let f : is_some (Map.get id s.manager.hosts) ≡ false = ap is_some e in rw f refl

pub add_again :
    (s : System) (id : Text) (t : HostTasks)
    → Map.get id s.manager.hosts ≡ some t
    → (step s (add id)).0 ≡ s
unfolding step on_ctls on_ctl add_host
add_again s id t e = let f : is_some (Map.get id s.manager.hosts) ≡ true = ap is_some e in rw f refl

pub remove_known :
    (s : System) (id : Text) (t : HostTasks)
    → Map.get id s.manager.hosts ≡ some t
    → (step s (remove id)).0 ≡ without_host s id
unfolding step on_ctls on_ctl remove_host
remove_known s id t e = ground (arith, e)

pub remove_unknown :
    (s : System) (id : Text) → Map.get id s.manager.hosts ≡ none → (step s (remove id)).0 ≡ s
unfolding step on_ctls on_ctl remove_host
remove_unknown s id e = ground (arith, e)

-- An event of another generation than the host's does nothing; one of the host's own generation
-- goes to the monitor.
pub on_event_stale :
    (t : MonitorTask) (id : Text) (g : ℕ) (ev : HostEvent) (now : ℕ)
    → Map.get id t.current ≢ some g
    → on_event t id g ev now ≡ (t, [])
unfolding on_event
on_event_stale t id g ev now ne =
    let f : (Map.get id t.current == some g) ≡ false =
      ground (arith, option_beq_iff (Map.get id t.current) (some g)) in
    rw f refl

pub on_event_current :
    (t : MonitorTask) (id : Text) (g : ℕ) (ev : HostEvent) (now : ℕ)
    → Map.get id t.current ≡ some g
    → on_event t id g ev now ≡ (
      record t {
        monitor = (Monitor.apply t.monitor id ev now).0;
        zellij = learn_path t.zellij id ev;
      },
      (Monitor.apply t.monitor id ev now).1,
    )
unfolding on_event
on_event_current t id g ev now e =
    let f : (Map.get id t.current == some g) ≡ true =
      (option_beq_iff (Map.get id t.current) (some g)).1 e in
    rw f refl

pub event-cases :
    (t : MonitorTask) (id : Text) (g : ℕ)
    → (Map.get id t.current ≡ some g) ⊎ (Map.get id t.current ≢ some g)
event-cases t id g = elim (Bool-cases (Map.get id t.current == some g)) [
  | inl y ↦ inl ((option_beq_iff (Map.get id t.current) (some g)).0 y)
  | inr n ↦ inr (λ e. cc (n, (option_beq_iff (Map.get id t.current) (some g)).1 e))
]

-- Events leave the generations alone.
arrives_keeps :
    (t : MonitorTask) (id : Text) (g : ℕ) (ev : HostEvent) (now : ℕ)
    → (on_event t id g ev now).0.current ≡ t.current
arrives_keeps t id g ev now = elim (event-cases t id g) [
  | inl y ↦ rw (on_event_current t id g ev now y) refl
  | inr n ↦ rw (on_event_stale t id g ev now n) refl
]

with_host-Agrees : (s : System) (id : Text) → Agrees s → Agrees (with_host s id)
with_host-Agrees s id v = record {
  same = λ j. ground (
    arith,
    Map.get-insert id j (s.manager.generation + 1) s.task.current,
    Map.get-insert id j (record { generation = s.manager.generation + 1 }) s.manager.hosts,
    v.same j,
  );
  bounded = λ j t h. ground (
    arith,
    Map.get-insert id j (record { generation = s.manager.generation + 1 }) s.manager.hosts,
    v.bounded j t,
  );
}

without_host-Agrees : (s : System) (id : Text) → Agrees s → Agrees (without_host s id)
without_host-Agrees s id v = record {
  same = λ j.
      ground
        (arith, Map.get-remove id j s.task.current, Map.get-remove id j s.manager.hosts, v.same j);
  bounded = λ j t h. ground (arith, Map.get-remove id j s.manager.hosts, v.bounded j t);
}

step-Agrees : (s : System) (c : Call) → Agrees s → Agrees (step s c).0
unfolding step
step-Agrees s (add id) v = elim (Option-cases (Map.get id s.manager.hosts)) [
  | inl e ↦ rw (add_new s id e) (with_host-Agrees s id v)
  | inr (t, e) ↦ rw (add_again s id t e) v
]
step-Agrees s (remove id) v = elim (Option-cases (Map.get id s.manager.hosts)) [
  | inl e ↦ rw (remove_unknown s id e) v
  | inr (t, e) ↦ rw (remove_known s id t e) (without_host-Agrees s id v)
]
step-Agrees s (seen key) v = unfold on_ctl in record { same = v.same; bounded = v.bounded }
step-Agrees s (arrives id g ev now) v = record {
  same = λ j. ap (Map.get j) (arrives_keeps s.task id g ev now) ∙ v.same j;
  bounded = v.bounded;
}

run-Agrees : (s : System) (cs : List Call) → Agrees s → Agrees (run s cs)
unfolding run
run-Agrees s [] v = v
run-Agrees s (c ∷ cs) v = run-Agrees (step s c).0 cs (step-Agrees s c v)

start-Agrees : (cfg : TrackerConfig) → Agrees (start cfg)
unfolding start
start-Agrees cfg = record {
  same = λ j. unfold Map.get in refl;
  bounded = λ j t h. unfold Map.get in cc h;
}

-- Whatever calls are made, the monitor task knows exactly the hosts of the manager, each with the
-- generation that it was last added with, and no generation is above the last one given out.
pub started-Agrees : (cfg : TrackerConfig) (cs : List Call) → Agrees (run (start cfg) cs)
started-Agrees cfg cs = run-Agrees (start cfg) cs (start-Agrees cfg)

-- The generation `g` of a host is over: one that is added now, or stands now, has a later one.
record Retired (id : Text) (g : ℕ) (s : System) : Type 0 where
  past : g ≤ s.manager.generation
  later : (t : HostTasks) → Map.get id s.manager.hosts ≡ some t → g < t.generation

step-Retired :
    (id : Text) (g : ℕ) (s : System) (c : Call) → Retired id g s → Retired id g (step s c).0
unfolding step
step-Retired id g s (add j) v = elim (Option-cases (Map.get j s.manager.hosts)) [
  | inl e ↦ rw (add_new s j e) (record {
    past = omega arith;
    later = λ t h. ground (
      arith,
      Map.get-insert j id (record { generation = s.manager.generation + 1 }) s.manager.hosts,
      v.later t,
    );
  })
  | inr (t, e) ↦ rw (add_again s j t e) v
]
step-Retired id g s (remove j) v = elim (Option-cases (Map.get j s.manager.hosts)) [
  | inl e ↦ rw (remove_unknown s j e) v
  | inr (t, e) ↦ rw (remove_known s j t e) (record {
    past = v.past;
    later = λ t h. ground (arith, Map.get-remove j id s.manager.hosts, v.later t);
  })
]
step-Retired id g s (seen key) v = record { past = v.past; later = v.later }
step-Retired id g s (arrives j h ev now) v = record { past = v.past; later = v.later }

run-Retired :
    (id : Text) (g : ℕ) (s : System) (cs : List Call) → Retired id g s → Retired id g (run s cs)
unfolding run
run-Retired id g s [] v = v
run-Retired id g s (c ∷ cs) v = run-Retired id g (step s c).0 cs (step-Retired id g s c v)

remove-Retired :
    (s : System) (id : Text) (g : ℕ)
    → g ≤ s.manager.generation
    → Retired id g (step s (remove id)).0
remove-Retired s id g h = elim (Option-cases (Map.get id s.manager.hosts)) [
  | inl e ↦ rw (remove_unknown s id e) (record { past = h; later = λ t p. cc (e, p) })
  | inr (t, e) ↦ rw (remove_known s id t e) (record {
    past = h;
    later = λ t p. ground (arith, Map.get-remove id id s.manager.hosts, list_beq_iff id id);
  })
]

Retired-current :
    (id : Text) (g : ℕ) (s : System)
    → Agrees s
    → Retired id g s
    → Map.get id s.task.current ≢ some g
Retired-current id g s v r e = elim (Option-cases (Map.get id s.manager.hosts)) [
  | inl n ↦ cc (e, v.same id, ap generation_of n)
  | inr (t, p) ↦
      let same : ◌≡◌ {A = Option ℕ} (some t.generation) (some g) =
        sym (v.same id ∙ ap generation_of p) ∙ e in
      absurd (ground (arith, r.later t p, same))
]

-- Once a host is removed, an event of any of its incarnations up to then is dropped whenever it
-- arrives, even when the host has been added again with the same id: it changes nothing and gives
-- the UI no update.
pub stale_dropped :
    (cfg : TrackerConfig) (before after : List Call) (id : Text) (g : ℕ) (ev : HostEvent) (now : ℕ)
    → g ≤ (run (start cfg) before).manager.generation
    → let s : System = run (step (run (start cfg) before) (remove id)).0 after in
      step s (arrives id g ev now) ≡ (s, [])
unfolding step
stale_dropped cfg before after id g ev now h =
    let s0 : System = run (start cfg) before in
    let s1 : System = (step s0 (remove id)).0 in
    let s : System = run s1 after in
    let v : Agrees s =
      run-Agrees s1 after (step-Agrees s0 (remove id) (started-Agrees cfg before)) in
    let r : Retired id g s = run-Retired id g s1 after (remove-Retired s0 id g h) in
    let ne : Map.get id s.task.current ≢ some g = Retired-current id g s v r in
    rw (on_event_stale s.task id g ev now ne) refl
