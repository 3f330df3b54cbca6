-- ===== src/Manager/Examples.antt =====
-- crates/mai-core/src/manager.rs: tests, and the theorems at concrete inputs.
use multi_ai.Base.{◌≡◌, refl, none, List, [], ◌∷◌, arith, text, list_beq, option_beq}
use multi_ai.Map
use multi_ai.Host.{ConnState, HostState, host_state, probe}
use multi_ai.Tracker.{default_config}
use multi_ai.Tracker
use multi_ai.Monitor.{Update, host}
use multi_ai.Monitor
use multi_ai.Manager.{
  add_host, remove_host, on_ctl, on_ctls, on_event, System, Call, add, remove, arrives, step, start,
  run,
}
use multi_ai.Manager.Incarnations.{Agrees, started-Agrees, stale_dropped}

-- What a run of the system unfolds.
runs : Unit {0}
unfolding run step start host_state add_host remove_host on_ctls on_ctl on_event Map.get Map.insert
    Map.remove list_beq option_beq Monitor.apply Monitor.remove_host Monitor.new Tracker.new
runs = tt

abbrev readded : List Call
readded = add (text "h") ∷ remove (text "h") ∷ add (text "h") ∷ []

abbrev late : Call
late = arrives (text "h") 1 (probe ConnState.connecting) 0

-- An event of the current incarnation reaches the UI.
current_event :
    (step
      (run (start default_config) readded)
      (arrives (text "h") 2 (probe ConnState.connecting) 0)).1
    ≡ host (text "h") HostState.connecting ConnState.connecting none ∷ []
unfolding runs
current_event = refl

stale_dropped_example :
    let s : System =
      run
        (step (run (start default_config) (add (text "h") ∷ [])) (remove (text "h"))).0
        (add (text "h") ∷ []) in
    step s late ≡ (s, [])
unfolding runs
stale_dropped_example =
    stale_dropped default_config (add (text "h") ∷ []) (add (text "h") ∷ []) (text "h") 1
      (probe ConnState.connecting) 0 (omega arith)

started-Agrees_example : Agrees (run (start default_config) readded)
started-Agrees_example = started-Agrees default_config readded
