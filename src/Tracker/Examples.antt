-- ===== src/Tracker/Examples.antt =====
-- crates/mai-core/src/tracker.rs: tests, and the theorems at concrete inputs.
use mathlib.Core.List.{Perm}
use multi_ai.Base.{ℕ, ◌-◌, ◌≤◌, ◌≡◌, refl, true, none, some, [], ◌∷◌, Text, text, filter, list_beq}
use multi_ai.Protocol.{AgentEvent, AgentState, working, done, hook, scrape, PaneRef}
use multi_ai.Protocol.Equal.{state_beq}
use multi_ai.Map
use multi_ai.Tracker.{
  AgentKey, from_event, default_config, AgentRecord, Alert, Tracker, new, apply, get, records,
  pending, update, admit, transition, key_beq,
}
use multi_ai.Tracker.Sort.{Sorted}
use multi_ai.Tracker.Invariant.{event, step, gone, seen, run, IsValid, run-IsValid}
use multi_ai.Tracker.Redelivery.{apply_all, redelivery}
use multi_ai.Tracker.Alerts.{IsAlertOf, alert_sound}
use multi_ai.Tracker.Spacing.{alerts_spaced}
use multi_ai.Tracker.Pending.{waits, NotAfter, pending_lem}

-- What a run of the tracker unfolds.
runs : Unit {0}
unfolding apply update admit transition Map.get Map.insert key_beq list_beq state_beq run step
runs = tt

abbrev host : Text
host = text "h"

abbrev pane : PaneRef
pane = record { session = text "w"; pane_id = 3 }

abbrev hook_event : AgentState → ℕ → ℕ → AgentEvent
hook_event s ts o = record {
  pane = pane;
  agent = text "claude";
  source = hook;
  state = s;
  message = none;
  ts_ms = ts;
  spool_offset = some o;
}

abbrev scrape_event : AgentState → ℕ → AgentEvent
scrape_event s ts = record {
  pane = pane;
  agent = text "claude";
  source = scrape;
  state = s;
  message = none;
  ts_ms = ts;
  spool_offset = none;
}

abbrev key : AgentKey
key = from_event host (hook_event working 0 0)

abbrev start : Tracker
start = record { cfg = default_config; agents = [] }

-- One agent that works, reported by a hook at time 100.
abbrev working_record : AgentRecord
working_record = record {
  key = key;
  agent = text "claude";
  state = working;
  message = none;
  acknowledged = true;
  since_ms = 100;
  last_hook_ms = some 100;
  last_hook_offset = some 10;
  last_alert = none;
}

abbrev at_work : Tracker
at_work = record { cfg = default_config; agents = (key, working_record) ∷ [] }

-- The first event of a pane makes the record.
first_event : (apply start host (hook_event working 100 10)).0 ≡ at_work
unfolding runs
first_event = refl

abbrev done_alert : Alert
done_alert = record { key = key; agent = text "claude"; state = done; message = none }

run-IsValid_example :
    IsValid
      (run (new default_config) (event host (hook_event done 5 1) ∷ seen key ∷ gone key 9 ∷ []))
run-IsValid_example =
    run-IsValid default_config (event host (hook_event done 5 1) ∷ seen key ∷ gone key 9 ∷ [])

redelivery_example :
    let t' : Tracker =
      run
        (apply_all start host (hook_event done 5 1 ∷ hook_event working 6 2 ∷ [])).0
        (seen key ∷ []) in
    apply_all t' host (hook_event done 5 1 ∷ hook_event working 6 2 ∷ []) ≡ (t', [])
redelivery_example =
    redelivery start host (hook_event done 5 1 ∷ hook_event working 6 2 ∷ []) (seen key ∷ [])
      ((1, refl, refl), ((2, refl, refl), tt))

alert_sound_example :
    (r : AgentRecord) × (get (apply at_work host (hook_event done 200 11)).0 key ≡ some r)
    × IsAlertOf key (hook_event done 200 11) working_record r done_alert
unfolding runs
alert_sound_example = alert_sound at_work host (hook_event done 200 11) done_alert refl

alerts_spaced_example : 30_000 ≤ 30_200 - 200
unfolding runs
alerts_spaced_example =
    alerts_spaced at_work host (hook_event done 200 11) (hook_event done 30_200 13)
      (event host (hook_event working 300 12) ∷ []) done_alert done_alert refl ((λ e. refl), tt)
      refl refl refl

pending_lem_example :
    Perm (pending at_work) (filter waits (records at_work)) × Sorted NotAfter (pending at_work)
pending_lem_example = pending_lem at_work
