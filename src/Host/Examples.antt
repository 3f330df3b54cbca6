-- ===== src/Host/Examples.antt =====
-- crates/mai-core/src/host.rs: tests, and the theorems at concrete inputs.
use multi_ai.Base.{ℕ, ◌≡◌, refl, none, some, List, [], ◌∷◌, ◌++◌, arith, text, ok, err}
use multi_ai.Protocol.{HelloInfo, protocol_version, AgentEvent, done, hook, agent_event, ack}
use multi_ai.Link.{closed}
use multi_ai.Host.{Opened, msg, send, stop}
use multi_ai.Host.Backoff.{fresh, delay_after, fresh_delays}
use multi_ai.Host.Task.{
  for_delay, serving, waiting, stopped, Task, Input, command, opened, greeted, received, World,
  emit, write, step, start, run,
}
use multi_ai.Host.Task.Shown.{follow, shows, Shown, delayed, run-follow}
use multi_ai.Host.Task.Relay.{settle, run-settle}
use multi_ai.Host.Task.Commands.{Answers, send_answered, end_is_final}
use multi_ai.Host.{OpenError}
use multi_ai.Host.Task.{
  react, slept, on_opened, on_greeted, on_received, back_off, link_lost, acknowledge, woken,
}
use multi_ai.Host.Backoff.{next_delay}
use multi_ai.Host.Task.Delays.{reported, delays_double}

abbrev info : HelloInfo
info = record {
  protocol_version = protocol_version;
  probe_version = text "0.1.0";
  os = text "linux";
  arch = text "x86_64";
  zellij_path = none;
  zellij_version = none;
}

abbrev at : ℕ → World
at now = record { now = now; stderr = none; write = none }

abbrev event : AgentEvent
event = record {
  pane = record { session = text "w"; pane_id = 3 };
  agent = text "claude";
  source = hook;
  state = done;
  message = none;
  ts_ms = 5;
  spool_offset = some 9;
}

abbrev link : Opened
link = record { hooks = ok []; notes = [] }

abbrev serve : Task
serve = record { phase = serving 0; backoff = fresh }

abbrev pause : Task
pause = record { phase = waiting for_delay; backoff = record { next = 4_000 } }

-- A connection, one hook event, and the loss of the connection.
abbrev session : List (World × Input)
session =
    (at 1, opened (ok link))
    ∷ (at 2, greeted (ok info))
    ∷ (at 3, received (ok (agent_event event)))
    ∷ (at 4, received (err closed))
    ∷ []

-- The event is handed on, and acknowledged after that.
handed_on :
    (step serve (at 3) (received (ok (agent_event event)))).1
    ≡ emit (msg (agent_event event)) ∷ write (ack 9) ∷ []
unfolding step
handed_on = refl

run-follow_example :
    (k : Shown) × (follow delayed (start.1 ++ (run start.0 session).1) ≡ some k)
    × (shows k (run start.0 session).0.phase ≡ k)
run-follow_example = run-follow session

run-settle_example : settle none (run start.0 session).1 ≡ some none
run-settle_example = run-settle start.0 session (tt, (tt, (tt, (tt, tt))))

send_answered_example :
    Answers (ack 3) (at 3) serve (serving 0) (step serve (at 3) (command (some (send (ack 3)))))
send_answered_example = send_answered serve (at 3) (ack 3) (λ e. cc)

end_is_final_example :
    run serve ((at 3, command (some stop)) ∷ session) ≡ (record serve { phase = stopped }, [])
end_is_final_example = end_is_final serve (at 3) (some stop) session tt

-- The host cannot be reached; then its probe is lost after 2 ms.
abbrev unsettled : List (World × Input)
unsettled = (at 0, opened (err (OpenError.retry (text "timeout")))) ∷ (at 0, slept) ∷ session

delays_double_example : reported (run start.0 unsettled).1 ≡ 1_000 ∷ 2_000 ∷ []
unfolding run step react on_opened on_greeted on_received back_off link_lost acknowledge woken
    next_delay
delays_double_example =
    delays_double unsettled (tt, (tt, (tt, (tt, (omega arith, (omega arith, tt))))))

seventh_delay : delay_after 6 fresh ≡ 60_000
seventh_delay = fresh_delays 6
