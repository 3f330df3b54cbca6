-- ===== src/Serve/Examples.antt =====
-- crates/mai-probe/src/serve.rs and hookmap.rs: tests, and the theorems at concrete inputs.
use multi_ai.Base.{
  List, ◌++◌, ◌≡◌, refl, true, none, some, [], ◌∷◌, Text, text, ok, err, list_beq, lines_loop, trim,
  ◌==◌, list_eq, nat_eq, if◌then◌else◌,
}
use multi_ai.Protocol.{needs_input, PaneRef, ProbeMsg}
use multi_ai.Spool.{SpoolRecord, ReadResult}
use multi_ai.Scrape.{Engine}
use multi_ai.Hookmap.{Values, map_hook, map_claude, map_notification, str_field, short}
use multi_ai.Serve.{Server, default_intervals, drain_spool}
use multi_ai.Serve.Draining.{Counts, Forwards, pane_state, last_told, drain_lem}

-- No patterns, and payloads that are the name of an event.
abbrev no_patterns : Engine
no_patterns = record {
  Regex = Text;
  new = λ p. err p;
  is_match = λ p t. true;
  remove_all = λ p t. t;
}

abbrev names : Values
names = record {
  Value = Text;
  get = λ p key.
      if key == text "notification_type"
      then some (text "permission_prompt")
      else if key == text "message"
      then some (text "\n  May I? ")
      else some p;
  as_str = λ p. some p;
  null = [];
  to_state = λ p. none;
}

-- A question is cut to its first line that is not empty.
asks :
    map_hook names (text "claude") (text "Notification")
    ≡ some (record { state = needs_input; message = some (text "May I?") })
unfolding map_hook map_claude map_notification str_field short list_beq lines_loop trim
asks = refl

abbrev server : Server no_patterns
server = record {
  zellij = true;
  rules = [];
  scrape = [];
  intervals = default_intervals;
  read_cursor = 0;
  last_pane_poll = none;
  last_scrape = none;
  last_cleanup = none;
  sessions = none;
  panes = [];
  agents = [];
  exit_hold = [];
  failing = [];
  spool_failing = true;
}

abbrev hook_record : Text → SpoolRecord Text
hook_record name = record {
  ts_ms = 5;
  agent = text "claude";
  session = text "w";
  pane_id = 3;
  payload = name;
}

abbrev read : ReadResult (SpoolRecord Text)
read = record {
  records = (7, hook_record (text "PreToolUse")) ∷ (9, hook_record (text "SessionEnd")) ∷ [];
  bad_lines = 0;
  end_cursor = 9;
}

drain_lem_example :
    let r = drain_spool no_patterns names server (ok read) in
    (r.0.read_cursor ≡ 9)
    × ((told : List ProbeMsg) × ((sent : List ProbeMsg) × ((r.1 ≡ told ++ sent)
            × (Counts no_patterns names read.bad_lines told
                × Forwards no_patterns names read.records sent))))
    × ((p : PaneRef)
        → pane_state no_patterns names r.0 p
          ≡ last_told no_patterns names p (pane_state no_patterns names server p) read.records)
drain_lem_example = drain_lem no_patterns names server read refl
