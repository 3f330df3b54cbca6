-- ===== src/Serve/Trials.antt =====
-- crates/mai-probe/src/serve.rs: the theorems on polling and scraping at concrete inputs.
use multi_ai.Base.{
  ◌≡◌, refl, true, false, none, [], ◌∷◌, Text, text, ok, err, List, arith, inl, is_some, Bool-cases,
  inr, ◌==◌,
}
use multi_ai.Map
use multi_ai.Protocol.{PaneRef, PaneInfo, SessionInfo}
use multi_ai.Protocol.Equal.{pane_ref_eq}
use multi_ai.Scrape.{Engine}
use multi_ai.Hookmap.{Values}
use multi_ai.Serve.{Server, Binding, default_intervals, scope_eq, error}
use multi_ai.Serve.Polling.{View, poll_panes}
use multi_ai.Serve.Scraping.{Sources, tick}
use multi_ai.Serve.Upkeep.{IsValid, tick-IsValid}
use multi_ai.Serve.{panes_scope}
use multi_ai.Serve.Failures.{
  SeenListed, Remembered, Listed, Running, poll_all, reported_once, poll_forgets,
}

abbrev plain : Engine
plain = record { Regex = Text; new = λ p. ok p; is_match = λ p t. true; remove_all = λ p t. t }

abbrev a_pane : PaneRef
a_pane = record { session = text "main"; pane_id = 4 }

abbrev a_binding : Binding
a_binding = record { agent = text "claude"; from_hook = false; misses = 1 }

-- One pane was there, is bound by scraping, and has missed one scrape.
abbrev serving : Server plain
serving = record {
  zellij = true;
  rules = [];
  scrape = [];
  intervals = default_intervals;
  read_cursor = 0;
  last_pane_poll = none;
  last_scrape = none;
  last_cleanup = none;
  sessions = none;
  panes = [];
  agents = (a_pane, a_binding) ∷ [];
  exit_hold = [];
  failing = [];
  spool_failing = false;
}

abbrev no_zellij : View
no_zellij = record {
  sessions = err (text "no server");
  panes = λ session. err (text "no server");
  dump_screen = λ session pane. err (text "no server");
}

abbrev numbers : Values
numbers = record {
  Value = Text;
  get = λ p key. none;
  as_str = λ p. none;
  null = [];
  to_state = λ p. none;
}

serving-IsValid : IsValid plain serving
unfolding Map.get
serving-IsValid = record {
  few_misses = λ p b g. elim (Bool-cases (a_pane == p)) [
    | inl y ↦ ground (arith, y, g)
    | inr n ↦ ground (arith, n, g)
  ];
  held_free = λ p g. cc g;
}

abbrev a_step : Sources plain (λ t. 0) numbers
a_step = record { cleaned = ok 2; read = err (text "unreadable"); view = no_zellij }

tick-IsValid_example : IsValid plain (tick plain (λ t. 0) numbers a_step 5_000 serving).0
tick-IsValid_example = tick-IsValid plain (λ t. 0) numbers a_step 5_000 serving serving-IsValid

not_failing : is_some (Map.get multi_ai.Serve.sessions_scope serving.failing) ≡ false
unfolding Map.get
not_failing = refl

reported_once_example :
    (poll_all plain (no_zellij ∷ no_zellij ∷ no_zellij ∷ []) serving).1
    ≡ error (text "zellij") (text "no server") ∷ []
reported_once_example =
    reported_once plain no_zellij (no_zellij ∷ no_zellij ∷ []) serving (text "no server") refl
      ((text "no server", refl), ((text "no server", refl), tt)) not_failing

abbrev one_session : List SessionInfo
one_session = record { name = text "main"; exited = false } ∷ []

abbrev one_pane : PaneInfo
one_pane = record {
  id = 4;
  tab_id = 0;
  tab_name = text "Tab";
  title = text "claude";
  command = none;
  exited = false;
}

abbrev with_zellij : View
with_zellij = record {
  sessions = ok one_session;
  panes = λ session. ok (one_pane ∷ []);
  dump_screen = λ session pane. ok (text "> ");
}

-- The server has seen no screen yet.
seen_listed : SeenListed plain serving
unfolding Map.get
seen_listed p h = cc h

poll_forgets_example :
    let s' : Server plain = (poll_panes plain with_zellij serving).0 in
    ((p : PaneRef) → Remembered plain p s' → Listed s'.panes p)
    × ((name : Text)
        → is_some (Map.get (panes_scope name) s'.failing) ≡ true
        → Running name one_session)
poll_forgets_example = poll_forgets plain with_zellij serving one_session refl seen_listed
