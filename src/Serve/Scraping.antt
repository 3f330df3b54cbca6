-- ===== src/Serve/Scraping.antt =====
-- crates/mai-probe/src/serve.rs: scraping screens, one scheduling step and one line of input
-- (`scrape_panes`, `tick`, `handle_line`).
use multi_ai.Base.{
  ℕ, ◌+◌, Bool, false, ◌||◌, not, Option, none, some, List, [], ◌∷◌, ◌++◌, Text, text, trim, take,
  filter, is_some, ltb, ◌==◌, list_eq, nat_eq, option_eq, Result, ok, err, if◌then◌else◌,
}
use multi_ai.Map
use multi_ai.Map.{Map}
use multi_ai.Protocol.{
  AgentState, exited, unknown, scrape, PaneRef, PaneInfo, ProbeMsg, agent_event, AppMsg,
}
use multi_ai.Protocol.Equal.{pane_ref_eq}
use multi_ai.Spool.{SpoolRecord, ReadResult}
use multi_ai.Scrape.{Engine, RuleError, identify, still_matches, observe, forget}
use multi_ai.Hookmap.{Values}
use multi_ai.Serve.{
  dump_scope, cleanup_scope, scope_eq, Server, Binding, error, due, drain_spool, handle,
}
use multi_ai.Serve.Polling.{View, report, Panes, poll_panes}

-- `MISSES_TO_EXIT`, `CLEANUP_EVERY_MS`.
abbrev pub misses_to_exit : ℕ
misses_to_exit = 2

abbrev pub cleanup_every_ms : ℕ
cleanup_every_ms = 3_600_000

abbrev pub scrape_event : PaneRef → Text → AgentState → ℕ → ProbeMsg
scrape_event pane agent state now = agent_event (record {
  pane = pane;
  agent = agent;
  source = scrape;
  state = state;
  message = none;
  ts_ms = now;
  spool_offset = none;
})

module _ (e : Engine) (hash_screen : Text → ℕ) where
  -- The end of the loop's body: what observing the screen tells.
  unfoldable pub observe_pane : PaneRef → Text → Text → ℕ → Server e → Server e × List ProbeMsg
  unfolding observe
  observe_pane pane agent screen now s =
      let (t, told) = observe e hash_screen s.scrape s.rules agent pane screen now in
      (
        record s { scrape = t },
        elim told [ none ↦ [] | some state ↦ scrape_event pane agent state now ∷ [] ],
      )

  abbrev pub after : List ProbeMsg → Server e × List ProbeMsg → Server e × List ProbeMsg
  after out (s, more) = (s, out ++ more)

  abbrev pub put_binding : PaneRef → Binding → Server e → Server e
  put_binding pane b s = record s { agents = Map.insert pane b s.agents }

  -- None of the rules of a scraped agent match.
  unfoldable pub miss : PaneRef → Binding → ℕ → Server e → Server e × List ProbeMsg
  miss pane b now s =
      if ltb (b.misses + 1) misses_to_exit
      then (put_binding pane (record b { misses = b.misses + 1 }) s, [])
      else (
        record s { agents = Map.remove pane s.agents; scrape = forget s.scrape pane },
        scrape_event pane b.agent exited now ∷ [],
      )

  -- A pane that scraping has bound to an agent.
  unfoldable pub rematch :
      PaneRef → PaneInfo → Text → Option Text → Binding → ℕ → Server e → Server e × List ProbeMsg
  unfolding observe_pane miss
  rematch pane p screen found b now s =
      let matches : Bool =
        (found == some b.agent) || still_matches e s.rules b.agent p.title p.command screen in
      if matches
      then observe_pane pane b.agent screen now (put_binding pane (record b { misses = 0 }) s)
      else miss pane b now s

  unfoldable pub scrape_bound :
      PaneRef → PaneInfo → Text → Option Text → Binding → ℕ → Server e → Server e × List ProbeMsg
  unfolding observe_pane rematch
  scrape_bound pane p screen found b now s =
      if b.from_hook
      then observe_pane pane b.agent screen now s
      else rematch pane p screen found b now s

  -- A pane that is bound to no agent.
  unfoldable pub scrape_free :
      PaneRef → Text → Option Text → ℕ → Server e → Server e × List ProbeMsg
  unfolding observe_pane
  scrape_free pane screen none now s = (record s { exit_hold = Map.remove pane s.exit_hold }, [])
  scrape_free pane screen (some a) now s =
      let b : Binding = record { agent = a; from_hook = false; misses = 0 } in
      if is_some (Map.get pane s.exit_hold)
      then (s, [])
      else after (scrape_event pane a unknown now ∷ [])
          (observe_pane pane a screen now (put_binding pane b s))

  abbrev pub scrape_by :
      PaneRef
      → PaneInfo
      → Text
      → Option Text
      → ℕ
      → Option Binding
      → Server e
      → Server e × List ProbeMsg
  scrape_by pane p screen found now none s = scrape_free pane screen found now s
  scrape_by pane p screen found now (some b) s = scrape_bound pane p screen found b now s

  unfoldable pub scrape_screen :
      PaneRef → PaneInfo → Result Text Text → ℕ → Server e → Server e × List ProbeMsg
  unfolding scrape_bound scrape_free report
  scrape_screen pane p (ok screen) now s =
      scrape_by pane p screen (identify e s.rules p.title p.command screen) now
        (Map.get pane s.agents) (record s { failing = Map.remove (dump_scope pane) s.failing })
  scrape_screen pane p (err x) now s =
      let (failing, told) = report s.failing (dump_scope pane) (error (text "zellij") x) in
      (record s { failing = failing }, told)

  -- The panes of one session that have not exited.
  unfoldable pub scrape_session :
      View → Text → List PaneInfo → ℕ → Server e → Server e × List ProbeMsg
  unfolding scrape_screen
  scrape_session z session [] now s = (s, [])
  scrape_session z session (p ∷ ps) now s =
      let (t, out) =
        scrape_screen (record { session = session; pane_id = p.id }) p (z.dump_screen session p.id)
          now s in
      after out (scrape_session z session ps now t)

  unfoldable pub scrape_sessions : View → Panes → ℕ → Server e → Server e × List ProbeMsg
  unfolding scrape_session
  scrape_sessions z [] now s = (s, [])
  scrape_sessions z ((session, list) ∷ rest) now s =
      let (t, out) = scrape_session z session (filter (λ p. not p.exited) list) now s in
      after out (scrape_sessions z rest now t)

  -- `scrape_panes`.
  unfoldable pub scrape_panes : View → ℕ → Server e → Server e × List ProbeMsg
  unfolding scrape_sessions
  scrape_panes z now s = scrape_sessions z s.panes now s

  -- Deleting old spool files, when due; `cleaned` is what it gives.
  unfoldable pub clean_spool : Result ℕ Text → ℕ → Server e → Server e × List ProbeMsg
  unfolding due report
  clean_spool cleaned now s =
      if due s.last_cleanup cleanup_every_ms now
      then elim cleaned [
        | ok n ↦
            (record s { last_cleanup = some now; failing = Map.remove cleanup_scope s.failing }, [])
        | err x ↦
            let (failing, told) = report s.failing cleanup_scope (error (text "spool_cleanup") x) in
            (record s { last_cleanup = some now; failing = failing }, told)
      ]
      else (s, [])

  unfoldable pub poll_due : View → ℕ → Server e → Server e × List ProbeMsg
  unfolding poll_panes due
  poll_due z now s =
      let polled = poll_panes e z (record s { last_pane_poll = some now }) in
      if s.zellij
      then (if due s.last_pane_poll s.intervals.pane_poll_ms now then polled else (s, []))
      else (s, [])

  unfoldable pub scrape_due : View → ℕ → Server e → Server e × List ProbeMsg
  unfolding scrape_panes due
  scrape_due z now s =
      let scraped = scrape_panes z now (record s { last_scrape = some now }) in
      if s.zellij
      then (if due s.last_scrape s.intervals.scrape_ms now then scraped else (s, []))
      else (s, [])

  module _ (v : Values) where
    -- What the spool and zellij give during one step.
    pub record Sources : Type 0 where
      pub cleaned : Result ℕ Text
      pub read : Result (ReadResult (SpoolRecord v.Value)) Text
      pub view : View

    -- `tick`.
    unfoldable pub tick : Sources → ℕ → Server e → Server e × List ProbeMsg
    unfolding clean_spool drain_spool poll_due scrape_due
    tick src now s =
        let (s1, out1) = clean_spool src.cleaned now s in
        let (s2, out2) = drain_spool e v s1 src.read in
        let (s3, out3) = poll_due src.view now s2 in
        after (out1 ++ (out2 ++ out3)) (scrape_due src.view now s3)

-- `handle_line`; `decode` is `decode_line` with the error's text.
unfoldable pub handle_line :
    (e : Engine)
    → (Text → Result AppMsg Text)
    → (RuleError → Text)
    → Server e
    → Result (Unit {0}) Text
    → Text
    → Server e × List ProbeMsg
unfolding handle trim
handle_line e decode show s outcome line =
    let decoded : Server e × List ProbeMsg = elim (decode line) [
      | ok msg ↦ handle e show s outcome msg
      | err x ↦ (s, error (text "bad_message") (x ++ (text ": " ++ take 80 line)) ∷ [])
    ] in
    if trim line == [] then (s, []) else decoded
