-- ===== src/Serve/Upkeep.antt =====
-- crates/mai-probe/src/serve.rs: every step of the server keeps what holds of the bindings.
use multi_ai.Base.{
  ℕ, ◌+◌, ◌≡◌, refl, inl, inr, false, ◌||◌, not, Option, none, some, List, [], ◌∷◌, Text, arith,
  filter, is_some, ltb, ◌==◌, list_eq, nat_eq, option_eq, Bool-cases, if_cases, Result-cases,
  Result, ok, err,
}
use multi_ai.Protocol.{ProbeMsg}
use multi_ai.Serve.{dump_scope, scope_eq}
use multi_ai.Map
use multi_ai.Map.{Map, get-remove}
use multi_ai.Protocol.{PaneRef, PaneInfo}
use multi_ai.Protocol.Equal.{pane_ref_eq}
use multi_ai.Spool.{SpoolRecord, ReadResult}
use multi_ai.Scrape.{Engine, identify, still_matches}
use multi_ai.Hookmap.{Values, map_hook}
use multi_ai.Serve.{Server, Binding, bind, drain_records, drain_spool, due, is_exit}
use multi_ai.Serve.Polling.{View, Panes, poll_sessions, poll_panes}
use multi_ai.Serve.Scraping.{
  misses_to_exit, cleanup_every_ms, observe_pane, miss, rematch, put_binding, scrape_bound,
  scrape_free, scrape_by, scrape_screen, scrape_session, scrape_sessions, scrape_panes, clean_spool,
  poll_due, scrape_due, Sources, tick,
}
use multi_ai.Serve.Bindings.{
  Sound, bound_free, put-Sound, drop-Sound, release-Sound, exit-Sound, retain-Sound,
}

abbrev pub IsValid : (e : Engine) → Server e → Type 0
IsValid e s = Sound s.agents s.exit_hold

-- What a step returns is valid.
abbrev Keeps : (e : Engine) → Server e × List ProbeMsg → Type 0
Keeps e r = IsValid e r.0

module _ (e : Engine) (h : Text → ℕ) where
  miss-IsValid :
      (pane : PaneRef) (b : Binding) (now : ℕ) (s : Server e)
      → Map.get pane s.agents ≡ some b
      → IsValid e s
      → IsValid e (miss e h pane b now s).0
  unfolding miss
  miss-IsValid pane b now s g v = elim (Bool-cases (ltb (b.misses + 1) misses_to_exit)) [
    | inl y ↦ rw y (
        put-Sound s.agents s.exit_hold pane _ (ground (arith, y))
          (bound_free s.agents s.exit_hold pane b v g) v)
    | inr n ↦ rw n (drop-Sound s.agents s.exit_hold pane v)
  ]

  observe_pane-IsValid :
      (pane : PaneRef) (agent screen : Text) (now : ℕ) (s : Server e)
      → IsValid e s
      → IsValid e (observe_pane e h pane agent screen now s).0
  unfolding observe_pane
  observe_pane-IsValid pane agent screen now s v = v

  rematch-IsValid :
      (pane : PaneRef) (p : PaneInfo) (screen : Text) (found : Option Text) (b : Binding) (now : ℕ)
      (s : Server e)
      → Map.get pane s.agents ≡ some b
      → IsValid e s
      → IsValid e (rematch e h pane p screen found b now s).0
  unfolding rematch
  rematch-IsValid pane p screen found b now s g v =
      elim (Bool-cases
        ((found == some b.agent) || still_matches e s.rules b.agent p.title p.command screen)) [
          | inl y ↦ rw y (
              observe_pane-IsValid pane b.agent screen now
                (put_binding e h pane (record b { misses = 0 }) s)
                (put-Sound s.agents s.exit_hold pane (record b { misses = 0 }) (omega arith)
                  (bound_free s.agents s.exit_hold pane b v g) v))
          | inr m ↦ rw m (miss-IsValid pane b now s g v)
        ]

  scrape_bound-IsValid :
      (pane : PaneRef) (p : PaneInfo) (screen : Text) (found : Option Text) (b : Binding) (now : ℕ)
      (s : Server e)
      → Map.get pane s.agents ≡ some b
      → IsValid e s
      → IsValid e (scrape_bound e h pane p screen found b now s).0
  unfolding scrape_bound
  scrape_bound-IsValid pane p screen found b now s g v =
      if_cases (Keeps e) b.from_hook (λ _. observe_pane-IsValid pane b.agent screen now s v)
        (λ _. rematch-IsValid pane p screen found b now s g v)

  scrape_free-IsValid :
      (pane : PaneRef) (screen : Text) (found : Option Text) (now : ℕ) (s : Server e)
      → IsValid e s
      → IsValid e (scrape_free e h pane screen found now s).0
  unfolding scrape_free
  scrape_free-IsValid pane screen none now s v = release-Sound s.agents s.exit_hold pane v
  scrape_free-IsValid pane screen (some a) now s v =
      elim (Bool-cases (is_some (Map.get pane s.exit_hold))) [
        | inl y ↦ rw y v
        | inr n ↦ rw n (
            observe_pane-IsValid pane a screen now
              (put_binding e h pane (record { agent = a; from_hook = false; misses = 0 }) s)
              (put-Sound s.agents s.exit_hold pane _ (omega arith) n v))
      ]

  scrape_by-IsValid :
      (pane : PaneRef) (p : PaneInfo) (screen : Text) (found : Option Text) (now : ℕ)
      (o : Option Binding) (s : Server e)
      → Map.get pane s.agents ≡ o
      → IsValid e s
      → IsValid e (scrape_by e h pane p screen found now o s).0
  scrape_by-IsValid pane p screen found now none s g v =
      scrape_free-IsValid pane screen found now s v
  scrape_by-IsValid pane p screen found now (some b) s g v =
      scrape_bound-IsValid pane p screen found b now s g v

  scrape_screen-IsValid :
      (pane : PaneRef) (p : PaneInfo) (r : Result Text Text) (now : ℕ) (s : Server e)
      → IsValid e s
      → IsValid e (scrape_screen e h pane p r now s).0
  unfolding scrape_screen
  scrape_screen-IsValid pane p (ok screen) now s v =
      scrape_by-IsValid pane p screen (identify e s.rules p.title p.command screen) now
        (Map.get pane s.agents) (record s { failing = Map.remove (dump_scope pane) s.failing }) refl
        v
  scrape_screen-IsValid pane p (err x) now s v = v

  scrape_session-IsValid :
      (z : View) (session : Text) (ps : List PaneInfo) (now : ℕ) (s : Server e)
      → IsValid e s
      → IsValid e (scrape_session e h z session ps now s).0
  unfolding scrape_session
  scrape_session-IsValid z session [] now s v = v
  scrape_session-IsValid z session (p ∷ ps) now s v =
      let pane : PaneRef = record { session = session; pane_id = p.id } in
      let r : Result Text Text = z.dump_screen session p.id in
      scrape_session-IsValid z session ps now (scrape_screen e h pane p r now s).0
        (scrape_screen-IsValid pane p r now s v)

  scrape_sessions-IsValid :
      (z : View) (panes : Panes) (now : ℕ) (s : Server e)
      → IsValid e s
      → IsValid e (scrape_sessions e h z panes now s).0
  unfolding scrape_sessions
  scrape_sessions-IsValid z [] now s v = v
  scrape_sessions-IsValid z ((session, list) ∷ rest) now s v =
      let ps : List PaneInfo = filter (λ p. not p.exited) list in
      scrape_sessions-IsValid z rest now (scrape_session e h z session ps now s).0
        (scrape_session-IsValid z session ps now s v)

  poll_panes-IsValid : (z : View) (s : Server e) → IsValid e s → IsValid e (poll_panes e z s).0
  unfolding poll_panes poll_sessions
  poll_panes-IsValid z s v = elim (Result-cases z.sessions) [
    | inl (ss, q) ↦ rw q (retain-Sound s.agents s.exit_hold _ v)
    | inr (x, q) ↦ rw q v
  ]

  poll_due-IsValid :
      (z : View) (now : ℕ) (s : Server e) → IsValid e s → IsValid e (poll_due e h z now s).0
  unfolding poll_due
  poll_due-IsValid z now s v =
      if_cases (Keeps e) s.zellij
        (λ _.
          if_cases (Keeps e) (due s.last_pane_poll s.intervals.pane_poll_ms now)
            (λ _. poll_panes-IsValid z (record s { last_pane_poll = some now }) v) (λ _. v))
        (λ _. v)

  scrape_due-IsValid :
      (z : View) (now : ℕ) (s : Server e) → IsValid e s → IsValid e (scrape_due e h z now s).0
  unfolding scrape_due scrape_panes
  scrape_due-IsValid z now s v =
      if_cases (Keeps e) s.zellij
        (λ _.
          if_cases (Keeps e) (due s.last_scrape s.intervals.scrape_ms now)
            (λ _. scrape_sessions-IsValid z s.panes now (record s { last_scrape = some now }) v)
            (λ _. v))
        (λ _. v)

  clean_spool-IsValid :
      (r : Result ℕ Text) (now : ℕ) (s : Server e)
      → IsValid e s
      → IsValid e (clean_spool e h r now s).0
  unfolding clean_spool
  clean_spool-IsValid (ok n) now s v =
      if_cases (Keeps e) (due s.last_cleanup cleanup_every_ms now) (λ _. v) (λ _. v)
  clean_spool-IsValid (err x) now s v =
      if_cases (Keeps e) (due s.last_cleanup cleanup_every_ms now) (λ _. v) (λ _. v)

  module _ (v : Values) where
    bind-IsValid :
        (s : Server e) (rec : SpoolRecord v.Value) → IsValid e s → IsValid e (bind e v s rec)
    unfolding bind
    bind-IsValid s rec w = elim (Bool-cases s.zellij) [
      | inr n ↦ rw n w
      | inl y ↦ rw y (
          let pane : PaneRef = record { session = rec.session; pane_id = rec.pane_id } in
          elim (Bool-cases (is_exit e v (map_hook v rec.agent rec.payload))) [
            | inl x ↦ rw x (exit-Sound s.agents s.exit_hold pane w)
            | inr x ↦ rw x (
                put-Sound s.agents (Map.remove pane s.exit_hold) pane _ (omega arith)
                  (ground (arith, get-remove pane pane s.exit_hold, pane_ref_eq.beq_iff pane pane))
                  (release-Sound s.agents s.exit_hold pane w))
          ])
    ]

    drain_records-IsValid :
        (s : Server e) (rs : List (ℕ × SpoolRecord v.Value))
        → IsValid e s
        → IsValid e (drain_records e v s rs).0
    unfolding drain_records
    drain_records-IsValid s [] w = w
    drain_records-IsValid s ((c, rec) ∷ rs) w =
        drain_records-IsValid (bind e v s rec) rs (bind-IsValid s rec w)

    drain_spool-IsValid :
        (s : Server e) (r : Result (ReadResult (SpoolRecord v.Value)) Text)
        → IsValid e s
        → IsValid e (drain_spool e v s r).0
    unfolding drain_spool
    drain_spool-IsValid s (ok read) w =
        drain_records-IsValid (record s { spool_failing = false; read_cursor = read.end_cursor })
          read.records w
    drain_spool-IsValid s (err x) w = if_cases (Keeps e) s.spool_failing (λ _. w) (λ _. w)

    -- Every scheduling step, whatever the spool and zellij give, keeps these: a scraped agent has missed
    -- fewer scrapes than it takes to report it gone, so that the 8-bit count never wraps, and a pane whose agent
    -- reported its exit is bound to no agent as long as it is held back.
    pub tick-IsValid :
        (src : Sources e h v) (now : ℕ) (s : Server e)
        → IsValid e s
        → IsValid e (tick e h v src now s).0
    unfolding tick
    tick-IsValid src now s w =
        let s1 : Server e = (clean_spool e h src.cleaned now s).0 in
        let s2 : Server e = (drain_spool e v s1 src.read).0 in
        let s3 : Server e = (poll_due e h src.view now s2).0 in
        scrape_due-IsValid src.view now s3 (
          poll_due-IsValid src.view now s2
            (drain_spool-IsValid s1 src.read (clean_spool-IsValid src.cleaned now s w)))
