-- ===== src/Serve/Polling.antt =====
-- crates/mai-probe/src/serve.rs: polling sessions and panes (`report`, `poll_panes`). What zellij
-- answers during one call is a record; a map's order is the order of insertion.
use multi_ai.Base.{
  ℕ, Bool, true, ◌&&◌, not, Option, none, some, List, [], ◌∷◌, ◌++◌, Text, text, any, filter,
  is_some, is_some_and, nat_beq, ◌==◌, list_eq, nat_eq, option_eq, Result, ok, err, if◌then◌else◌,
}
use multi_ai.Map
use multi_ai.Map.{Map}
use multi_ai.Protocol.{PaneRef, SessionInfo, PaneInfo, ProbeMsg}
use multi_ai.Protocol.Equal.{pane_ref_eq, session_info_eq, pane_info_eq}
use multi_ai.Scrape.{Engine, ScrapeTracker, forget}
use multi_ai.Serve.{
  Scope, sessions_scope, panes_scope, dump_scope, cleanup_scope, scope_eq, Server, error,
}

abbrev pub Failing : Type 0
Failing = Map Scope (Unit {0})

-- `report`: a failure is told unless its scope is failing already.
unfoldable pub report : Failing → Scope → ProbeMsg → Failing × List ProbeMsg
report failing scope msg =
    if is_some (Map.get scope failing)
    then (failing, [])
    else (Map.insert scope tt failing, msg ∷ [])

-- The answers of zellij.
pub record View : Type 0 where
  pub sessions : Result (List SessionInfo) Text
  pub panes : Text → Result (List PaneInfo) Text
  pub dump_screen : Text → ℕ → Result Text Text

abbrev pub Panes : Type 0
Panes = Map Text (List PaneInfo)

-- The panes found so far, the scopes that fail, and what to send.
pub record Found : Type 0 where
  pub fresh : Panes
  pub failing : Failing
  pub out : List ProbeMsg

-- The old panes of a session that zellij does not answer for.
abbrev keep_old : Text → Option (List PaneInfo) → Panes → Panes
keep_old name none fresh = fresh
keep_old name (some ps) fresh = Map.insert name ps fresh

unfoldable pub poll_session : Panes → Text → Result (List PaneInfo) Text → Found → Found
unfolding report
poll_session old name (ok ps) f = record {
  fresh = Map.insert name ps f.fresh;
  failing = Map.remove (panes_scope name) f.failing;
  out = f.out ++ (if Map.get name old == some ps then [] else ProbeMsg.panes name ps ∷ []);
}
poll_session old name (err x) f =
    let (failing, told) = report f.failing (panes_scope name) (error (text "zellij") x) in
    record {
      fresh = keep_old name (Map.get name old) f.fresh;
      failing = failing;
      out = f.out ++ told;
    }

unfoldable pub poll_each : View → Panes → List SessionInfo → Found → Found
unfolding poll_session
poll_each z old [] f = f
poll_each z old (s ∷ ss) f = poll_each z old ss (poll_session old s.name (z.panes s.name) f)

-- `exists`.
unfoldable pub pane_exists : Panes → PaneRef → Bool
pane_exists fresh p =
    is_some_and (Map.get p.session fresh) (λ ps. any (λ q. nat_beq q.id p.pane_id) ps)

abbrev pub forget_pane : Panes → Text → PaneInfo → ScrapeTracker → ScrapeTracker
forget_pane fresh name q t =
    let pane : PaneRef = record { session = name; pane_id = q.id } in
    if pane_exists fresh pane then t else forget t pane

unfoldable pub forget_panes : Panes → Text → List PaneInfo → ScrapeTracker → ScrapeTracker
unfolding pane_exists
forget_panes fresh name [] t = t
forget_panes fresh name (q ∷ qs) t = forget_panes fresh name qs (forget_pane fresh name q t)

-- The loop over the panes that there were before.
unfoldable pub forget_gone : Panes → Panes → ScrapeTracker → ScrapeTracker
unfolding forget_panes
forget_gone fresh [] t = t
forget_gone fresh ((name, ps) ∷ old) t = forget_gone fresh old (forget_panes fresh name ps t)

-- Whether a failing scope is of something that there still is.
unfoldable pub scope_lives : Panes → List SessionInfo → Scope → Bool
scope_lives fresh live sessions_scope = true
scope_lives fresh live cleanup_scope = true
scope_lives fresh live (panes_scope name) = any (λ l. not l.exited && (l.name == name)) live
scope_lives fresh live (dump_scope p) = pane_exists fresh p

module _ (e : Engine) where
  -- `poll_panes`, once zellij has told the sessions.
  unfoldable pub poll_sessions : View → List SessionInfo → Server e → Server e × List ProbeMsg
  unfolding poll_each forget_gone scope_lives
  poll_sessions z sessions s =
      let told : List ProbeMsg =
        if s.sessions == some sessions then [] else ProbeMsg.sessions sessions ∷ [] in
      let live : List SessionInfo = filter (λ x. not x.exited) sessions in
      let f : Found =
        poll_each z s.panes live
          (record { fresh = []; failing = Map.remove sessions_scope s.failing; out = [] }) in
      (
        record s {
          sessions = some sessions;
          panes = f.fresh;
          scrape = forget_gone f.fresh s.panes s.scrape;
          agents = Map.retain_keys (pane_exists f.fresh) s.agents;
          exit_hold = Map.retain_keys (pane_exists f.fresh) s.exit_hold;
          failing = Map.retain_keys (scope_lives f.fresh sessions) f.failing;
        },
        told ++ f.out,
      )

  -- `poll_panes`.
  unfoldable pub poll_panes : View → Server e → Server e × List ProbeMsg
  unfolding poll_sessions report
  poll_panes z s = elim z.sessions [
    | ok sessions ↦ poll_sessions z sessions s
    | err x ↦
        let (failing, told) = report s.failing sessions_scope (error (text "zellij") x) in
        (record s { failing = failing }, told)
  ]
