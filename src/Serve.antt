-- ===== src/Serve.antt =====
-- crates/mai-probe/src/serve.rs: the probe's server. Here are its state, reading the spool and the
-- app's messages; polling panes is in Polling, scraping screens and a tick of the server in Scraping.
-- What the spool, zellij and the ack file give is an argument of the call that asks for it.
pub mod Draining
pub mod Polling
pub mod Scraping
pub mod Bindings
pub mod Upkeep
pub mod Failures
mod Trials
mod Examples
use multi_ai.Base.{
  PartialEq, ◌↔◌, ◌≡◌, arith, list_beq_iff, ℕ, ◌-◌, ◌<◌, max, Bool, true, false, ◌&&◌, not, Option,
  none, some, List, [], ◌∷◌, ◌++◌, map, Text, text, decimal, ltb, leb, is_some, is_none_or,
  is_some_and, to_list, nat_beq, ◌==◌, list_eq, nat_eq, Result, ok, err, if◌then◌else◌,
}
use multi_ai.Map
use multi_ai.Map.{Map}
use multi_ai.Protocol.{
  AgentState, exited, hook, PaneRef, AgentEvent, SessionInfo, PaneInfo, ScrapeRules, AgentRule,
  ProbeMsg, agent_event, AppMsg, ack, send_text, focus, set_interval, set_rules,
}
use multi_ai.Protocol.Equal.{state_beq, state_eq, pane_ref_eq, pane_ref_beq_iff}
use multi_ai.Spool.{SpoolRecord, ReadResult}
use multi_ai.Scrape.{Engine, CompiledRule, ScrapeTracker, RuleError, compile_rule, forget, reset}
use multi_ai.Hookmap.{Values, Mapped, map_hook}

abbrev pub min_interval_ms : ℕ
min_interval_ms = 250

pub record Intervals : Type 0 where
  pub pane_poll_ms : ℕ
  pub scrape_ms : ℕ
  pub metrics_ms : ℕ

abbrev pub default_intervals : Intervals
default_intervals = record { pane_poll_ms = 2_000; scrape_ms = 3_000; metrics_ms = 2_000 }

-- `error`.
abbrev pub error : Text → Text → ProbeMsg
error code e = ProbeMsg.error code e

-- `due`.
unfoldable pub due : Option ℕ → ℕ → ℕ → Bool
due last every now = is_none_or last (λ t. leb every (now - t))

pub record Binding : Type 0 where
  pub agent : Text
  pub from_hook : Bool
  pub misses : ℕ

-- What a periodic operation was doing when it failed.
pub data Scope : Type 0 where
  sessions_scope : Scope
  panes_scope : Text → Scope
  dump_scope : PaneRef → Scope
  cleanup_scope : Scope

unfoldable pub scope_beq : Scope → Scope → Bool
scope_beq sessions_scope sessions_scope = true
scope_beq (panes_scope a) (panes_scope b) = a == b
scope_beq (dump_scope a) (dump_scope b) = a == b
scope_beq cleanup_scope cleanup_scope = true
scope_beq _ _ = false

pub scope_beq_iff : (a b : Scope) → (scope_beq a b ≡ true) ↔ (a ≡ b)
unfolding scope_beq
scope_beq_iff (panes_scope a) (panes_scope b) = ground (arith, list_beq_iff a b)
scope_beq_iff (dump_scope a) (dump_scope b) = ground (arith, pane_ref_beq_iff a b)
scope_beq_iff a b = ground arith

instance abbrev pub scope_eq : PartialEq Scope
scope_eq = record { beq = scope_beq; beq_iff = scope_beq_iff }

module _ (e : Engine) where
  pub record Server : Type 0 where
    -- Whether the zellij binary was found.
    pub zellij : Bool
    pub rules : List (CompiledRule e)
    pub scrape : ScrapeTracker
    pub intervals : Intervals
    pub read_cursor : ℕ
    pub last_pane_poll : Option ℕ
    pub last_scrape : Option ℕ
    pub last_cleanup : Option ℕ
    pub sessions : Option (List SessionInfo)
    pub panes : Map Text (List PaneInfo)
    pub agents : Map PaneRef Binding
    -- A set: the keys.
    pub exit_hold : Map PaneRef (Unit {0})
    -- A set as well.
    pub failing : Map Scope (Unit {0})
    pub spool_failing : Bool

  module _ (v : Values) where
    abbrev pub pane_of : SpoolRecord v.Value → PaneRef
    pane_of rec = record { session = rec.session; pane_id = rec.pane_id }

    abbrev pub is_exit : Option Mapped → Bool
    is_exit m = is_some_and m (λ x. x.state == exited)

    -- What a hook tells of a pane: its agent has gone, or it is bound to the agent.
    unfoldable pub bind : Server → SpoolRecord v.Value → Server
    bind s rec =
        let pane : PaneRef = pane_of rec in
        let b : Binding = record { agent = rec.agent; from_hook = true; misses = 0 } in
        if not s.zellij
        then s
        else if is_exit (map_hook v rec.agent rec.payload)
        then record s {
          agents = Map.remove pane s.agents;
          scrape = forget s.scrape pane;
          exit_hold = Map.insert pane tt s.exit_hold;
        }
        else record s {
          agents = Map.insert pane b s.agents;
          exit_hold = Map.remove pane s.exit_hold;
        }

    -- The event that a record is forwarded as, if it changes the state.
    unfoldable pub event_of : ℕ → SpoolRecord v.Value → List ProbeMsg
    event_of cursor rec = elim (map_hook v rec.agent rec.payload) [
      | none ↦ []
      | some m ↦
          agent_event (record {
            pane = pane_of rec;
            agent = rec.agent;
            source = hook;
            state = m.state;
            message = m.message;
            ts_ms = rec.ts_ms;
            spool_offset = some cursor;
          })
          ∷ []
    ]

    -- The loop over the records.
    unfoldable pub drain_records : Server → List (ℕ × SpoolRecord v.Value) → Server × List ProbeMsg
    drain_records s [] = (s, [])
    drain_records s ((cursor, rec) ∷ rs) =
        let (s', out) = drain_records (bind s rec) rs in (s', event_of cursor rec ++ out)

    abbrev pub bad_line_message : ℕ → List ProbeMsg
    bad_line_message n =
        if ltb 0 n
        then error (text "spool_bad_line")
            (text "skipped " ++ (decimal n ++ text " unparsable spool line(s)"))
          ∷ []
        else []

    -- `drain_spool`; `read` is what the spool gave.
    unfoldable pub drain_spool :
        Server → Result (ReadResult (SpoolRecord v.Value)) Text → Server × List ProbeMsg
    drain_spool s (err x) =
        if s.spool_failing
        then (s, [])
        else (record s { spool_failing = true }, error (text "spool_read") x ∷ [])
    drain_spool s (ok read) =
        let s' : Server = record s { spool_failing = false; read_cursor = read.end_cursor } in
        let (s'', out) = drain_records s' read.records in
        (s'', bad_line_message read.bad_lines ++ out)

  -- `CompiledRules::compile`.
  unfoldable pub compile : List AgentRule → Result (List (CompiledRule e)) RuleError
  compile [] = ok []
  compile (r ∷ rs) =
      let rest = compile rs in
      elim (compile_rule e r) [
        | err x ↦ err x
        | ok c ↦ elim rest [ err x ↦ err x | ok cs ↦ ok (c ∷ cs) ]
      ]

  -- `with_zellij`; `outcome` is what the call of zellij gives.
  unfoldable pub with_zellij : Server → Result (Unit {0}) Text → List ProbeMsg
  with_zellij s outcome =
      let called : List ProbeMsg = elim outcome [
        | ok _ ↦ []
        | err x ↦ error (text "zellij") x ∷ []
      ] in
      if s.zellij
      then called
      else error (text "zellij_missing") (text "zellij not found on this host") ∷ []

  -- `handle`; `outcome` is what writing the ack or calling zellij gives, `show` is Display.
  unfoldable pub handle :
      (RuleError → Text) → Server → Result (Unit {0}) Text → AppMsg → Server × List ProbeMsg
  handle show s outcome (ack cursor) =
      (s, elim outcome [ ok _ ↦ [] | err x ↦ error (text "spool_ack") x ∷ [] ])
  handle show s outcome (send_text session pane t) = (s, with_zellij s outcome)
  handle show s outcome (focus session pane tab) = (s, with_zellij s outcome)
  handle show s outcome (set_interval p c m) = (
    record s {
      intervals = record {
        pane_poll_ms = max p min_interval_ms;
        scrape_ms = max c min_interval_ms;
        metrics_ms = max m min_interval_ms;
      };
    },
    [],
  )
  handle show s outcome (set_rules rules) = elim (compile rules.agents) [
    | ok compiled ↦ (record s { rules = compiled; scrape = reset s.scrape }, [])
    | err x ↦ (s, error (text "bad_rules") (show x) ∷ [])
  ]
