-- ===== src/Serve/Draining.antt =====
-- crates/mai-probe/src/serve.rs: what reading the spool forwards, and what it tells of the panes.
use multi_ai.Base.{
  ℕ, ◌<◌, ◌≡◌, refl, ap, ◌∙◌, Bool, true, false, Option, none, some, List, [], ◌∷◌, ◌++◌, arith,
  is_some, ◌==◌, if◌then◌else◌, Bool-cases, inl, inr, ok, Text, text, decimal,
}
use multi_ai.Map
use multi_ai.Protocol.{AgentState, exited, hook, PaneRef, AgentEvent, ProbeMsg, agent_event}
use multi_ai.Protocol.Equal.{pane_ref_eq, state_beq}
use multi_ai.Spool.{SpoolRecord, ReadResult}
use multi_ai.Scrape.{Engine}
use multi_ai.Hookmap.{Values, Mapped, map_hook}
use multi_ai.Serve.{
  Binding, Server, pane_of, is_exit, bind, event_of, drain_records, drain_spool, bad_line_message,
}

module _ (e : Engine) (v : Values) where
  -- What is known of one pane: its binding, and whether it is held back.
  abbrev pub pane_state : Server e → PaneRef → Option Binding × Bool
  pane_state s p = (Map.get p s.agents, is_some (Map.get p s.exit_hold))

  -- What a record tells of its pane: that its agent has exited, or that the agent is there.
  abbrev pub told_state : Text → AgentState → Option Binding × Bool
  told_state agent exited = (none, true)
  told_state agent _ = (some (record { agent = agent; from_hook = true; misses = 0 }), false)

  abbrev pub told_by : Text → Option Mapped → Option Binding × Bool
  told_by agent none = (some (record { agent = agent; from_hook = true; misses = 0 }), false)
  told_by agent (some m) = told_state agent m.state

  abbrev pub told : SpoolRecord v.Value → Option Binding × Bool
  told rec = told_by rec.agent (map_hook v rec.agent rec.payload)

  -- The pane of a record.
  abbrev pub place : SpoolRecord v.Value → PaneRef
  place rec = record { session = rec.session; pane_id = rec.pane_id }

  told_exit :
      (agent : Text) (m : Option Mapped) → is_exit e v m ≡ true → told_by agent m ≡ (none, true)
  unfolding state_beq
  told_exit agent m h = ground arith

  told_bound :
      (agent : Text) (m : Option Mapped)
      → is_exit e v m ≡ false
      → told_by agent m ≡ (some (record { agent = agent; from_hook = true; misses = 0 }), false)
  unfolding state_beq
  told_bound agent m h = ground arith

  bind-pane :
      (s : Server e) (rec : SpoolRecord v.Value) (p : PaneRef)
      → s.zellij ≡ true
      → pane_state (bind e v s rec) p ≡ (if place rec == p then told rec else pane_state s p)
  unfolding bind
  bind-pane s rec p z = elim (Bool-cases (is_exit e v (map_hook v rec.agent rec.payload))) [
    | inl y ↦
        rw (told_exit rec.agent (map_hook v rec.agent rec.payload) y, z, y)
          (ground (
            arith,
            Map.get-remove (pane_of e v rec) p s.agents,
            Map.get-insert (pane_of e v rec) p tt s.exit_hold,
          ))
    | inr n ↦
        rw (told_bound rec.agent (map_hook v rec.agent rec.payload) n, z, n)
          (ground (
            arith,
            Map.get-insert (pane_of e v rec) p
                (record { agent = rec.agent; from_hook = true; misses = 0 }) s.agents,
            Map.get-remove (pane_of e v rec) p s.exit_hold,
          ))
  ]

  -- The last record of a pane decides.
  abbrev pub last_told :
      PaneRef → Option Binding × Bool → List (ℕ × SpoolRecord v.Value) → Option Binding × Bool
  last_told p before [] = before
  last_told p before ((c, rec) ∷ rs) = last_told p (if place rec == p then told rec else before) rs

  bind-zellij : (s : Server e) (rec : SpoolRecord v.Value) → (bind e v s rec).zellij ≡ s.zellij
  unfolding bind
  bind-zellij s rec = ground arith

  drain_records-pane :
      (s : Server e) (rs : List (ℕ × SpoolRecord v.Value)) (p : PaneRef)
      → s.zellij ≡ true
      → pane_state (drain_records e v s rs).0 p ≡ last_told p (pane_state s p) rs
  unfolding drain_records
  drain_records-pane s [] p z = refl
  drain_records-pane s ((c, rec) ∷ rs) p z =
      drain_records-pane (bind e v s rec) rs p (bind-zellij s rec ∙ z)
      ∙ ap (λ b. last_told p b rs) (bind-pane s rec p z)

  -- The event says what the record and its mapping say, at the record's cursor.
  abbrev pub IsEventOf : ℕ → SpoolRecord v.Value → Mapped → AgentEvent → Type 0
  IsEventOf c rec m ev =
      (ev.pane ≡ place rec)
      × (ev.agent ≡ rec.agent)
      × (ev.source ≡ hook)
      × (ev.state ≡ m.state)
      × (ev.message ≡ m.message)
      × (ev.ts_ms ≡ rec.ts_ms)
      × (ev.spool_offset ≡ some c)

  -- A record is the next event if the mapping gives it a state, and is passed over if not.
  abbrev pub Next :
      Option Mapped → ℕ → SpoolRecord v.Value → (List ProbeMsg → Type 0) → List ProbeMsg → Type 0
  Next none c rec Rest out = Rest out
  Next (some m) c rec Rest out =
      (ev : AgentEvent) × ((rest : List ProbeMsg) × ((out ≡ agent_event ev ∷ rest)
          × (IsEventOf c rec m ev × Rest rest)))

  -- Exactly the events of the records are sent, in their order.
  abbrev pub Forwards : List (ℕ × SpoolRecord v.Value) → List ProbeMsg → Type 0
  Forwards [] out = out ≡ []
  Forwards ((c, rec) ∷ rs) out =
      Next (map_hook v rec.agent rec.payload) c rec (λ rest. Forwards rs rest) out

  -- The lines that could not be read are told by one error that counts them.
  abbrev pub Counts : ℕ → List ProbeMsg → Type 0
  Counts n out =
      (n ≡ 0 → out ≡ [])
      × (0 < n
          → out
            ≡ ProbeMsg.error (text "spool_bad_line")
                (text "skipped " ++ (decimal n ++ text " unparsable spool line(s)"))
              ∷ [])

  Counts-bad_line_message : (n : ℕ) → Counts n (bad_line_message e v n)
  Counts-bad_line_message n = (λ h. ground arith, λ h. ground arith)

  event_of-none :
      (c : ℕ) (rec : SpoolRecord v.Value)
      → map_hook v rec.agent rec.payload ≡ none
      → event_of e v c rec ≡ []
  unfolding event_of
  event_of-none c rec q = ground (arith, q)

  event_of-some :
      (c : ℕ) (rec : SpoolRecord v.Value) (m : Mapped)
      → map_hook v rec.agent rec.payload ≡ some m
      → (ev : AgentEvent) × (event_of e v c rec ≡ agent_event ev ∷ []) × IsEventOf c rec m ev
  unfolding event_of
  event_of-some c rec m q = (
    record {
      pane = place rec;
      agent = rec.agent;
      source = hook;
      state = m.state;
      message = m.message;
      ts_ms = rec.ts_ms;
      spool_offset = some c;
    },
    ground (arith, q),
    (refl, refl, refl, refl, refl, refl, refl),
  )

  event_of-Next :
      (c : ℕ) (rec : SpoolRecord v.Value) (o : Option Mapped) (Rest : List ProbeMsg → Type 0)
      (more : List ProbeMsg)
      → map_hook v rec.agent rec.payload ≡ o
      → Rest more
      → Next o c rec Rest (event_of e v c rec ++ more)
  event_of-Next c rec none Rest more q h = rw (event_of-none c rec q) h
  event_of-Next c rec (some m) Rest more q h =
      let (ev, sent, is) = event_of-some c rec m q in
      (ev, (more, (ap (λ x. x ++ more) sent, (is, h))))

  drain_records-Forwards :
      (s : Server e) (rs : List (ℕ × SpoolRecord v.Value)) → Forwards rs (drain_records e v s rs).1
  unfolding drain_records
  drain_records-Forwards s [] = refl
  drain_records-Forwards s ((c, rec) ∷ rs) =
      event_of-Next c rec (map_hook v rec.agent rec.payload) (λ rest. Forwards rs rest)
        (drain_records e v (bind e v s rec) rs).1 refl (drain_records-Forwards (bind e v s rec) rs)

  drain_records-cursor :
      (s : Server e) (rs : List (ℕ × SpoolRecord v.Value))
      → (drain_records e v s rs).0.read_cursor ≡ s.read_cursor
  unfolding drain_records bind
  drain_records-cursor s [] = refl
  drain_records-cursor s ((c, rec) ∷ rs) = drain_records-cursor (bind e v s rec) rs ∙ ground arith

  -- When the spool can be read and zellij was found: the server goes on after what was read; every
  -- record that changes an agent's state is forwarded as an event, in order, after one error that
  -- counts the lines that could not be read, if there are any; and of each pane the last record
  -- decides: the agent has exited, and the pane is held back from scraping, or the pane is bound to
  -- the record's agent and not held back. A pane without a record keeps its state.
  pub drain_lem :
      (s : Server e) (read : ReadResult (SpoolRecord v.Value))
      → s.zellij ≡ true
      → let r = drain_spool e v s (ok read) in
        (r.0.read_cursor ≡ read.end_cursor)
        × ((told : List ProbeMsg) × ((sent : List ProbeMsg) × ((r.1 ≡ told ++ sent)
                × (Counts read.bad_lines told × Forwards read.records sent))))
        × ((p : PaneRef) → pane_state r.0 p ≡ last_told p (pane_state s p) read.records)
  unfolding drain_spool
  drain_lem s read z =
      let s' : Server e = record s { spool_failing = false; read_cursor = read.end_cursor } in
      (
        drain_records-cursor s' read.records,
        (
          bad_line_message e v read.bad_lines,
          (
            (drain_records e v s' read.records).1,
            (
              refl,
              (Counts-bad_line_message read.bad_lines, drain_records-Forwards s' read.records),
            ),
          ),
        ),
        λ p. drain_records-pane s' read.records p z,
      )
