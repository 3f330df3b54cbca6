-- ===== src/Term/Run.antt =====
-- crates/mai-core/src/term.rs: opening a terminal, what its PTY prints, commands, and the loop of the
-- task (`open`, `channel_ended`, `output`, `command`, `run_terms`).
use multi_ai.Base.{
  ℕ, zero, suc, ◌+◌, ◌-◌, Bool, true, false, ◌&&◌, ◌||◌, not, Option, none, some, List, [], ◌∷◌,
  text, leb, ltb, nat_beq, nat_eq, is_some, Result, ok, err, if◌then◌else◌,
}
use multi_ai.Map.{Map, get, insert, remove}
use multi_ai.Host.{OpenError}
use multi_ai.Host.Backoff.{fresh}
use multi_ai.Host.Task.{stable_after}
use multi_ai.Term.{
  close, PtyOut, data_out, exit, AttachSpec, output, attached, detached, exited, open_failed,
  max_quick_ends, reason_of,
}
use multi_ai.Term.Task.{
  OpenResult, TermCmd, open_term, retry, stop, Slot, Link, idle, up, busy, down, Sent, emit, to_pty,
  tell, reply, Selected, command, printed, slept, World, Terms, send, local, connect, attach,
}
use multi_ai.Term.Reconnect.{idle_if_empty, no_slots, lost, reattached, reconnect}

module _ (w : World) where
  abbrev pub new_slot : AttachSpec → ℕ → Terms → Slot
  new_slot spec pty t = record {
    spec = spec;
    pty = some pty;
    generation = 0;
    attached_at = w.now t.awaits;
    quick_ends = 0;
  }

  abbrev pub add_slot : AttachSpec → ℕ → ℕ → Terms → Terms
  add_slot spec id pty t =
      send (tell id attached) (record t { slots = insert id (new_slot spec pty t) t.slots })

  abbrev pub on_opened :
      AttachSpec → ℕ → Terms × Option (Result ℕ OpenError) → Terms × Option OpenResult
  on_opened spec id (t, none) = (t, none)
  on_opened spec id (t, some (ok pty)) = (add_slot spec id pty t, some (ok id))
  on_opened spec id (t, some (err e)) = (idle_if_empty t, some (err (open_failed e)))

  -- The end of `open`.
  unfoldable pub attach_new : AttachSpec → Terms → Terms × Option OpenResult
  unfolding attach idle_if_empty
  attach_new spec t =
      on_opened spec t.next_id (attach w spec (record t { next_id = t.next_id + 1 }))

  -- Connect for the new terminal alone.
  abbrev pub on_first :
      AttachSpec → Terms × Option (Result (Unit {0}) OpenError) → Terms × Option OpenResult
  on_first spec (t, none) = (t, none)
  on_first spec (t, some (ok u)) = attach_new spec t
  on_first spec (t, some (err e)) =
      (send (emit none) (record t { link = idle }), some (err (open_failed e)))

  unfoldable pub connect_new : AttachSpec → Terms → Terms × Option OpenResult
  unfolding connect attach_new
  connect_new spec t = on_first spec (connect w t)

  -- After reconnecting for the terminals that there are.
  abbrev pub open_after : Link → AttachSpec → Terms → Terms × Option OpenResult
  open_after (down at error) spec t = (t, some (err (open_failed error)))
  open_after idle spec t = connect_new spec t
  open_after up spec t = attach_new spec t
  open_after busy spec t = attach_new spec t

  abbrev pub on_reconnected : AttachSpec → Terms × Bool → Terms × Option OpenResult
  on_reconnected spec (t, false) = (t, none)
  on_reconnected spec (t, true) = open_after t.link spec t

  abbrev pub open_over : Link → AttachSpec → Terms → Terms × Option OpenResult
  open_over (down at error) spec t = on_reconnected spec (reconnect w t)
  open_over idle spec t = connect_new spec t
  open_over up spec t = attach_new spec t
  open_over busy spec t = attach_new spec t

  -- `none` if told to stop meanwhile.
  unfoldable pub open_terminal : AttachSpec → Terms → Terms × Option OpenResult
  unfolding connect_new attach_new reconnect
  open_terminal spec t = open_over t.link spec t

  -- An end soon after attaching counts; a later one starts the count again.
  abbrev pub ends_after : ℕ → Slot → ℕ
  ends_after now s = if ltb (now - s.attached_at) stable_after then s.quick_ends + 1 else 0

  abbrev pub ended_slot : ℕ → Slot → Slot
  ended_slot now s = record s { pty = none; quick_ends = ends_after now s }

  abbrev pub on_attached_one : ℕ → ℕ → Terms × Option (Result ℕ OpenError) → Terms × Bool
  on_attached_one id generation (t, none) = (t, false)
  on_attached_one id generation (t, some (ok pty)) =
      (idle_if_empty (reattached w id generation pty t), true)
  on_attached_one id generation (t, some (err e)) = (lost w (reason_of e) t, true)

  -- The terminal is finished.
  abbrev pub finish : ℕ → Option ℕ → Terms → Terms
  finish id status t =
      idle_if_empty (send (tell id (exited status)) (record t { slots = remove id t.slots }))

  -- The channel of a slot that is there has ended.
  abbrev pub ended : ℕ → Slot → Terms → Terms
  ended id s t =
      send (tell id (detached (text "terminal channel closed")))
        (record t { slots = insert id (ended_slot (w.now t.awaits) s) t.slots })

  unfoldable pub end_slot : ℕ → Slot → Terms → Terms × Bool
  unfolding attach reattached lost reason_of idle_if_empty
  end_slot id s t =
      let tried = on_attached_one id (s.generation + 1) (attach w s.spec (ended id s t)) in
      if leb max_quick_ends (ended_slot (w.now t.awaits) s).quick_ends
      then (finish id none t, true)
      else tried

  abbrev pub end_found : ℕ → Option Slot → Terms → Terms × Bool
  end_found id none t = (t, true)
  end_found id (some s) t = end_slot id s t

  -- False if told to stop.
  unfoldable pub channel_ended : ℕ → Terms → Terms × Bool
  unfolding end_slot
  channel_ended id t = end_found id (get id t.slots) t

  abbrev pub is_up : Link → Bool
  is_up up = true
  is_up _ = false

  -- What the current PTY of a terminal printed; `none` is the end of its output.
  unfoldable pub on_output : ℕ → Option PtyOut → Terms → Terms × Bool
  unfolding channel_ended lost idle_if_empty
  on_output id (some (data_out d)) t = (send (tell id (output d)) t, true)
  on_output id (some (exit status)) t = (finish id status t, true)
  on_output id none t =
      let again = channel_ended id t in
      if is_up t.link && w.alive t.awaits then again else (lost w (text "connection lost") t, true)

  -- Output of a terminal that is closed or detached, or of an older PTY, is ignored.
  abbrev pub output_found : ℕ → ℕ → Option PtyOut → Option Slot → Terms → Terms × Bool
  output_found id generation out none t = (t, true)
  output_found id generation out (some s) t =
      let handled = on_output id out t in
      if not (nat_beq s.generation generation) || not (is_some s.pty) then (t, true) else handled

  unfoldable pub handle_output : ℕ → ℕ → Option PtyOut → Terms → Terms × Bool
  unfolding on_output
  handle_output id generation out t = output_found id generation out (get id t.slots) t

  -- `open`, and the answer to its request.
  unfoldable pub answer : ℕ → Terms × Option OpenResult → Terms × Bool
  answer r (t, none) = (t, false)
  answer r (t, some result) = (send (reply r result) t, true)

  abbrev pub retry_over : Link → Terms → Terms × Bool
  retry_over (down at error) t = reconnect w t
  retry_over _ t = (t, true)

  unfoldable pub handle_command : Option TermCmd → Terms → Terms × Bool
  unfolding answer open_terminal reconnect local idle_if_empty
  handle_command none t = (t, false)
  handle_command (some stop) t = (t, false)
  handle_command (some (open_term spec r)) t = answer r (open_terminal spec t)
  handle_command (some retry) t = retry_over t.link t
  handle_command (some c) t = (idle_if_empty (local c t), true)

  -- The delay can end only if there is one.
  abbrev pub wake : Link → Terms → Terms × Bool
  wake (down (some at) error) t =
      let tried = reconnect w t in if no_slots t.slots then (t, true) else tried
  wake _ t = (t, true)

  unfoldable pub select : Selected → Terms → Terms × Bool
  unfolding handle_command handle_output reconnect
  select (command c) t = handle_command c t
  select (printed id generation out) t = handle_output id generation out t
  select slept t = wake t.link t

  -- An open that waits comes before what the loop reads next.
  abbrev pub next_round : List (AttachSpec × ℕ) → Terms → Terms × Bool
  next_round [] t = select (w.selected t.awaits) (record t { awaits = t.awaits + 1 })
  next_round ((spec, r) ∷ rest) t = answer r (open_terminal spec (record t { pending = rest }))

  -- One round of the loop of `run_terms`.
  unfoldable pub round_of : Terms → Terms × Bool
  unfolding select answer open_terminal
  round_of t = next_round t.pending t

  abbrev pub close_each : Map ℕ Slot → List Sent → List Sent
  close_each [] log = log
  close_each ((id, s) ∷ m) log = elim s.pty [
    | none ↦ close_each m log
    | some p ↦ close_each m (to_pty p close ∷ log)
  ]

  unfoldable pub close_all : Terms → Terms
  close_all t = record t { log = close_each t.slots t.log }

  abbrev pub then_run : Terms × Bool → (Terms → Terms × Bool) → Terms × Bool
  then_run (t, false) next = (close_all t, false)
  then_run (t, true) next = next t

  -- At most `n` rounds; the second part tells that the task has not ended.
  unfoldable pub run : ℕ → Terms → Terms × Bool
  unfolding round_of close_all
  run zero t = (t, true)
  run (suc n) t = then_run (round_of t) (λ u. run n u)

unfoldable pub start : Terms
start = record {
  link = idle;
  slots = [];
  pending = [];
  next_id = 1;
  backoff = fresh;
  up_since = none;
  awaits = 0;
  log = [];
}
