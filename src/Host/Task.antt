-- ===== src/Host/Task.antt =====
-- crates/mai-core/src/host.rs: the task of one host (`Host::run`, `busy`, `wait`, `serve`,
-- `idle_command`) as a state machine. A phase is the `await` at which the task stands, an input is
-- what that `await` gives it, and the output is what the task sends while it handles the input.
-- An input that the phase does not wait for changes nothing.
pub mod Shown
pub mod Relay
pub mod Commands
pub mod Delays
use multi_ai.Base.{
  ℕ, ◌+◌, ◌-◌, Bool, true, false, Option, none, some, List, [], ◌∷◌, ◌++◌, Text, text, leb, Result,
  ok, err, if◌then◌else◌,
}
use multi_ai.Protocol.{HelloInfo, ProbeMsg, agent_event, AppMsg, ack}
use multi_ai.Link.{LinkError, display}
use multi_ai.Link
use multi_ai.Host.{
  Problem, protocol, OpenError, Opened, ConnState, connecting, up, retrying, needs_user, HostEvent,
  probe, hello, hooks, msg, dropped, notes, HostCommand, retry, send, stop,
}
use multi_ai.Host.Backoff.{Backoff, fresh, next_delay}

-- `STABLE_AFTER`.
abbrev pub stable_after : ℕ
stable_after = 30_000

-- What a wait is for: `wait(None)` after a problem at `open` or of the protocol, or a delay.
pub data Wait : Type 0 where
  for_user for_protocol for_delay : Wait

pub data Phase : Type 0 where
  -- `busy(connector.open(..))`
  opening : Phase
  -- `busy(link.hello())`
  greeting : Opened → Phase
  -- `serve`, with `up_since`
  serving : ℕ → Phase
  waiting : Wait → Phase
  stopped : Phase

pub record Task : Type 0 where
  pub phase : Phase
  pub backoff : Backoff

pub data Input : Type 0 where
  -- A command, or the end of the command channel.
  command : Option HostCommand → Input
  opened : Result Opened OpenError → Input
  greeted : Result HelloInfo LinkError → Input
  received : Result ProbeMsg LinkError → Input
  -- The delay has passed.
  slept : Input

-- What the task reads beside its input: the time, the end of the probe's stderr, and the outcome of
-- writing to the probe.
pub record World : Type 0 where
  pub now : ℕ
  pub stderr : Option Text
  pub write : Option LinkError

pub data Output : Type 0 where
  emit : HostEvent → Output
  write : AppMsg → Output

-- `with_stderr`.
pub with_stderr : Text → Option Text → Text
with_stderr reason none = reason
with_stderr reason (some tail) = reason ++ (text " (probe stderr: " ++ (tail ++ text ")"))

-- The top of the loop in `run`.
abbrev pub reopen : Task → Task × List Output
reopen t = (record t { phase = opening }, emit (probe connecting) ∷ [])

abbrev pub halt : Task → Task × List Output
halt t = (record t { phase = stopped }, [])

-- The bottom of the loop: report, and wait for the next attempt.
unfoldable pub back_off : Task → Text → Task × List Output
back_off t reason =
    let (b, delay) = next_delay t.backoff in
    (record { phase = waiting for_delay; backoff = b }, emit (probe (retrying delay reason)) ∷ [])

abbrev pub ask_user : Task → Wait → Problem → Task × List Output
ask_user t w p = (record t { phase = waiting w }, emit (probe (needs_user p)) ∷ [])

-- `serve` has ended by an error: a probe that stayed up resets the backoff.
unfoldable pub link_lost : Task → ℕ → World → LinkError → Task × List Output
unfolding back_off
link_lost t since w e =
    let b : Backoff = if leb stable_after (w.now - since) then fresh else t.backoff in
    back_off (record t { backoff = b }) (with_stderr (display e) w.stderr)

-- The outputs of one step before those of the rest.
abbrev pub after : List Output → Task × List Output → Task × List Output
after outs (t, more) = (t, outs ++ more)

-- The command of a task that has no probe running (`idle_command` in `busy` and in `wait`); `woken`
-- is what `Retry` does.
unfoldable pub idle_command : Task → Task × List Output → Option HostCommand → Task × List Output
idle_command t woken none = halt t
idle_command t woken (some stop) = halt t
idle_command t woken (some HostCommand.retry) = woken
idle_command t woken (some (send m)) = (t, emit (dropped m) ∷ [])

-- What follows a wait: a problem at `open` resets the backoff.
unfoldable pub woken : Task → Wait → Task × List Output
woken t for_user = reopen (record t { backoff = fresh })
woken t for_protocol = reopen t
woken t for_delay = reopen t

unfoldable pub on_opened : Task → World → Result Opened OpenError → Task × List Output
unfolding back_off
on_opened t w (ok o) = (record t { phase = greeting o }, [])
on_opened t w (err (OpenError.needs_user p)) = ask_user t for_user p
on_opened t w (err (OpenError.retry reason)) = back_off t reason

-- The notes are reported if there are any.
abbrev pub note_outputs : List Text → List Output
note_outputs [] = []
note_outputs (n ∷ ns) = emit (notes (n ∷ ns)) ∷ []

unfoldable pub on_greeted : Task → World → Opened → Result HelloInfo LinkError → Task × List Output
unfolding back_off
on_greeted t w o (err (Link.protocol p a)) = ask_user t for_protocol (protocol p a)
on_greeted t w o (ok info) = (
  record t { phase = serving w.now },
  emit (hello info) ∷ emit (hooks o.hooks) ∷ (note_outputs o.notes ++ emit (probe up) ∷ []),
)
on_greeted t w o (err e) = back_off t (with_stderr (display e) w.stderr)

-- A message is handed on, and then its cursor is acknowledged.
unfoldable pub acknowledge : Task → ℕ → World → Option ℕ → Task × List Output
unfolding link_lost
acknowledge t since w none = (t, [])
acknowledge t since w (some o) =
    after (write (ack o) ∷ []) (elim w.write [ none ↦ (t, []) | some e ↦ link_lost t since w e ])

abbrev pub cursor_of : ProbeMsg → Option ℕ
cursor_of (agent_event ev) = ev.spool_offset
cursor_of _ = none

unfoldable pub on_received : Task → ℕ → World → Result ProbeMsg LinkError → Task × List Output
unfolding acknowledge link_lost
on_received t since w (err e) = link_lost t since w e
on_received t since w (ok m) = after (emit (msg m) ∷ []) (acknowledge t since w (cursor_of m))

unfoldable pub serve_command : Task → ℕ → World → Option HostCommand → Task × List Output
unfolding link_lost
serve_command t since w none = halt t
serve_command t since w (some stop) = halt t
serve_command t since w (some HostCommand.retry) = (t, [])
serve_command t since w (some (send m)) = after (write m ∷ []) (elim w.write [
  | none ↦ (t, [])
  | some e ↦ after (emit (dropped m) ∷ []) (link_lost t since w e)
])

-- One input, by the phase.
unfoldable pub react : Phase → Task → World → Input → Task × List Output
unfolding idle_command on_opened on_greeted on_received serve_command woken
react opening t w (opened r) = on_opened t w r
react opening t w (command c) = idle_command t (t, []) c
react (greeting o) t w (greeted r) = on_greeted t w o r
react (greeting o) t w (command c) = idle_command t (t, []) c
react (serving since) t w (received r) = on_received t since w r
react (serving since) t w (command c) = serve_command t since w c
react (waiting k) t w (command c) = idle_command t (woken t k) c
react (waiting for_delay) t w slept = woken t for_delay
react _ t w _ = (t, [])

unfoldable pub step : Task → World → Input → Task × List Output
unfolding react
step t w i = react t.phase t w i

-- `run_host`: the first round, and then the inputs in order.
abbrev pub start : Task × List Output
start = reopen (record { phase = opening; backoff = fresh })

unfoldable pub run : Task → List (World × Input) → Task × List Output
run t [] = (t, [])
run t ((w, i) ∷ is) = let (t', outs) = step t w i in after outs (run t' is)
