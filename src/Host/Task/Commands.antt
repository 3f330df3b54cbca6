-- ===== src/Host/Task/Commands.antt =====
-- crates/mai-core/src/host.rs: what a host's task does with the commands it is given.
use multi_ai.Base.{◌≡◌, ◌≢◌, refl, Option, none, some, List, [], ◌∷◌, arith}
use multi_ai.Protocol.{AppMsg}
use multi_ai.Link.{LinkError}
use multi_ai.Host.{connecting, probe, dropped, HostCommand, send, stop}
use multi_ai.Host.Backoff.{fresh}
use multi_ai.Host.Task.{
  Wait, for_user, for_delay, Phase, opening, greeting, serving, waiting, stopped, Task, Input,
  command, World, Output, emit, write, link_lost, react, step, run,
}

-- The task has not been told to stop.
abbrev pub IsRunning : Task → Type 0
IsRunning t = t.phase ≢ stopped

-- While the probe is up, a message of the app is written, and the task stays where it is; if the write fails,
-- the message is reported as dropped, before anything else, and the task waits to connect again. In every
-- other phase it is reported as dropped, and nothing else changes.
abbrev pub Answers : AppMsg → World → Task → Phase → Task × List Output → Type 0
Answers m w t (serving since) r =
    (w.write ≡ none → r ≡ (t, write m ∷ []))
    × ((e : LinkError)
        → w.write ≡ some e
        → (r.0.phase ≡ waiting for_delay)
          × ((os : List Output) × (r.1 ≡ write m ∷ emit (dropped m) ∷ os)))
Answers m w t p r = r ≡ (t, emit (dropped m) ∷ [])

react-Answers :
    (p : Phase) (t : Task) (w : World) (m : AppMsg)
    → p ≢ stopped
    → Answers m w t p (react p t w (command (some (send m))))
unfolding react link_lost
react-Answers opening t w m r = refl
react-Answers (greeting o) t w m r = refl
react-Answers (serving since) t w m r =
    (λ e. ground arith, λ e p. (ground arith, ((link_lost t since w e).1, ground arith)))
react-Answers (waiting k) t w m r = refl
react-Answers stopped t w m r = absurd (r refl)

-- Until the task is told to stop, no message of the app is lost without a word: while the probe is up it is
-- written and the task stays where it is, and if the write fails the message is reported as dropped and the
-- task waits to connect again; in every other phase it is reported as dropped and the task stays where it is.
pub send_answered :
    (t : Task) (w : World) (m : AppMsg)
    → IsRunning t
    → Answers m w t t.phase (step t w (command (some (send m))))
unfolding step
send_answered t w m r = react-Answers t.phase t w m r

-- Ending commands: stop, or the end of the command channel.
abbrev pub IsEnd : Option HostCommand → Type 0
IsEnd none = Unit
IsEnd (some stop) = Unit
IsEnd _ = ⊥

react_end :
    (p : Phase) (t : Task) (w : World) (c : Option HostCommand)
    → t.phase ≡ p
    → IsEnd c
    → react p t w (command c) ≡ (record t { phase = stopped }, [])
unfolding react
react_end p t w c same e = ground arith

end_step :
    (t : Task) (w : World) (c : Option HostCommand)
    → IsEnd c
    → step t w (command c) ≡ (record t { phase = stopped }, [])
unfolding step
end_step t w c e = react_end t.phase t w c refl e

stopped_step : (t : Task) (w : World) (i : Input) → t.phase ≡ stopped → step t w i ≡ (t, [])
unfolding step react
stopped_step t w i s = ground arith

stopped_run : (t : Task) (is : List (World × Input)) → t.phase ≡ stopped → run t is ≡ (t, [])
unfolding run
stopped_run t [] s = refl
stopped_run t ((w, i) ∷ is) s = rw (stopped_step t w i s) (rw (stopped_run t is s))

-- In every phase, being told to stop ends the task: it sends nothing more, whatever follows.
pub end_is_final :
    (t : Task) (w : World) (c : Option HostCommand) (is : List (World × Input))
    → IsEnd c
    → run t ((w, command c) ∷ is) ≡ (record t { phase = stopped }, [])
unfolding run
end_is_final t w c is e =
    rw (end_step t w c e) (rw (stopped_run (record t { phase = stopped }) is refl))

-- While it waits, for a delay or for the user, the task connects again at once when told to retry;
-- only a problem at opening the connection starts the delays over.
pub retry_reopens :
    (t : Task) (w : World) (k : Wait)
    → t.phase ≡ waiting k
    → ((step t w (command (some HostCommand.retry))).0.phase ≡ opening)
      × ((step t w (command (some HostCommand.retry))).1 ≡ emit (probe connecting) ∷ [])
      × (k ≡ for_user → (step t w (command (some HostCommand.retry))).0.backoff ≡ fresh)
      × (k ≢ for_user → (step t w (command (some HostCommand.retry))).0.backoff ≡ t.backoff)
unfolding step react
retry_reopens t w k e = ground arith
