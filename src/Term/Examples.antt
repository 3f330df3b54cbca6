-- ===== src/Term/Examples.antt =====
-- crates/mai-core/src/term.rs: tests, and the theorems at concrete inputs.
use multi_ai.Base.{
  Option, Bool, Text, ◌++◌, ℕ, zero, suc, ◌≡◌, refl, true, false, none, some, [], ◌∷◌, text, ok,
  err, nat_eq, Result,
}
use multi_ai.Map.{get, insert, remove}
use multi_ai.Host.{OpenError, ConnState}
use multi_ai.Host.Backoff.{next_delay}
use multi_ai.Quoting.Splitting.{outside, split}
use multi_ai.Quoting.{posix}
use multi_ai.Term.Words.{attach_words}
use multi_ai.Term.{
  remote_attach_command, AttachSpec, bad_session, attached, check_session, reason_of,
}
use multi_ai.Term.Task.{
  emit, tell, open_term, input, stop, Selected, command, printed, slept, World, local, busy_loop,
  wait, attach, connect,
}
use multi_ai.Term.Reconnect.{idle_if_empty, lost, reattached, attach_again, attach_each, reconnect}
use multi_ai.Term.Run.{
  attach_new, connect_new, open_terminal, end_slot, channel_ended, on_output, handle_output, answer,
  handle_command, select, round_of, run, close_all, start,
}
use multi_ai.Term.Invariant.{IsValid}
use multi_ai.Term.Rounds.{rounds-IsValid}
use multi_ai.Term.Ending.{AllClosed, run-AllClosed}

refused_option : check_session (text "--help") ≡ err (bad_session (text "--help"))
unfolding check_session
refused_option = refl

abbrev a_spec : AttachSpec
a_spec = record { session = text "main"; create = false; size = record { cols = 80; rows = 24 } }

-- A terminal is opened; the connection breaks; the first attempt to reconnect fails, the second succeeds
-- while the user types; and the task is told to stop.
abbrev readings : ℕ → Selected
readings zero = command (some (open_term a_spec 7))
readings (suc (suc (suc zero))) = printed 1 0 none
readings (suc (suc (suc (suc (suc (suc (suc (suc (suc zero))))))))) = command (some stop)
readings _ = slept

abbrev connections : ℕ → Result (Unit {0}) OpenError
connections (suc (suc (suc (suc (suc zero))))) = err (OpenError.retry (text "no route"))
connections _ = ok tt

abbrev a_world : World
a_world = record {
  zellij = none;
  reported = λ n. none;
  now = λ n. n;
  during = λ n. some (input 1 (4 ∷ [])) ∷ [];
  connected = connections;
  attach_outcome = λ path spec n. ok n;
  alive = λ n. false;
  selected = readings;
}

runs : Unit {0}
unfolding run round_of select handle_command answer open_terminal connect_new attach_new connect
    attach wait busy_loop local get insert remove handle_output on_output channel_ended end_slot
    reconnect attach_each attach_again reattached lost reason_of idle_if_empty next_delay close_all
    start
runs = tt

reconnected :
    (run a_world 4 start).0.log
    ≡ tell 1 attached
      ∷ emit (some ConnState.up)
      ∷ emit (some (ConnState.retrying 2_000 (text "no route")))
      ∷ (run a_world 2 start).0.log
unfolding runs
reconnected = refl

goes_on : (run a_world 4 start).1 ≡ true
unfolding runs
goes_on = refl

ends : (run a_world 5 start).1 ≡ false
unfolding runs
ends = refl

rounds-IsValid_example : IsValid (run a_world 4 start).0
rounds-IsValid_example = rounds-IsValid a_world 4 goes_on

run-AllClosed_example : AllClosed (run a_world 5 start).0
run-AllClosed_example = run-AllClosed a_world 5 start ends

attach_words_example :
    let run : Option Text → Bool → Bool → Text =
      λ z create env_accepted. remote_attach_command posix z (text "my work") create env_accepted in
    (split outside [] false (run (some (text "/bin/z")) false true)
      ≡ some (text "/bin/z" ∷ text "attach" ∷ text "my work" ∷ []))
    × (split outside [] false (run (some (text "/bin/z")) true true)
        ≡ some (text "/bin/z" ∷ text "attach" ∷ text "--create" ∷ text "my work" ∷ []))
    × ((create : Bool) → run none create true ≡ run (some (text "zellij")) create true)
    × ((z : Option Text) (create : Bool)
        → run z create false ≡ text "LANG=en_US.UTF-8 LC_CTYPE=en_US.UTF-8 " ++ run z create true)
attach_words_example = attach_words (text "/bin/z") (text "my work")
