-- ===== src/Host/Task/Relay.antt =====
-- crates/mai-core/src/host.rs: hook events are acknowledged once they have been handed on.
use multi_ai.Base.{
  ℕ, ◌≡◌, refl, ◌∙◌, Option, none, some, List, [], ◌∷◌, ◌++◌, arith, nat_beq, ok, if◌then◌else◌,
  All,
}
use multi_ai.Protocol.{agent_event, ack}
use multi_ai.Host.{msg, send}
use multi_ai.Host.Task.{
  for_delay, Phase, opening, greeting, serving, waiting, stopped, Task, Input, command, received,
  World, Output, emit, write, react, step, run, cursor_of,
}

-- The cursor that waits for its acknowledgement: that of the message handed on just before.
abbrev pub owed : Output → Option ℕ
owed (emit (msg m)) = cursor_of m
owed _ = none

-- Every acknowledgement written is owed by the output before it, and every debt is paid at once.
-- The result is the debt at the end.
unfoldable pub settle : Option ℕ → List Output → Option (Option ℕ)
settle debt [] = some debt
settle (some o) (write (ack c) ∷ os) = if nat_beq c o then settle none os else none
settle none (write (ack c) ∷ os) = none
settle (some o) (_ ∷ os) = none
settle none (out ∷ os) = settle (owed out) os

-- The app itself sends no acknowledgements: the commands of a host carry none.
abbrev pub SendsNoAck : World × Input → Type 0
SendsNoAck (w, command (some (send (ack c)))) = ⊥
SendsNoAck _ = Unit

abbrev Settles : Task × List Output → Type 0
Settles r = settle none r.1 ≡ some none

react-Settles :
    (p : Phase) (t : Task) (w : World) (i : Input) → SendsNoAck (w, i) → Settles (react p t w i)
unfolding react settle
react-Settles opening t w i s = ground arith
react-Settles (greeting o) t w i s = ground arith
react-Settles (serving since) t w (received (ok (agent_event ev))) s = ground arith
react-Settles (serving since) t w i s = ground arith
react-Settles (waiting for_delay) t w i s = ground arith
react-Settles (waiting k) t w i s = ground arith
react-Settles stopped t w i s = ground arith

settle-append :
    (d : Option ℕ) (a b : List Output) → settle d a ≡ some none → settle d (a ++ b) ≡ settle none b
unfolding settle
settle-append none [] b e = refl
settle-append (some o) [] b e = cc
settle-append none (write (ack c) ∷ a) b e = cc
settle-append none (write m ∷ a) b e = settle-append none a b e
settle-append none (emit ev ∷ a) b e = settle-append (owed (emit ev)) a b e
settle-append (some o) (write (ack c) ∷ a) b e = ground (arith, settle-append none a b)
settle-append (some o) (emit ev ∷ a) b e = cc
settle-append (some o) (write m ∷ a) b e = cc

-- In every run in which the app sends no acknowledgement of its own, the task writes an
-- acknowledgement exactly after handing on a hook event, at once, and with that event's cursor.
pub run-settle :
    (t : Task) (is : List (World × Input))
    → All SendsNoAck is
    → settle none (run t is).1 ≡ some none
unfolding run
run-settle t [] a = unfold settle in refl
run-settle t ((w, i) ∷ is) a =
    settle-append none (step t w i).1 (run (step t w i).0 is).1
      (unfold step in react-Settles t.phase t w i a.0)
    ∙ run-settle (step t w i).0 is a.1
