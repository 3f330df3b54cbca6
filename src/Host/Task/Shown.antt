-- ===== src/Host/Task/Shown.antt =====
-- crates/mai-core/src/host.rs: the order of what a host's task reports, as an automaton over its
-- outputs.
use multi_ai.Base.{
  ◌≡◌, refl, ◌∙◌, Option, none, some, List, [], ◌∷◌, ◌++◌, arith, Option-cases, inl, inr,
}
use multi_ai.Host.{connecting, up, retrying, needs_user, probe, hello, hooks, msg, dropped, notes}
use multi_ai.Host.Task.{
  for_user, for_protocol, for_delay, Phase, opening, greeting, serving, waiting, stopped, Task,
  Input, World, Output, emit, write, react, step, start, run,
}

-- What the monitor last heard of the probe connection.
pub data Shown : Type 0 where
  trying online delayed asking : Shown

-- The output that may come next, and what it shows: an attempt ends in a connection, a delay or a
-- question to the user; a connection ends in a delay; messages are handed on, and written, only
-- while the connection is up; a greeting and its reports come before that.
abbrev pub next_shown : Shown → Output → Option Shown
next_shown trying (emit (probe up)) = some online
next_shown trying (emit (probe (retrying d r))) = some delayed
next_shown trying (emit (probe (needs_user p))) = some asking
next_shown trying (emit (hello i)) = some trying
next_shown trying (emit (hooks r)) = some trying
next_shown trying (emit (notes n)) = some trying
next_shown trying (emit (dropped m)) = some trying
next_shown online (emit (probe (retrying d r))) = some delayed
next_shown online (emit (msg m)) = some online
next_shown online (emit (dropped m)) = some online
next_shown online (write m) = some online
next_shown delayed (emit (probe connecting)) = some trying
next_shown delayed (emit (dropped m)) = some delayed
next_shown asking (emit (probe connecting)) = some trying
next_shown asking (emit (dropped m)) = some asking
next_shown _ _ = none

abbrev bind_shown : Option Shown → (Shown → Option Shown) → Option Shown
bind_shown none f = none
bind_shown (some k) f = f k

unfoldable pub follow : Shown → List Output → Option Shown
follow k [] = some k
follow k (o ∷ os) = elim (next_shown k o) [ none ↦ none | some k' ↦ follow k' os ]

-- What a phase shows; the end of the task shows nothing new.
abbrev pub shows : Shown → Phase → Shown
shows k opening = trying
shows k (greeting o) = trying
shows k (serving since) = online
shows k (waiting for_delay) = delayed
shows k (waiting w) = asking
shows k stopped = k

follow-append :
    (k k' : Shown) (a b : List Output) → follow k a ≡ some k' → follow k (a ++ b) ≡ follow k' b
unfolding follow
follow-append k k' [] b e = ground arith
follow-append k k' (o ∷ a) b e = elim (Option-cases (next_shown k o)) [
  | inl n ↦ absurd (ground (arith, n))
  | inr (j, p) ↦ rw (p, follow) (follow-append j k' a b (rw (p, follow) at e))
]

abbrev Follows : Shown → Task × List Output → Type 0
Follows k r = follow k r.1 ≡ some (shows k r.0.phase)

react-Follows :
    (p : Phase) (t : Task) (w : World) (i : Input)
    → t.phase ≡ p
    → (k : Shown) → shows k p ≡ k
    → Follows k (react p t w i)
unfolding react follow
react-Follows opening t w i e k s = ground arith
react-Follows (greeting o) t w i e k s = ground arith
react-Follows (serving since) t w i e k s = ground arith
react-Follows (waiting for_user) t w i e k s = ground arith
react-Follows (waiting for_protocol) t w i e k s = ground arith
react-Follows (waiting for_delay) t w i e k s = ground arith
react-Follows stopped t w i e k s = ground arith

step-Follows :
    (t : Task) (w : World) (i : Input) (k : Shown) → shows k t.phase ≡ k → Follows k (step t w i)
unfolding step
step-Follows t w i k s = react-Follows t.phase t w i refl k s

shows_settled : (k : Shown) (p : Phase) → shows (shows k p) p ≡ shows k p
shows_settled k (waiting for_delay) = refl
shows_settled k _ = refl

run-Follows :
    (t : Task) (is : List (World × Input)) (k : Shown)
    → shows k t.phase ≡ k
    → (k' : Shown) × (follow k (run t is).1 ≡ some k') × (shows k' (run t is).0.phase ≡ k')
unfolding run
run-Follows t [] k s = (k, unfold follow in refl, s)
run-Follows t ((w, i) ∷ is) k s =
    let t' : Task = (step t w i).0 in
    let (k', p, q) = run-Follows t' is (shows k t'.phase) (shows_settled k t'.phase) in
    (
      k',
      follow-append k (shows k t'.phase) (step t w i).1 (run t' is).1 (step-Follows t w i k s) ∙ p,
      q,
    )

-- Whatever happens to a host's task, what it reports is in order: every attempt is announced; it
-- ends in a connection, in a delay or in a question to the user; a connection ends in a delay; and
-- messages are handed on and written only while the connection is shown as up. What was shown last
-- agrees with where the task stands.
pub run-follow :
    (is : List (World × Input))
    → (k : Shown) × (follow delayed (start.1 ++ (run start.0 is).1) ≡ some k)
      × (shows k (run start.0 is).0.phase ≡ k)
run-follow is =
    let (k, p, q) = run-Follows start.0 is trying refl in
    (k, follow-append delayed trying start.1 (run start.0 is).1 (unfold follow in refl) ∙ p, q)
