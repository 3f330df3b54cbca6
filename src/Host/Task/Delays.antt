-- ===== src/Host/Task/Delays.antt =====
-- crates/mai-core/src/host.rs: the delays between the attempts of a host's task.
use multi_ai.Base.{
  ℕ, zero, suc, ◌*◌, ◌^◌, ◌-◌, ◌≤◌, ◌<◌, min, ◌≡◌, ◌≢◌, ◌⊎◌, inl, inr, refl, ap, ◌∙◌, false, List,
  [], ◌∷◌, ◌++◌, arith, Text, leb, ok, err, All, length,
}
use native.Mathlib.Nat.{pow-suc}
use multi_ai.Host.{OpenError, retrying, probe, up}
use multi_ai.Host.Backoff.{Backoff, next_delay, InRange, first_delay, max_delay}
use multi_ai.Host.Task.{
  for_user, Phase, opening, greeting, serving, waiting, stopped, Task, Input, opened, greeted,
  World, Output, emit, react, step, start, run, stable_after, note_outputs, on_opened, on_greeted,
  on_received, serve_command, idle_command, link_lost, acknowledge, woken, back_off,
}

-- The delays that are reported are within the bounds.
abbrev pub DelayInRange : Output → Type 0
DelayInRange (emit (probe (retrying d r))) = (first_delay ≤ d) × (d ≤ max_delay)
DelayInRange _ = Unit

abbrev Keeps : Task × List Output → Type 0
Keeps r = InRange r.0.backoff × All DelayInRange r.1

react-Keeps :
    (p : Phase) (t : Task) (w : World) (i : Input) → InRange t.backoff → Keeps (react p t w i)
unfolding react next_delay
react-Keeps p t w i v = ground arith

step-Keeps : (t : Task) (w : World) (i : Input) → InRange t.backoff → Keeps (step t w i)
unfolding step
step-Keeps t w i v = react-Keeps t.phase t w i v

All-append :
    (a b : List Output) → All DelayInRange a → All DelayInRange b → All DelayInRange (a ++ b)
All-append [] b x y = y
All-append (o ∷ a) b x y = (x.0, All-append a b x.1 y)

-- Whatever happens, every delay that the task reports is between 1 s and 60 s.
pub run_delays :
    (t : Task) (is : List (World × Input))
    → InRange t.backoff
    → InRange (run t is).0.backoff × All DelayInRange (run t is).1
unfolding run
run_delays t [] v = (v, tt)
run_delays t ((w, i) ∷ is) v =
    let k = step-Keeps t w i v in
    let (v', rest) = run_delays (step t w i).0 is k.0 in
    (v', All-append (step t w i).1 (run (step t w i).0 is).1 k.1 rest)

-- Neither has a probe stayed up for `STABLE_AFTER`, nor does the connection need the user.
abbrev pub Unsettled : Phase → World → Input → Type 0
Unsettled opening w (opened (err (OpenError.needs_user p))) = ⊥
Unsettled (serving since) w i = w.now - since < stable_after
Unsettled p w i = Unit

-- At no input of a run.
abbrev pub NeverSettles : Task → List (World × Input) → Type 0
NeverSettles t [] = Unit
NeverSettles t ((w, i) ∷ is) = Unsettled t.phase w i × NeverSettles (step t w i).0 is

-- The delays among the outputs.
abbrev pub reported : List Output → List ℕ
reported [] = []
reported (emit (probe (retrying d r)) ∷ os) = d ∷ reported os
reported (_ ∷ os) = reported os

-- `n` delays from the `k`-th on.
abbrev pub doubling : ℕ → ℕ → List ℕ
doubling k zero = []
doubling k (suc n) = min (first_delay * 2 ^ k) max_delay ∷ doubling (suc k) n

reported-append : (a b : List Output) → reported (a ++ b) ≡ reported a ++ reported b
reported-append [] b = refl
reported-append (emit (probe (retrying d r)) ∷ a) b = ap (λ x. d ∷ x) (reported-append a b)
reported-append (o ∷ a) b = ground (arith, reported-append a b)

-- No delay is reported and the backoff is as before; or one is, the next of the backoff.
abbrev Paced : Backoff → Task × List Output → Type 0
Paced b r =
    (r.0.phase ≢ waiting for_user)
    × (((r.0.backoff ≡ b) × (reported r.1 ≡ []))
        ⊎ ((r.0.backoff ≡ (next_delay b).0) × (reported r.1 ≡ b.next ∷ [])))

reported_notes :
    (ns : List Text) (os : List Output) → reported (note_outputs ns ++ os) ≡ reported os
reported_notes [] os = refl
reported_notes (n ∷ ns) os = refl

react-Paced :
    (p : Phase) (t : Task) (w : World) (i : Input)
    → p ≡ t.phase
    → p ≢ waiting for_user
    → Unsettled p w i
    → Paced t.backoff (react p t w i)
unfolding react on_opened on_greeted on_received serve_command idle_command woken link_lost
    acknowledge back_off next_delay
react-Paced opening t w i e n u = ground arith
react-Paced (greeting o) t w (greeted (ok info)) e n u =
    (λ q. cc, inl (refl, reported_notes o.notes (emit (probe up) ∷ [])))
react-Paced (greeting o) t w i e n u = ground arith
react-Paced (serving since) t w i e n u =
    let short : leb stable_after (w.now - since) ≡ false = ground arith in ground (arith, short)
react-Paced (waiting k) t w i e n u = ground arith
react-Paced stopped t w i e n u = ground arith

step-Paced :
    (t : Task) (w : World) (i : Input)
    → t.phase ≢ waiting for_user
    → Unsettled t.phase w i
    → Paced t.backoff (step t w i)
unfolding step
step-Paced t w i n u = react-Paced t.phase t w i refl n u

run_from :
    (t : Task) (k : ℕ) (is : List (World × Input))
    → t.phase ≢ waiting for_user
    → t.backoff.next ≡ min (first_delay * 2 ^ k) max_delay
    → NeverSettles t is
    → reported (run t is).1 ≡ doubling k (length (reported (run t is).1))
unfolding run
run_from t k [] n e a = refl
run_from t k ((w, i) ∷ is) n e a =
    let t' : Task = (step t w i).0 in
    let outs : List Output = (step t w i).1 in
    let rest : List Output = (run t' is).1 in
    let joined : reported (outs ++ rest) ≡ reported outs ++ reported rest =
      reported-append outs rest in
    let (m, c) = step-Paced t w i n a.0 in
    elim c [
      | inl (b, none_yet) ↦
          let same : t'.backoff.next ≡ min (first_delay * 2 ^ k) max_delay =
            ap (λ b. b.next) b ∙ e in
          rw (joined, none_yet) (run_from t' k is m same a.1)
      | inr (b, one) ↦
          let next : t'.backoff.next ≡ min (first_delay * 2 ^ suc k) max_delay =
            rw b (unfold next_delay in omega (arith, pow-suc 2 k)) in
          rw (joined, one) (cc (e, run_from t' (suc k) is m next a.1))
    ]

-- In every run of a new task in which no attempt needs the user and no probe stays up for 30 s, the delays
-- reported are 1 s, 2 s, 4 s and so on up to 60 s, one after the other, whether the host cannot be reached, its
-- probe does not greet, or its probe dies or its link fails at any time while it serves.
pub delays_double :
    (is : List (World × Input))
    → NeverSettles start.0 is
    → reported (run start.0 is).1 ≡ doubling 0 (length (reported (run start.0 is).1))
delays_double is a = run_from start.0 0 is (λ e. cc) refl a
