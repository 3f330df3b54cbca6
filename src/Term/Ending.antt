-- ===== src/Term/Ending.antt =====
-- crates/mai-core/src/term.rs: the end of the task closes every terminal (`close_all`).
use multi_ai.Base.{
  ℕ, zero, suc, ◌≡◌, refl, inl, inr, ◌⊎◌, Bool, true, false, some, List, [], ◌∷◌, arith, nat_eq,
  Bool-cases, Option-cases, ◌==◌,
}
use multi_ai.Map.{Map, get}
use multi_ai.Term.{close}
use multi_ai.Term.Task.{Slot, Sent, to_pty, World, Terms}
use multi_ai.Term.Run.{close_each, close_all, then_run, run, round_of}

-- The log holds an entry.
abbrev pub Logged : Sent → List Sent → Type 0
Logged o [] = ¬ Unit {0}
Logged o (x ∷ log) = (x ≡ o) ⊎ Logged o log

close_each_keeps :
    (w : World) (o : Sent) (m : Map ℕ Slot) (log : List Sent)
    → Logged o log
    → Logged o (close_each w m log)
close_each_keeps w o [] log h = h
close_each_keeps w o ((i, s) ∷ m) log h = elim (Option-cases s.pty) [
  | inl e ↦ rw e (close_each_keeps w o m log h)
  | inr (p, e) ↦ rw e (close_each_keeps w o m (to_pty p close ∷ log) (inr h))
]

close_each_closes :
    (w : World) (j p : ℕ) (s : Slot) (m : Map ℕ Slot) (log : List Sent)
    → get j m ≡ some s
    → s.pty ≡ some p
    → Logged (to_pty p close) (close_each w m log)
unfolding get
close_each_closes w j p s [] log g e = cc
close_each_closes w j p s ((i, x) ∷ m) log g e = elim (Bool-cases (i == j)) [
  | inl y ↦
      let q : x.pty ≡ some p = ground (arith, y, g, e) in
      rw q (close_each_keeps w (to_pty p close) m (to_pty p close ∷ log) (inl refl))
  | inr n ↦
      let h : get j m ≡ some s = ground (arith, n, g) in
      elim (Option-cases x.pty) [
        | inl q ↦ rw q (close_each_closes w j p s m log h e)
        | inr (k, q) ↦ rw q (close_each_closes w j p s m (to_pty k close ∷ log) h e)
      ]
]

-- Every terminal that has a PTY was told to close.
abbrev pub AllClosed : Terms → Type 0
AllClosed t =
    (j p : ℕ) (s : Slot) → get j t.slots ≡ some s → s.pty ≡ some p → Logged (to_pty p close) t.log

then_run-AllClosed :
    (w : World) (r : Terms × Bool) (next : Terms → Terms × Bool)
    → ((t : Terms) → (next t).1 ≡ false → AllClosed (next t).0)
    → (then_run w r next).1 ≡ false
    → AllClosed (then_run w r next).0
unfolding close_all
then_run-AllClosed w (t, false) next h e = λ j p s g q. close_each_closes w j p s t.slots t.log g q
then_run-AllClosed w (t, true) next h e = h t e

-- When the task has ended, every terminal that still had a PTY was told to close it.
pub run-AllClosed :
    (w : World) (n : ℕ) (t : Terms) → (run w n t).1 ≡ false → AllClosed (run w n t).0
unfolding run
run-AllClosed w zero t e = cc
run-AllClosed w (suc n) t e =
    then_run-AllClosed w (round_of w t) (λ u. run w n u) (λ u. run-AllClosed w n u) e
