-- ===== src/Term/Rounds.antt =====
-- crates/mai-core/src/term.rs: what holds of a host's terminals after every round of the task
-- (`channel_ended`, `output`, `command`, `run_terms`).
use multi_ai.Base.{
  ℕ, zero, suc, ◌+◌, ◌<◌, ◌≡◌, refl, ap, ◌⊎◌, sym, subst, inl, inr, Bool, true, false, not, ◌||◌,
  ◌&&◌, Option, none, some, List, [], ◌∷◌, arith, nat_eq, nat_beq, is_some, any, Result, ok, err,
  Bool-cases, leb, text,
}
use multi_ai.Map.{Map, get, insert, remove, get-insert_cases}
use multi_ai.Host.{OpenError}
use multi_ai.Term.{AttachSpec, PtyOut, data_out, exit, max_quick_ends, reason_of}
use multi_ai.Term.Task.{
  TermCmd, open_term, input, set_size, close_term, retry, stop, Slot, Link, idle, up, busy, down,
  Selected, command, printed, slept, World, Terms, local, attach,
}
use multi_ai.Term.Reconnect.{no_slots, idle_if_empty, reattached}
use multi_ai.Term.Run.{
  open_terminal, ended_slot, on_attached_one, finish, ended, end_slot, end_found, channel_ended,
  is_up, on_output, output_found, handle_output, retry_over, handle_command, wake, select,
  next_round, round_of, then_run, run, start,
}
use multi_ai.Term.Kept.{Holds, Holds-insert, Holds-remove, SlotsOf, last_emit, local-Descends}
use multi_ai.Term.Invariant.{
  Attached, Detached, Core, Shape, Shown, IsValid, idle_if_empty-IsValid, lost-IsValid,
  fresh-InRange, Holds_nil,
}
use multi_ai.Term.Steady.{
  Live, Live-Descends, Live-nil-IsValid, ValidUnlessStopped, attach-Descends, Descends-Core,
  Descends-Holds, Attached-closed, Detached-closed, reattach_slot-Live,
}
use multi_ai.Term.Opening.{
  open_terminal-OpenDone, answer-IsValid, reconnect_down, Shape-at, shown_up, SlotsOf-nil,
}

-- The slots that a local command leaves, or all but one.
Shape-SlotsOf :
    (l : Link) (m m' : Map ℕ Slot) (since : Option ℕ)
    → SlotsOf m m'
    → Shape l m since
    → Shape l m' since
Shape-SlotsOf idle m m' since d h = (SlotsOf-nil m m' d h.0, h.1)
Shape-SlotsOf up m m' since d h = (h.0, Descends-Holds Attached Attached-closed m m' d h.1)
Shape-SlotsOf busy m m' since d h = h
Shape-SlotsOf (down at e) m m' since d h =
    (h.0, (h.1.0, Descends-Holds Detached Detached-closed m m' d h.1.1))

Shape-remove :
    (l : Link) (id : ℕ) (m : Map ℕ Slot) (since : Option ℕ)
    → Shape l m since
    → Shape l (remove id m) since
unfolding remove
Shape-remove idle id m since h = (ap (remove id) h.0, h.1)
Shape-remove up id m since h = (h.0, Holds-remove {P = Attached} id m h.1)
Shape-remove busy id m since h = h
Shape-remove (down at e) id m since h = (h.0, (h.1.0, Holds-remove {P = Detached} id m h.1.1))

Core-remove :
    (id : ℕ) (t : Terms)
    → Core t.slots t.next_id t.backoff
    → Core (remove id t.slots) t.next_id t.backoff
Core-remove id t c = record { bounded = Holds-remove id t.slots c.bounded; delays = c.delays }

finish-IsValid :
    (w : World) (id : ℕ) (status : Option ℕ) (t : Terms)
    → IsValid t
    → IsValid (finish w id status t)
finish-IsValid w id status t v =
    idle_if_empty-IsValid _ (Core-remove id t v.core)
      (Shape-remove t.link id t.slots t.up_since v.shape) v.shown

on_attached_one-IsValid :
    (w : World) (id generation : ℕ) (r : Terms × Option (Result ℕ OpenError))
    → ((x : Result ℕ OpenError) → r.1 ≡ some x → Live (id ∷ []) r.0)
    → ValidUnlessStopped (on_attached_one w id generation r)
unfolding reattached
on_attached_one-IsValid w id generation (t, none) h = λ q. cc
on_attached_one-IsValid w id generation (t, some (ok pty)) h = λ _.
    Live-nil-IsValid _
      (reattach_slot-Live w id generation pty [] (get id t.slots) t refl (h (ok pty) refl))
on_attached_one-IsValid w id generation (t, some (err e)) h =
    λ _. lost-IsValid w (reason_of e) t (h (err e) refl).core

lt_of_leb : (a b : ℕ) → leb a b ≡ false → b < a
lt_of_leb a b h = ground arith

-- The slot is detached until it is attached again.
insert_one :
    (id : ℕ) (v : Slot) (m : Map ℕ Slot)
    → Holds Attached m
    → Holds (λ j s. Attached j s ⊎ (any (nat_beq j) (id ∷ []) ≡ true)) (insert id v m)
insert_one id v m h j s g = elim (get-insert_cases id j v m g) [
  | inl q ↦ inr (ground (arith, q.0))
  | inr old ↦ inl (h j s old)
]

ended-Live :
    (w : World) (id : ℕ) (s : Slot) (t : Terms)
    → IsValid t
    → t.link ≡ up
    → get id t.slots ≡ some s
    → leb max_quick_ends (ended_slot w (w.now t.awaits) s).quick_ends ≡ false
    → Live (id ∷ []) (ended w id s t)
ended-Live w id s t v l g q =
    let h = Shape-at t up v l in
    record {
      core = record {
        bounded = Holds-insert id _ t.slots v.core.bounded (
          (v.core.bounded id s g).0,
          lt_of_leb max_quick_ends (ended_slot w (w.now t.awaits) s).quick_ends q,
        );
        delays = v.core.delays;
      };
      is_up = l;
      shown = shown_up t v l;
      since = h.0;
      attached = insert_one id (ended_slot w (w.now t.awaits) s) t.slots h.1;
    }

end_slot-IsValid :
    (w : World) (id : ℕ) (s : Slot) (t : Terms)
    → IsValid t
    → t.link ≡ up
    → get id t.slots ≡ some s
    → ValidUnlessStopped (end_slot w id s t)
unfolding end_slot
end_slot-IsValid w id s t v l g =
    elim (Bool-cases (leb max_quick_ends (ended_slot w (w.now t.awaits) s).quick_ends)) [
      | inl y ↦ rw y (λ _. finish-IsValid w id none t v)
      | inr n ↦ rw n (
          on_attached_one-IsValid w id (s.generation + 1) (attach w s.spec (ended w id s t)) λ x q.
            Live-Descends (id ∷ []) (ended w id s t) _ (attach-Descends w s.spec (ended w id s t) q)
              (ended-Live w id s t v l g n))
    ]

end_found-IsValid :
    (w : World) (id : ℕ) (o : Option Slot) (t : Terms)
    → IsValid t
    → t.link ≡ up
    → get id t.slots ≡ o
    → ValidUnlessStopped (end_found w id o t)
end_found-IsValid w id none t v l g = λ _. v
end_found-IsValid w id (some s) t v l g = end_slot-IsValid w id s t v l g

is_up-up : (w : World) (l : Link) → is_up w l ≡ true → l ≡ up
is_up-up w up h = refl
is_up-up w idle h = cc
is_up-up w busy h = cc
is_up-up w (down at e) h = cc

on_output-IsValid :
    (w : World) (id : ℕ) (out : Option PtyOut) (t : Terms)
    → IsValid t
    → ValidUnlessStopped (on_output w id out t)
unfolding on_output channel_ended
on_output-IsValid w id (some (data_out d)) t v =
    λ _. record { core = v.core; shape = v.shape; shown = v.shown; in_use = v.in_use }
on_output-IsValid w id (some (exit status)) t v = λ _. finish-IsValid w id status t v
on_output-IsValid w id none t v = elim (Bool-cases (is_up w t.link && w.alive t.awaits)) [
  | inl y ↦
      rw y
        (end_found-IsValid w id (get id t.slots) t v (is_up-up w t.link (ground (arith, y))) refl)
  | inr n ↦ rw n (λ _. lost-IsValid w (text "connection lost") t v.core)
]

output_found-IsValid :
    (w : World) (id generation : ℕ) (out : Option PtyOut) (o : Option Slot) (t : Terms)
    → IsValid t
    → ValidUnlessStopped (output_found w id generation out o t)
output_found-IsValid w id generation out none t v = λ _. v
output_found-IsValid w id generation out (some s) t v =
    elim (Bool-cases (not (nat_beq s.generation generation) || not (is_some s.pty))) [
      | inl y ↦ rw y (λ _. v)
      | inr n ↦ rw n (on_output-IsValid w id out t v)
    ]

local-IsValid :
    (w : World) (c : TermCmd) (t : Terms) → IsValid t → IsValid (idle_if_empty (local c t))
local-IsValid w c t v =
    let u : Terms = local c t in
    let d = local-Descends c t in
    let shape = Shape-SlotsOf t.link t.slots u.slots t.up_since d.slots_of v.shape in
    idle_if_empty-IsValid u (Descends-Core t u d v.core)
      (subst (λ l. Shape l u.slots u.up_since) (sym d.link_kept)
        (subst (Shape t.link u.slots) (sym d.up_since_kept) shape))
      (subst (λ l. Shown l (last_emit u.log)) (sym d.link_kept)
        (subst (Shown t.link) (sym d.emit_kept) v.shown))

retry_over-IsValid :
    (w : World) (l : Link) (t : Terms)
    → IsValid t
    → t.link ≡ l
    → ValidUnlessStopped (retry_over w l t)
retry_over-IsValid w (down at e) t v q = reconnect_down w at e t v q
retry_over-IsValid w idle t v q = λ _. v
retry_over-IsValid w up t v q = λ _. v
retry_over-IsValid w busy t v q = λ _. v

handle_command-IsValid :
    (w : World) (c : Option TermCmd) (t : Terms)
    → IsValid t
    → ValidUnlessStopped (handle_command w c t)
unfolding handle_command
handle_command-IsValid w none t v = λ q. cc
handle_command-IsValid w (some stop) t v = λ q. cc
handle_command-IsValid w (some (open_term spec r)) t v =
    answer-IsValid w r (open_terminal w spec t) (open_terminal-OpenDone w spec t v)
handle_command-IsValid w (some retry) t v = retry_over-IsValid w t.link t v refl
handle_command-IsValid w (some (input id d)) t v = λ _. local-IsValid w (input id d) t v
handle_command-IsValid w (some (set_size id d)) t v = λ _. local-IsValid w (set_size id d) t v
handle_command-IsValid w (some (close_term id)) t v = λ _. local-IsValid w (close_term id) t v

wake-IsValid :
    (w : World) (l : Link) (t : Terms) → IsValid t → t.link ≡ l → ValidUnlessStopped (wake w l t)
wake-IsValid w idle t v e = λ _. v
wake-IsValid w up t v e = λ _. v
wake-IsValid w busy t v e = λ _. v
wake-IsValid w (down none error) t v e = λ _. v
wake-IsValid w (down (some at) error) t v e = elim (Bool-cases (no_slots t.slots)) [
  | inl y ↦ rw y (λ _. v)
  | inr n ↦ rw n (reconnect_down w (some at) error t v e)
]

select-IsValid :
    (w : World) (s : Selected) (t : Terms) → IsValid t → ValidUnlessStopped (select w s t)
unfolding select handle_output
select-IsValid w (command c) t v = handle_command-IsValid w c t v
select-IsValid w (printed id generation out) t v =
    output_found-IsValid w id generation out (get id t.slots) t v
select-IsValid w slept t v = wake-IsValid w t.link t v refl

next_round-IsValid :
    (w : World) (pending : List (AttachSpec × ℕ)) (t : Terms)
    → IsValid t
    → ValidUnlessStopped (next_round w pending t)
next_round-IsValid w [] t v =
    select-IsValid w (w.selected t.awaits) _
      (record { core = v.core; shape = v.shape; shown = v.shown; in_use = v.in_use })
next_round-IsValid w ((spec, r) ∷ rest) t v = answer-IsValid w r _ (
    open_terminal-OpenDone w spec (record t { pending = rest })
      (record { core = v.core; shape = v.shape; shown = v.shown; in_use = v.in_use }))

start-IsValid : IsValid start
unfolding start
start-IsValid = record {
  core = record { bounded = Holds_nil _; delays = fresh-InRange };
  shape = (refl, refl);
  shown = tt;
  in_use = λ q. cc q;
}

then_rounds-IsValid :
    (w : World) (r : Terms × Bool) (next : Terms → Terms × Bool)
    → ValidUnlessStopped r
    → ((t : Terms) → IsValid t → ValidUnlessStopped (next t))
    → ValidUnlessStopped (then_run w r next)
then_rounds-IsValid w (t, false) next v h = λ q. cc
then_rounds-IsValid w (t, true) next v h = h t (v refl)

run_from-IsValid : (w : World) (n : ℕ) (t : Terms) → IsValid t → ValidUnlessStopped (run w n t)
unfolding run round_of
run_from-IsValid w zero t v = λ _. v
run_from-IsValid w (suc n) t v =
    then_rounds-IsValid w (round_of w t) (λ u. run w n u) (next_round-IsValid w t.pending t v)
      (λ u v'. run_from-IsValid w n u v')

-- After any number of rounds that did not stop the task, whatever commands, output, connections and
-- failures the world gives: there is a connection, or the loss of one, only if there is a terminal; while the
-- connection is up every terminal is attached; after its loss every terminal is detached, and
-- a later attempt is scheduled unless the user is needed; every id is below the next one; no terminal
-- has had three quick ends in a row; and the reconnect delay is between 1 s and 60 s.
pub rounds-IsValid : (w : World) (n : ℕ) → (run w n start).1 ≡ true → IsValid (run w n start).0
rounds-IsValid w n h = run_from-IsValid w n start start-IsValid h
