-- ===== src/Term/Opening.antt =====
-- crates/mai-core/src/term.rs: opening a terminal keeps what holds of a host's terminals (`open`).
use multi_ai.Base.{
  ℕ, ◌+◌, ◌<◌, ◌≡◌, refl, ap, ◌∙◌, sym, subst, inl, inr, Bool, true, false, Option, none, some, [],
  ◌∷◌, arith, nat_eq, Result, ok, err,
}
use multi_ai.Map.{Map, get, insert}
use multi_ai.Host.{ConnState, OpenError}
use multi_ai.Term.{AttachSpec}
use multi_ai.Term.Task.{OpenResult, Slot, Link, idle, up, busy, down, World, Terms, connect, attach}
use multi_ai.Term.Reconnect.{no_slots, reconnect}
use multi_ai.Term.Run.{
  new_slot, attach_new, on_opened, connect_new, on_first, open_after, on_reconnected, open_over,
  open_terminal, answer,
}
use multi_ai.Term.Kept.{Holds, Holds-insert, SlotsOf, last_emit}
use multi_ai.Term.Invariant.{Attached, Core, Shape, IsValid, Shown, nil_of_get, Holds_nil}
use multi_ai.Term.Steady.{
  Live, up_shown, Live-Descends, Live-nil-IsValid, ValidUnlessStopped, attach-Descends,
  Descends-Core, Connected-Core, ConnectDone, connect-ConnectDone, reconnect-IsValid,
}

no_slots-insert : (k : ℕ) (v : Slot) (m : Map ℕ Slot) → no_slots (insert k v m) ≡ false
unfolding insert
no_slots-insert k v [] = refl
no_slots-insert k v ((i, x) ∷ m) = ground arith

abbrev pub OpenDone : Terms × Option OpenResult → Type 0
OpenDone (t, none) = Unit
OpenDone (t, some r) = IsValid t

-- One more id is taken.
next-Live : (t : Terms) → Live [] t → Live [] (record t { next_id = t.next_id + 1 })
next-Live t v = record {
  core = record {
    bounded = λ j s g. let b = v.core.bounded j s g in (omega (arith, b.0), b.1);
    delays = v.core.delays;
  };
  is_up = v.is_up;
  shown = v.shown;
  since = v.since;
  attached = v.attached;
}

Live-all : (t : Terms) → Live [] t → Holds Attached t.slots
Live-all t v j s g = elim (v.attached j s g) [ inl a ↦ a | inr i ↦ cc i ]

on_opened-OpenDone :
    (w : World) (spec : AttachSpec) (id : ℕ) (r : Terms × Option (Result ℕ OpenError))
    → ((x : Result ℕ OpenError) → r.1 ≡ some x → Live [] r.0 × (id < r.0.next_id))
    → OpenDone (on_opened w spec id r)
on_opened-OpenDone w spec id (t, none) h = tt
on_opened-OpenDone w spec id (t, some (ok pty)) h =
    let (v, b) = h (ok pty) refl in
    record {
      core = record {
        bounded = Holds-insert id _ t.slots v.core.bounded (b, omega arith);
        delays = v.core.delays;
      };
      shape =
          subst (λ l. Shape l (insert id (new_slot w spec pty t) t.slots) t.up_since) (sym v.is_up)
            (
              v.since,
              Holds-insert {P = Attached} id (new_slot w spec pty t) t.slots (Live-all t v) refl,
            );
      shown = up_shown t v.is_up v.shown;
      in_use = λ _. no_slots-insert id (new_slot w spec pty t) t.slots;
    }
on_opened-OpenDone w spec id (t, some (err e)) h = Live-nil-IsValid t (h (err e) refl).0

attach_new-OpenDone :
    (w : World) (spec : AttachSpec) (t : Terms) → Live [] t → OpenDone (attach_new w spec t)
unfolding attach_new
attach_new-OpenDone w spec t v =
    let n : Terms = record t { next_id = t.next_id + 1 } in
    on_opened-OpenDone w spec t.next_id (attach w spec n) λ x q.
      let d = attach-Descends w spec n q in
      (Live-Descends [] n _ d (next-Live t v), omega (arith, d.next_id_kept))

-- A terminal that opens the connection: there is no other.
record Alone (t : Terms) : Type 0 where
  core : Core t.slots t.next_id t.backoff
  no_slot : t.slots ≡ []
  no_since : t.up_since ≡ none

pub SlotsOf-nil : (m m' : Map ℕ Slot) → SlotsOf m m' → m ≡ [] → m' ≡ []
unfolding get
SlotsOf-nil m m' d e =
    nil_of_get m'
      λ j s g. let (x, (k, q)) = d j s g in let z : none ≡ some x = ap (get j) (sym e) ∙ k in cc z

on_first-OpenDone :
    (w : World) (spec : AttachSpec) (t : Terms) (r : Terms × Option (Result (Unit {0}) OpenError))
    → Alone t
    → ConnectDone t r
    → OpenDone (on_first w spec r)
on_first-OpenDone w spec t (u, none) a d = tt
on_first-OpenDone w spec t (u, some (ok x)) a d = attach_new-OpenDone w spec u (record {
  core = Connected-Core t u d a.core;
  is_up = d.is_up;
  shown = d.shown;
  since = d.since;
  attached = subst (Holds _) (sym (SlotsOf-nil t.slots u.slots d.slots_of a.no_slot)) (Holds_nil _);
})
on_first-OpenDone w spec t (u, some (err e)) a d = record {
  core = (let c = Descends-Core t u d a.core in record { bounded = c.bounded; delays = c.delays });
  shape = (SlotsOf-nil t.slots u.slots d.slots_of a.no_slot, d.up_since_kept ∙ a.no_since);
  shown = tt;
  in_use = λ q. cc q;
}

connect_new-OpenDone :
    (w : World) (spec : AttachSpec) (t : Terms) → Alone t → OpenDone (connect_new w spec t)
unfolding connect_new
connect_new-OpenDone w spec t a =
    on_first-OpenDone w spec t (connect w t) a (connect-ConnectDone w t)

-- Views of a valid state, by its link.
IsValid-Alone : (t : Terms) → IsValid t → Shape idle t.slots t.up_since → Alone t
IsValid-Alone t v h = record { core = v.core; no_slot = h.0; no_since = h.1 }

Shown-up : (o : Option (Option ConnState)) → Shown up o → o ≡ some (some ConnState.up)
Shown-up none h = elim h [ ]
Shown-up (some none) h = elim h [ ]
Shown-up (some (some ConnState.up)) h = refl
Shown-up (some (some ConnState.connecting)) h = elim h [ ]
Shown-up (some (some (ConnState.retrying d m))) h = elim h [ ]
Shown-up (some (some (ConnState.needs_user p))) h = elim h [ ]

pub shown_up : (t : Terms) → IsValid t → t.link ≡ up → last_emit t.log ≡ some (some ConnState.up)
shown_up t v l = Shown-up (last_emit t.log) (subst (λ k. Shown k (last_emit t.log)) l v.shown)

IsValid-Live : (t : Terms) → IsValid t → t.link ≡ up → Shape up t.slots t.up_since → Live [] t
IsValid-Live t v l h = record {
  core = v.core;
  is_up = l;
  shown = shown_up t v l;
  since = h.0;
  attached = λ j s g. inl (h.1 j s g);
}

pub Shape-at : (t : Terms) (l : Link) → IsValid t → t.link ≡ l → Shape l t.slots t.up_since
Shape-at t l v e = subst (λ k. Shape k t.slots t.up_since) e v.shape

open_after-OpenDone :
    (w : World) (l : Link) (spec : AttachSpec) (t : Terms)
    → IsValid t
    → t.link ≡ l
    → OpenDone (open_after w l spec t)
open_after-OpenDone w idle spec t v e =
    connect_new-OpenDone w spec t (IsValid-Alone t v (Shape-at t idle v e))
open_after-OpenDone w up spec t v e =
    attach_new-OpenDone w spec t (IsValid-Live t v e (Shape-at t up v e))
open_after-OpenDone w busy spec t v e = elim (Shape-at t busy v e) [ ]
open_after-OpenDone w (down at error) spec t v e = v

on_reconnected-OpenDone :
    (w : World) (spec : AttachSpec) (r : Terms × Bool)
    → ValidUnlessStopped r
    → OpenDone (on_reconnected w spec r)
on_reconnected-OpenDone w spec (t, false) h = tt
on_reconnected-OpenDone w spec (t, true) h = open_after-OpenDone w t.link spec t (h refl) refl

pub reconnect_down :
    (w : World) (at : Option ℕ) (error : OpenError) (t : Terms)
    → IsValid t
    → t.link ≡ down at error
    → ValidUnlessStopped (reconnect w t)
reconnect_down w at error t v e =
    let s = Shape-at t (down at error) v e in reconnect-IsValid w t v.core s.0 s.1.1

open_over-OpenDone :
    (w : World) (l : Link) (spec : AttachSpec) (t : Terms)
    → IsValid t
    → t.link ≡ l
    → OpenDone (open_over w l spec t)
open_over-OpenDone w idle spec t v e = open_after-OpenDone w idle spec t v e
open_over-OpenDone w up spec t v e = open_after-OpenDone w up spec t v e
open_over-OpenDone w busy spec t v e = open_after-OpenDone w busy spec t v e
open_over-OpenDone w (down at error) spec t v e =
    on_reconnected-OpenDone w spec (reconnect w t) (reconnect_down w at error t v e)

pub open_terminal-OpenDone :
    (w : World) (spec : AttachSpec) (t : Terms) → IsValid t → OpenDone (open_terminal w spec t)
unfolding open_terminal
open_terminal-OpenDone w spec t v = open_over-OpenDone w t.link spec t v refl

pub answer-IsValid :
    (w : World) (n : ℕ) (r : Terms × Option OpenResult)
    → OpenDone r
    → ValidUnlessStopped (answer w n r)
unfolding answer
answer-IsValid w n (t, none) d = λ q. cc
answer-IsValid w n (t, some r) d =
    λ _. record { core = d.core; shape = d.shape; shown = d.shown; in_use = d.in_use }
