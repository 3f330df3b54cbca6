-- ===== src/Term/Steady.antt =====
-- crates/mai-core/src/term.rs: reconnecting leaves no terminal detached while the connection is up
-- (`connect`, `attach`, `reconnect`).
use multi_ai.Base.{
  ℕ, ◌+◌, ◌≡◌, refl, ap, ◌∙◌, sym, subst, ◌⊎◌, inl, inr, Bool, true, false, Option, none, some,
  List, [], ◌∷◌, arith, nat_eq, nat_beq, is_some, any, Result, ok, err, Bool-cases,
}
use multi_ai.Map.{Map, get, insert, get-insert_self, get-insert_ne}
use multi_ai.Host.{ConnState, OpenError, retry, needs_user}
use multi_ai.Host.Backoff.{InRange}
use multi_ai.Term.{AttachSpec, reason_of}
use multi_ai.Term.Task.{
  Slot, Link, idle, up, busy, down, World, Terms, attach_over, give_back, attach, on_connected,
  connect,
}
use multi_ai.Term.Reconnect.{
  keys, reattach_slot, reattached, on_attached, attach_slot, attach_again, attach_each, then_each,
  after_connect, reconnect, idle_if_empty,
}
use multi_ai.Term.Kept.{
  Holds, Holds-insert, SameSlot, SlotsOf, last_emit, Descends, Descends-refl, wait-Descends,
}
use multi_ai.Term.Invariant.{
  Attached, Detached, Bounded, Core, Shape, Shown, IsValid, idle_if_empty-IsValid, go_down-IsValid,
  retry_later-IsValid, lost-IsValid,
}

-- A predicate that does not read the sizes holds on.
pub Descends-Holds {ℓ} :
    (P : ℕ → Slot → Type ℓ)
    → ((j : ℕ) (s s' : Slot) → SameSlot s s' → P j s → P j s')
    → (m m' : Map ℕ Slot) → SlotsOf m m'
    → Holds P m
    → Holds P m'
Descends-Holds P closed m m' d h j s g = let (x, (k, e)) = d j s g in closed j x s e (h j x k)

pub Attached-closed : (j : ℕ) (s s' : Slot) → SameSlot s s' → Attached j s → Attached j s'
Attached-closed j s s' e h = ap is_some e.pty_kept ∙ h

pub Detached-closed : (j : ℕ) (s s' : Slot) → SameSlot s s' → Detached j s → Detached j s'
Detached-closed j s s' e h = e.pty_kept ∙ h

Bounded-closed : (n : ℕ) (j : ℕ) (s s' : Slot) → SameSlot s s' → Bounded n j s → Bounded n j s'
Bounded-closed n j s s' e h = ground (arith, e.ends_kept, h.0, h.1)

pub Descends-Core :
    (t u : Terms)
    → Descends t u
    → Core t.slots t.next_id t.backoff
    → Core u.slots u.next_id u.backoff
Descends-Core t u d c = record {
  bounded =
      subst (λ n. Holds (Bounded n) u.slots) (sym d.next_id_kept)
        (Descends-Holds (Bounded t.next_id) (Bounded-closed t.next_id) t.slots u.slots d.slots_of
          c.bounded);
  delays = subst InRange (sym d.backoff_kept) c.delays;
}

-- Attaching gives the connection back, unless told to stop.
give_back-Descends {ℓ} :
    {A : Type ℓ} (t : Terms) (r : Terms × Option A) {a : A}
    → t.link ≡ up
    → Descends (record t { link = busy }) r.0
    → (give_back r).1 ≡ some a
    → Descends t (give_back r).0
give_back-Descends t (u, none) l d h = cc
give_back-Descends t (u, some x) l d h = record {
  link_kept = sym l;
  up_since_kept = d.up_since_kept;
  next_id_kept = d.next_id_kept;
  backoff_kept = d.backoff_kept;
  slots_of = d.slots_of;
  emit_kept = d.emit_kept;
}

attach_over-Descends :
    (w : World) (l : Link) (spec : AttachSpec) (t : Terms) {r : Result ℕ OpenError}
    → t.link ≡ l
    → (attach_over w l spec t).1 ≡ some r
    → Descends t (attach_over w l spec t).0
attach_over-Descends w up spec t l h =
    give_back-Descends t _ l (wait-Descends w _ (record t { link = busy })) h
attach_over-Descends w idle spec t l h = Descends-refl t
attach_over-Descends w busy spec t l h = Descends-refl t
attach_over-Descends w (down at e) spec t l h = Descends-refl t

pub attach-Descends :
    (w : World) (spec : AttachSpec) (t : Terms) {r : Result ℕ OpenError}
    → (attach w spec t).1 ≡ some r
    → Descends t (attach w spec t).0
unfolding attach
attach-Descends w spec t h = attach_over-Descends w t.link spec t refl h

-- The connection is up, and the terminals but those of `ids` are attached.
pub record Live (ids : List ℕ) (t : Terms) : Type 0 where
  pub core : Core t.slots t.next_id t.backoff
  pub is_up : t.link ≡ up
  pub shown : last_emit t.log ≡ some (some ConnState.up)
  pub since : is_some t.up_since ≡ true
  pub attached : Holds (λ j s. Attached j s ⊎ (any (nat_beq j) ids ≡ true)) t.slots

pub Live-Descends : (ids : List ℕ) (t u : Terms) → Descends t u → Live ids t → Live ids u
Live-Descends ids t u d v = record {
  core = Descends-Core t u d v.core;
  is_up = d.link_kept ∙ v.is_up;
  shown = d.emit_kept ∙ v.shown;
  since = ap is_some d.up_since_kept ∙ v.since;
  attached =
      Descends-Holds (λ j s. Attached j s ⊎ (any (nat_beq j) ids ≡ true))
        (λ j s s' e h. elim h [ inl a ↦ inl (Attached-closed j s s' e a) | inr i ↦ inr i ]) t.slots
        u.slots d.slots_of v.attached;
}

-- Once it is known that a terminal is gone, or attached, it need not be attached any more.
skip_absent :
    (id : ℕ) (ids : List ℕ) (t : Terms) → get id t.slots ≡ none → Live (id ∷ ids) t → Live ids t
skip_absent id ids t e v = record {
  core = v.core;
  is_up = v.is_up;
  shown = v.shown;
  since = v.since;
  attached = λ j s g. elim (v.attached j s g) [
    | inl a ↦ inl a
    | inr i ↦ elim (Bool-cases (nat_beq j id)) [
      | inl y ↦
          let q : j ≡ id = ground (arith, y) in
          let f : get id t.slots ≡ some s = ap (λ k. get k t.slots) (sym q) ∙ g in
          ground (arith, e, f)
      | inr n ↦ inr (ground (arith, n, i))
    ]
  ];
}

insert-Attached :
    (id : ℕ) (v : Slot) (ids : List ℕ) (m : Map ℕ Slot)
    → is_some v.pty ≡ true
    → Holds (λ j s. Attached j s ⊎ (any (nat_beq j) (id ∷ ids) ≡ true)) m
    → Holds (λ j s. Attached j s ⊎ (any (nat_beq j) ids ≡ true)) (insert id v m)
insert-Attached id v ids m p h j x g = elim (Bool-cases (nat_beq j id)) [
  | inl y ↦
      let q : j ≡ id = ground (arith, y) in
      let k : some v ≡ some x =
        sym (get-insert_self id v m) ∙ subst (λ i. get i (insert id v m) ≡ some x) q g in
      inl (ground (arith, k, p))
  | inr n ↦ elim (h j x (sym (get-insert_ne id j v m (λ q. ground (arith, n, q))) ∙ g)) [
    | inl a ↦ inl a
    | inr i ↦ inr (ground (arith, n, i))
  ]
]

pub reattach_slot-Live :
    (w : World) (id generation pty : ℕ) (ids : List ℕ) (o : Option Slot) (t : Terms)
    → get id t.slots ≡ o
    → Live (id ∷ ids) t
    → Live ids (reattach_slot w id generation pty o t)
reattach_slot-Live w id generation pty ids none t e v =
    let v' = skip_absent id ids t e v in
    record {
      core = v'.core;
      is_up = v'.is_up;
      shown = v'.shown;
      since = v'.since;
      attached = v'.attached;
    }
reattach_slot-Live w id generation pty ids (some s) t e v = record {
  core = record {
    bounded = Holds-insert id _ t.slots v.core.bounded (v.core.bounded id s e);
    delays = v.core.delays;
  };
  is_up = v.is_up;
  shown = v.shown;
  since = v.since;
  attached = insert-Attached id _ ids t.slots refl v.attached;
}

-- What one round of the loop leaves.
abbrev RoundDone : List ℕ → Terms × Option Bool → Type 0
RoundDone ids (t, none) = Unit
RoundDone ids (t, some false) = IsValid t
RoundDone ids (t, some true) = Live ids t

on_attached-RoundDone :
    (w : World) (id generation : ℕ) (ids : List ℕ) (r : Terms × Option (Result ℕ OpenError))
    → ((x : Result ℕ OpenError) → r.1 ≡ some x → Live (id ∷ ids) r.0)
    → RoundDone ids (on_attached w id generation r)
unfolding reattached
on_attached-RoundDone w id generation ids (t, none) h = tt
on_attached-RoundDone w id generation ids (t, some (ok pty)) h =
    reattach_slot-Live w id generation pty ids (get id t.slots) t refl (h (ok pty) refl)
on_attached-RoundDone w id generation ids (t, some (err e)) h =
    lost-IsValid w (reason_of e) t (h (err e) refl).core

attach_slot-RoundDone :
    (w : World) (id : ℕ) (ids : List ℕ) (o : Option Slot) (t : Terms)
    → get id t.slots ≡ o
    → Live (id ∷ ids) t
    → RoundDone ids (attach_slot w id o t)
attach_slot-RoundDone w id ids none t e v = skip_absent id ids t e v
attach_slot-RoundDone w id ids (some s) t e v =
    on_attached-RoundDone w id (s.generation + 1) ids (attach w s.spec t)
      (λ x q. Live-Descends (id ∷ ids) t _ (attach-Descends w s.spec t q) v)

attach_again-RoundDone :
    (w : World) (id : ℕ) (ids : List ℕ) (t : Terms)
    → Live (id ∷ ids) t
    → RoundDone ids (attach_again w id t)
unfolding attach_again
attach_again-RoundDone w id ids t v = attach_slot-RoundDone w id ids (get id t.slots) t refl v

pub up_shown :
    (t : Terms)
    → t.link ≡ up
    → last_emit t.log ≡ some (some ConnState.up)
    → Shown t.link (last_emit t.log)
up_shown t l e = subst (λ k. Shown k (last_emit t.log)) (sym l) (subst (Shown up) (sym e) tt)

-- A connection on which all terminals are attached.
pub Live-nil-IsValid : (t : Terms) → Live [] t → IsValid (idle_if_empty t)
Live-nil-IsValid t v =
    let h : Shape up t.slots t.up_since =
      (v.since, λ j s g. elim (v.attached j s g) [ inl a ↦ a | inr i ↦ cc i ]) in
    idle_if_empty-IsValid t v.core (subst (λ l. Shape l t.slots t.up_since) (sym v.is_up) h)
      (up_shown t v.is_up v.shown)

-- A step that was not told to stop leaves a valid state.
abbrev pub ValidUnlessStopped : Terms × Bool → Type 0
ValidUnlessStopped (t, go_on) = go_on ≡ true → IsValid t

then_each-IsValid :
    (w : World) (ids : List ℕ) (r : Terms × Option Bool) (next : Terms → Terms × Bool)
    → RoundDone ids r
    → ((t : Terms) → Live ids t → ValidUnlessStopped (next t))
    → ValidUnlessStopped (then_each w r next)
then_each-IsValid w ids (t, none) next d h = λ q. cc
then_each-IsValid w ids (t, some false) next d h = λ _. d
then_each-IsValid w ids (t, some true) next d h = h t d

attach_each-IsValid :
    (w : World) (ids : List ℕ) (t : Terms) → Live ids t → ValidUnlessStopped (attach_each w ids t)
unfolding attach_each
attach_each-IsValid w [] t v = λ _. Live-nil-IsValid t v
attach_each-IsValid w (id ∷ ids) t v =
    then_each-IsValid w ids (attach_again w id t) (λ u. attach_each w ids u)
      (attach_again-RoundDone w id ids t v) (λ u v'. attach_each-IsValid w ids u v')

-- What connecting leaves of a state without a connection.
pub record Connected (t u : Terms) : Type 0 where
  pub is_up : u.link ≡ up
  pub shown : last_emit u.log ≡ some (some ConnState.up)
  pub since : is_some u.up_since ≡ true
  pub next_id_kept : u.next_id ≡ t.next_id
  pub backoff_kept : u.backoff ≡ t.backoff
  pub slots_of : SlotsOf t.slots u.slots

abbrev pub ConnectDone : Terms → Terms × Option (Result (Unit {0}) OpenError) → Type 0
ConnectDone t (u, none) = Unit
ConnectDone t (u, some (ok x)) = Connected t u
ConnectDone t (u, some (err e)) = Descends t u

on_connected-ConnectDone :
    (w : World) (t : Terms) (r : Terms × Option (Result (Unit {0}) OpenError))
    → Descends t r.0
    → ConnectDone t (on_connected w r)
on_connected-ConnectDone w t (u, none) d = tt
on_connected-ConnectDone w t (u, some (err e)) d = d
on_connected-ConnectDone w t (u, some (ok x)) d = record {
  is_up = refl;
  shown = refl;
  since = refl;
  next_id_kept = d.next_id_kept;
  backoff_kept = d.backoff_kept;
  slots_of = d.slots_of;
}

pub connect-ConnectDone : (w : World) (t : Terms) → ConnectDone t (connect w t)
unfolding connect
connect-ConnectDone w t = on_connected-ConnectDone w t _ (wait-Descends w _ t)

pub Connected-Core :
    (t u : Terms)
    → Connected t u
    → Core t.slots t.next_id t.backoff
    → Core u.slots u.next_id u.backoff
Connected-Core t u d c = record {
  bounded =
      subst (λ n. Holds (Bounded n) u.slots) (sym d.next_id_kept)
        (Descends-Holds (Bounded t.next_id) (Bounded-closed t.next_id) t.slots u.slots d.slots_of
          c.bounded);
  delays = subst InRange (sym d.backoff_kept) c.delays;
}

keys_all : (m : Map ℕ Slot) (j : ℕ) (s : Slot) → get j m ≡ some s → any (nat_beq j) (keys m) ≡ true
unfolding get
keys_all [] j s g = cc
keys_all ((i, x) ∷ m) j s g = ground (arith, keys_all m j s)

after_connect-IsValid :
    (w : World) (t : Terms) (r : Terms × Option (Result (Unit {0}) OpenError))
    → Core t.slots t.next_id t.backoff
    → t.up_since ≡ none
    → Holds Detached t.slots
    → ConnectDone t r
    → ValidUnlessStopped (after_connect w r)
after_connect-IsValid w t (u, none) c n h d = λ q. cc
after_connect-IsValid w t (u, some (ok x)) c n h d =
    attach_each-IsValid w (keys u.slots) u (record {
      core = Connected-Core t u d c;
      is_up = d.is_up;
      shown = d.shown;
      since = d.since;
      attached = λ j s g. inr (keys_all u.slots j s g);
    })
after_connect-IsValid w t (u, some (err (retry reason))) c n h d = λ _.
    retry_later-IsValid w reason u (Descends-Core t u d c) (d.up_since_kept ∙ n)
      (Descends-Holds Detached Detached-closed t.slots u.slots d.slots_of h)
after_connect-IsValid w t (u, some (err (needs_user p))) c n h d = λ _.
    go_down-IsValid none (needs_user p) _ u (Descends-Core t u d c) (d.up_since_kept ∙ n) refl refl
      (Descends-Holds Detached Detached-closed t.slots u.slots d.slots_of h)

-- Reconnecting a lost connection.
pub reconnect-IsValid :
    (w : World) (t : Terms)
    → Core t.slots t.next_id t.backoff
    → t.up_since ≡ none
    → Holds Detached t.slots
    → ValidUnlessStopped (reconnect w t)
unfolding reconnect
reconnect-IsValid w t c n h =
    after_connect-IsValid w t (connect w t) c n h (connect-ConnectDone w t)
