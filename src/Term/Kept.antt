-- ===== src/Term/Kept.antt =====
-- crates/mai-core/src/term.rs: what commands that need no connection leave of the task's state
-- (`local`, `busy`).
use multi_ai.Base.{
  ℕ, ◌≡◌, refl, subst, ◌∙◌, ap, sym, inl, inr, Option, none, some, List, [], ◌∷◌, arith, nat_eq,
}
use multi_ai.Map.{Map, get, insert, remove, get-insert_cases, get-remove}
use multi_ai.Term.Task.{
  Sent, emit, to_pty, tell, reply, TermCmd, open_term, input, set_size, close_term, retry, stop,
  Slot, Terms, local, busy_loop, to_slot_pty, input_slot, resize_slot, close_slot, World, wait,
}
use multi_ai.Host.{ConnState}
use multi_ai.Term.{PtyIn, TermSize}

-- A predicate of every slot that a lookup finds.
abbrev pub Holds {ℓ} : (ℕ → Slot → Type ℓ) → Map ℕ Slot → Type ℓ
Holds P m = (j : ℕ) (s : Slot) → get j m ≡ some s → P j s

pub Holds-insert {ℓ} :
    {P : ℕ → Slot → Type ℓ} (k : ℕ) (v : Slot) (m : Map ℕ Slot)
    → Holds P m
    → P k v
    → Holds P (insert k v m)
Holds-insert {P = P} k v m h p j s g = elim (get-insert_cases k j v m g) [
  | inl e ↦ ground (arith, p)
  | inr old ↦ h j s old
]

pub Holds-remove {ℓ} :
    {P : ℕ → Slot → Type ℓ} (k : ℕ) (m : Map ℕ Slot) → Holds P m → Holds P (remove k m)
Holds-remove k m h j s g = ground (arith, get-remove k j m, h j s)

-- The state of the connection that was reported last.
abbrev pub last_emit : List Sent → Option (Option ConnState)
last_emit [] = none
last_emit (emit state ∷ log) = some state
last_emit (to_pty p x ∷ log) = last_emit log
last_emit (tell id ev ∷ log) = last_emit log
last_emit (reply r x ∷ log) = last_emit log

-- The slots of `u` are slots of `t`, up to the sizes.
pub record SameSlot (s s' : Slot) : Type 0 where
  pub pty_kept : s'.pty ≡ s.pty
  pub ends_kept : s'.quick_ends ≡ s.quick_ends
  pub generation_kept : s'.generation ≡ s.generation
  pub attached_kept : s'.attached_at ≡ s.attached_at

SameSlot-refl : (s : Slot) → SameSlot s s
SameSlot-refl s = record {
  pty_kept = refl;
  ends_kept = refl;
  generation_kept = refl;
  attached_kept = refl;
}

SameSlot-trans : (a b c : Slot) → SameSlot a b → SameSlot b c → SameSlot a c
SameSlot-trans a b c p q = record {
  pty_kept = q.pty_kept ∙ p.pty_kept;
  ends_kept = q.ends_kept ∙ p.ends_kept;
  generation_kept = q.generation_kept ∙ p.generation_kept;
  attached_kept = q.attached_kept ∙ p.attached_kept;
}

abbrev pub SlotsOf : Map ℕ Slot → Map ℕ Slot → Type 0
SlotsOf m m' =
    (j : ℕ) (s' : Slot) → get j m' ≡ some s' → (s : Slot) × ((get j m ≡ some s) × SameSlot s s')

pub record Descends (t u : Terms) : Type 0 where
  pub link_kept : u.link ≡ t.link
  pub up_since_kept : u.up_since ≡ t.up_since
  pub next_id_kept : u.next_id ≡ t.next_id
  pub backoff_kept : u.backoff ≡ t.backoff
  pub slots_of : SlotsOf t.slots u.slots
  pub emit_kept : last_emit u.log ≡ last_emit t.log

pub Descends-refl : (t : Terms) → Descends t t
Descends-refl t = record {
  link_kept = refl;
  up_since_kept = refl;
  next_id_kept = refl;
  backoff_kept = refl;
  slots_of = λ j s g. (s, (g, SameSlot-refl s));
  emit_kept = refl;
}

SlotsOf-trans : (a b c : Map ℕ Slot) → SlotsOf a b → SlotsOf b c → SlotsOf a c
SlotsOf-trans a b c p q j s g =
    let (s1, (g1, e)) = q j s g in
    let (s0, (g0, d)) = p j s1 g1 in (s0, (g0, SameSlot-trans s0 s1 s d e))

pub Descends-trans : (t u v : Terms) → Descends t u → Descends u v → Descends t v
Descends-trans t u v p q = record {
  link_kept = q.link_kept ∙ p.link_kept;
  up_since_kept = q.up_since_kept ∙ p.up_since_kept;
  next_id_kept = q.next_id_kept ∙ p.next_id_kept;
  backoff_kept = q.backoff_kept ∙ p.backoff_kept;
  slots_of = SlotsOf-trans t.slots u.slots v.slots p.slots_of q.slots_of;
  emit_kept = q.emit_kept ∙ p.emit_kept;
}

-- Changing the slots alone, and sending.
of_slots :
    (t u : Terms)
    → u ≡ record t { slots = u.slots; pending = u.pending; log = u.log; awaits = u.awaits }
    → last_emit u.log ≡ last_emit t.log
    → SlotsOf t.slots u.slots
    → Descends t u
of_slots t u e l h = record {
  link_kept = ap (λ x. x.link) e;
  up_since_kept = ap (λ x. x.up_since) e;
  next_id_kept = ap (λ x. x.next_id) e;
  backoff_kept = ap (λ x. x.backoff) e;
  slots_of = h;
  emit_kept = l;
}

to_slot_pty-Descends :
    (p : Option ℕ) (x : PtyIn) (t u : Terms) → Descends t u → Descends t (to_slot_pty p x u)
to_slot_pty-Descends none x t u d = d
to_slot_pty-Descends (some p) x t u d =
    Descends-trans t u _ d (of_slots u _ refl refl (Descends-refl u).slots_of)

SlotsOf-insert :
    (k : ℕ) (s v : Slot) (m : Map ℕ Slot)
    → get k m ≡ some s
    → SameSlot s v
    → SlotsOf m (insert k v m)
SlotsOf-insert k s v m g e j s' h = elim (get-insert_cases k j v m h) [
  | inl q ↦ (s, (ap (λ i. get i m) q.0 ∙ g, subst (λ x. SameSlot s x) (sym q.1) e))
  | inr old ↦ (s', (old, SameSlot-refl s'))
]

input_slot-Descends :
    (bytes : List ℕ) (o : Option Slot) (t : Terms) → Descends t (input_slot bytes o t)
input_slot-Descends bytes none t = Descends-refl t
input_slot-Descends bytes (some s) t = to_slot_pty-Descends s.pty _ t t (Descends-refl t)

resize_slot-Descends :
    (id : ℕ) (size : TermSize) (o : Option Slot) (t : Terms)
    → get id t.slots ≡ o
    → Descends t (resize_slot id size o t)
resize_slot-Descends id size none t e = Descends-refl t
resize_slot-Descends id size (some s) t e = to_slot_pty-Descends s.pty _ t _ (
    of_slots t _ refl refl (
      SlotsOf-insert id s _ t.slots e (record {
        pty_kept = refl;
        ends_kept = refl;
        generation_kept = refl;
        attached_kept = refl;
      })))

close_slot-Descends : (id : ℕ) (o : Option Slot) (t : Terms) → Descends t (close_slot id o t)
close_slot-Descends id none t = Descends-refl t
close_slot-Descends id (some s) t =
    to_slot_pty-Descends s.pty _ t _
      (of_slots t _ refl refl (Holds-remove id t.slots (Descends-refl t).slots_of))

pub local-Descends : (c : TermCmd) (t : Terms) → Descends t (local c t)
unfolding local
local-Descends (input id bytes) t = input_slot-Descends bytes _ t
local-Descends (set_size id size) t = resize_slot-Descends id size _ t refl
local-Descends (close_term id) t = close_slot-Descends id _ t
local-Descends (open_term spec r) t = of_slots t _ refl refl (Descends-refl t).slots_of
local-Descends retry t = Descends-refl t
local-Descends stop t = Descends-refl t

pub busy_loop-Descends {ℓ} :
    {A : Type ℓ} (cs : List (Option TermCmd)) (out : A) (t : Terms)
    → Descends t (busy_loop cs out t).0
unfolding busy_loop
busy_loop-Descends [] out t = Descends-refl t
busy_loop-Descends (none ∷ cs) out t = Descends-refl t
busy_loop-Descends (some stop ∷ cs) out t = Descends-refl t
busy_loop-Descends (some (input id d) ∷ cs) out t =
    Descends-trans t _ _ (local-Descends (input id d) t)
      (busy_loop-Descends cs out (local (input id d) t))
busy_loop-Descends (some (set_size id d) ∷ cs) out t =
    Descends-trans t _ _ (local-Descends (set_size id d) t)
      (busy_loop-Descends cs out (local (set_size id d) t))
busy_loop-Descends (some (close_term id) ∷ cs) out t =
    Descends-trans t _ _ (local-Descends (close_term id) t)
      (busy_loop-Descends cs out (local (close_term id) t))
busy_loop-Descends (some (open_term a r) ∷ cs) out t =
    Descends-trans t _ _ (local-Descends (open_term a r) t)
      (busy_loop-Descends cs out (local (open_term a r) t))
busy_loop-Descends (some retry ∷ cs) out t =
    Descends-trans t _ _ (local-Descends retry t) (busy_loop-Descends cs out (local retry t))

pub busy_loop_outcome {ℓ} :
    {A : Type ℓ} (cs : List (Option TermCmd)) (out : A) (t : Terms) {a : A}
    → (busy_loop cs out t).1 ≡ some a
    → a ≡ out
unfolding busy_loop
busy_loop_outcome [] out t h = cc
busy_loop_outcome (none ∷ cs) out t h = cc
busy_loop_outcome (some stop ∷ cs) out t h = cc
busy_loop_outcome (some (input id d) ∷ cs) out t h = busy_loop_outcome cs out _ h
busy_loop_outcome (some (set_size id d) ∷ cs) out t h = busy_loop_outcome cs out _ h
busy_loop_outcome (some (close_term id) ∷ cs) out t h = busy_loop_outcome cs out _ h
busy_loop_outcome (some (open_term a r) ∷ cs) out t h = busy_loop_outcome cs out _ h
busy_loop_outcome (some retry ∷ cs) out t h = busy_loop_outcome cs out _ h

pub wait-Descends {ℓ} : {A : Type ℓ} (w : World) (out : A) (t : Terms) → Descends t (wait w out t).0
unfolding wait
wait-Descends w out t =
    Descends-trans t _ _ (of_slots t _ refl refl (Descends-refl t).slots_of)
      (busy_loop-Descends (w.during t.awaits) out _)
