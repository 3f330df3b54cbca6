-- ===== src/Term/Invariant.antt =====
-- crates/mai-core/src/term.rs: what holds of a host's terminals between two rounds of the task, and
-- that losing the connection keeps it (`idle_if_empty`, `lost`).
use multi_ai.Base.{
  sym, ℕ, ◌<◌, ◌≡◌, refl, ap, sym, subst, inl, inr, Bool, true, false, ◌&&◌, not, Option, none,
  some, [], ◌∷◌, arith, nat_eq, is_some, Bool-cases, ◌==◌, ==_refl, if◌then◌else◌, Text,
}
use multi_ai.Map.{Map, get}
use multi_ai.Host.{OpenError, ConnState, retry, needs_user}
use multi_ai.Host.Backoff.{Backoff, InRange, next_delay, next_delay-InRange, fresh}
use multi_ai.Term.{max_quick_ends}
use multi_ai.Term.Task.{Slot, Link, emit, idle, up, busy, down, World, Terms, send}
use multi_ai.Term.Reconnect.{
  is_idle, is_busy, no_slots, idle_if_empty, detach_all, go_down, retry_later, lost, detach,
}
use multi_ai.Term.Kept.{Holds, last_emit}

abbrev pub Attached : ℕ → Slot → Type 0
Attached j s = is_some s.pty ≡ true

abbrev pub Detached : ℕ → Slot → Type 0
Detached j s = s.pty ≡ none

abbrev pub Bounded : ℕ → ℕ → Slot → Type 0
Bounded n j s = (j < n) × (s.quick_ends < max_quick_ends)

-- The ids are below the next one, and no terminal has as many quick ends as it takes to give up.
pub record Core (m : Map ℕ Slot) (n : ℕ) (b : Backoff) : Type 0 where
  pub bounded : Holds (Bounded n) m
  pub delays : InRange b

abbrev pub waits_for_user : OpenError → Bool
waits_for_user (needs_user p) = true
waits_for_user (retry m) = false

-- Without a connection there is no terminal; with one, every terminal is attached; after losing it,
-- every terminal is detached, and a later attempt is scheduled unless the user is needed.
abbrev pub Shape : Link → Map ℕ Slot → Option ℕ → Type 0
Shape idle m since = (m ≡ []) × (since ≡ none)
Shape up m since = (is_some since ≡ true) × Holds Attached m
Shape busy m since = ⊥
Shape (down at e) m since =
    (since ≡ none) × ((is_some at ≡ not (waits_for_user e)) × Holds Detached m)

-- What was reported last is the state of the connection; nothing is at first.
abbrev pub Shown : Link → Option (Option ConnState) → Type 0
Shown idle none = Unit
Shown idle (some none) = Unit
Shown up (some (some ConnState.up)) = Unit
Shown (down at (retry m)) (some (some (ConnState.retrying delay reason))) = m ≡ reason
Shown (down at (needs_user p)) (some (some (ConnState.needs_user q))) = p ≡ q
Shown _ _ = ⊥

pub record IsValid (t : Terms) : Type 0 where
  pub core : Core t.slots t.next_id t.backoff
  pub shape : Shape t.link t.slots t.up_since
  pub shown : Shown t.link (last_emit t.log)
  pub in_use : is_idle t.link ≡ false → no_slots t.slots ≡ false

pub no_slots-nil : (m : Map ℕ Slot) → no_slots m ≡ true → m ≡ []
no_slots-nil [] h = refl
no_slots-nil (p ∷ m) h = cc

pub Holds_nil {ℓ} : (P : ℕ → Slot → Type ℓ) → Holds P []
unfolding get
Holds_nil P j s g = cc

pub fresh-InRange : InRange fresh
fresh-InRange = record { at_least = omega arith; at_most = omega arith }

-- Slots that have no entry are none.
pub nil_of_get : (m : Map ℕ Slot) → Holds (λ j s. ⊥) m → m ≡ []
unfolding get
nil_of_get [] h = refl
nil_of_get ((j, s) ∷ m) h = elim (h j s (rw (==_refl j) refl)) [ ]

Shape-idle : (l : Link) (m : Map ℕ Slot) (since : Option ℕ) → Shape l m since → is_busy l ≡ false
Shape-idle idle m since h = refl
Shape-idle up m since h = refl
Shape-idle busy m since h = elim h [ ]
Shape-idle (down at e) m since h = refl

-- Dropping the connection, once no terminal is left.
abbrev to_idle : Terms → Terms
to_idle t = send (emit none) (record t { link = idle; up_since = none; backoff = fresh })

to_idle-IsValid :
    (t : Terms) → Core t.slots t.next_id t.backoff → no_slots t.slots ≡ true → IsValid (to_idle t)
to_idle-IsValid t c y = record {
  core = record { bounded = c.bounded; delays = fresh-InRange };
  shape = (no_slots-nil t.slots y, refl);
  shown = tt;
  in_use = λ q. cc q;
}

pub idle_if_empty-IsValid :
    (t : Terms)
    → Core t.slots t.next_id t.backoff
    → Shape t.link t.slots t.up_since
    → Shown t.link (last_emit t.log)
    → IsValid (idle_if_empty t)
unfolding idle_if_empty
idle_if_empty-IsValid t c h sh =
    elim (Bool-cases (no_slots t.slots && (not (is_idle t.link) && not (is_busy t.link)))) [
      | inl y ↦ rw y (to_idle-IsValid t c (ground (arith, y)))
      | inr n ↦ rw n (record {
        core = c;
        shape = h;
        shown = sh;
        in_use = λ q. ground (arith, n, Shape-idle t.link t.slots t.up_since h);
      })
    ]

down_empty :
    (at : Option ℕ) (e : OpenError) (t : Terms)
    → no_slots t.slots ≡ true
    → idle_if_empty (record t { link = down at e }) ≡ to_idle t
unfolding idle_if_empty
down_empty at e t y = rw y refl

pub go_down-IsValid :
    (at : Option ℕ) (e : OpenError) (state : ConnState) (t : Terms)
    → Core t.slots t.next_id t.backoff
    → t.up_since ≡ none
    → is_some at ≡ not (waits_for_user e)
    → Shown (down at e) (some (some state))
    → Holds Detached t.slots
    → IsValid (go_down at e state t)
go_down-IsValid at e state t c u d sh h = elim (Bool-cases (no_slots t.slots)) [
  | inl y ↦ rw y (subst IsValid (sym (down_empty at e t y)) (to_idle-IsValid t c y))
  | inr n ↦ rw n (record { core = c; shape = (u, (d, h)); shown = sh; in_use = λ q. n })
]

pub retry_later-IsValid :
    (w : World) (reason : Text) (t : Terms)
    → Core t.slots t.next_id t.backoff
    → t.up_since ≡ none
    → Holds Detached t.slots
    → IsValid (retry_later w reason t)
retry_later-IsValid w reason t c u h =
    go_down-IsValid _ _ _ (record t { backoff = (next_delay t.backoff).0 })
      (record { bounded = c.bounded; delays = next_delay-InRange t.backoff c.delays }) u refl refl h

get-detach_all :
    (m : Map ℕ Slot) (j : ℕ) (s : Slot)
    → get j (detach_all m) ≡ some s
    → (x : Slot) × ((get j m ≡ some x) × (s ≡ record x { pty = none }))
unfolding get
get-detach_all [] j s g = cc
get-detach_all ((i, x) ∷ m) j s g = elim (Bool-cases (i == j)) [
  | inl y ↦ (x, (rw y refl, ground (arith, y, g)))
  | inr f ↦ let (z, (h, e)) = get-detach_all m j s (ground (arith, f, g)) in (z, (rw f h, e))
]

detach_all-Holds : (m : Map ℕ Slot) → Holds Detached (detach_all m)
detach_all-Holds m j s g = let (x, (h, e)) = get-detach_all m j s g in ap (λ z. z.pty) e

detach_all-Bounded :
    (n : ℕ) (m : Map ℕ Slot) → Holds (Bounded n) m → Holds (Bounded n) (detach_all m)
detach_all-Bounded n m h j s g =
    let (x, (k, e)) = get-detach_all m j s g in subst (λ z. Bounded n j z) (sym e) (h j x k)

choose-InRange : (b : Bool) (k : Backoff) → InRange k → InRange (if b then fresh else k)
choose-InRange true k v = fresh-InRange
choose-InRange false k v = v

-- Losing the connection leaves every terminal detached, and a later attempt scheduled.
pub lost-IsValid :
    (w : World) (reason : Text) (t : Terms)
    → Core t.slots t.next_id t.backoff
    → IsValid (lost w reason t)
unfolding lost
lost-IsValid w reason t c =
    retry_later-IsValid w reason (detach w reason t)
      (record {
        bounded = detach_all-Bounded t.next_id t.slots c.bounded;
        delays = choose-InRange _ t.backoff c.delays;
      })
      refl (detach_all-Holds t.slots)
