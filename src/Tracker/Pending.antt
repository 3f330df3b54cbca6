-- ===== src/Tracker/Pending.antt =====
-- crates/mai-core/src/tracker.rs: the list of agents that wait for the user.
use mathlib.Core.List.{Perm}
use multi_ai.Base.{◌≤◌, ◌≡◌, refl, subst, ◌⊎◌, Bool, true, false, arith, filter, List, [], ◌∷◌}
use multi_ai.Protocol.{AgentState, needs_input, done}
use multi_ai.Tracker.{AgentRecord, Tracker, records, pending_leb, is_pending, pending}
use multi_ai.Tracker.Sort.{sort_by-perm, sort_by-Sorted, Sorted}

-- An agent that needs input or is done waits, until the user has seen it.
abbrev pub waits_in : AgentState → Bool → Bool
waits_in needs_input false = true
waits_in done false = true
waits_in _ _ = false

abbrev pub waits : AgentRecord → Bool
waits r = waits_in r.state r.acknowledged

abbrev pub asks : AgentState → Bool
asks needs_input = true
asks _ = false

-- Needs input before done, and the older first within each.
abbrev pub NotAfter : AgentRecord → AgentRecord → Type 0
NotAfter a b =
    ((asks a.state ≡ true) × (asks b.state ≡ false))
    ⊎ ((asks a.state ≡ asks b.state) × (a.since_ms ≤ b.since_ms))

is_pending_lem : (r : AgentRecord) → is_pending r ≡ waits r
unfolding is_pending multi_ai.Tracker.is_alerting
is_pending_lem r = ground arith

filter_pending : (rs : List AgentRecord) → filter is_pending rs ≡ filter waits rs
filter_pending [] = refl
filter_pending (r ∷ rs) = rw (is_pending_lem r, filter_pending rs) refl

leb→NotAfter : (a b : AgentRecord) → pending_leb a b ≡ true → NotAfter a b
unfolding pending_leb multi_ai.Protocol.Equal.state_beq
leb→NotAfter a b h = ground arith

gt→NotAfter : (a b : AgentRecord) → pending_leb a b ≡ false → NotAfter b a
unfolding pending_leb multi_ai.Protocol.Equal.state_beq
gt→NotAfter a b h = ground arith

NotAfter-trans : (a b c : AgentRecord) → NotAfter a b → NotAfter b c → NotAfter a c
NotAfter-trans a b c h k = ground arith

-- `pending` lists each record that needs input or is done and is not acknowledged, as often as it stands in
-- the tracker, and no other; those that need input come before those that are done, and within each
-- group the state entered first comes first.
pub pending_lem :
    (t : Tracker) → Perm (pending t) (filter waits (records t)) × Sorted NotAfter (pending t)
unfolding pending
pending_lem t = (
  subst (Perm (pending t)) (filter_pending (records t))
      (sort_by-perm pending_leb (filter is_pending (records t))),
  sort_by-Sorted NotAfter pending_leb leb→NotAfter gt→NotAfter NotAfter-trans
      (filter is_pending (records t)),
)
