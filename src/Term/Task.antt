-- ===== src/Term/Task.antt =====
-- crates/mai-core/src/term.rs: the task that owns a host's terminal connection and all its
-- terminals (`Terms`, `run_terms`). The state is passed on explicitly. The `n`-th await of a run ends
-- as the world tells: `during n` are the commands that `busy` reads meanwhile (`none` is the end of
-- their channel), and the clock stands still between two awaits. A sender is named by the terminal
-- or by the request that it belongs to; a PTY by the number that the world gives it. The log holds what was
-- sent, the newest first.
use multi_ai.Base.{
  ℕ, ◌+◌, Bool, Option, none, some, List, [], ◌∷◌, ◌++◌, Text, text, nat_eq, or_else, Result, ok,
  err,
}
use multi_ai.Map.{Map, get, insert, remove}
use multi_ai.Host.{OpenError, ConnState}
use multi_ai.Host.Backoff.{Backoff}
use multi_ai.Term.{
  TermSize, PtyIn, data_in, resize, close, PtyOut, AttachSpec, TermEvent, TermError,
}

-- `OpenResult`: the receiver of the events belongs to the id.
abbrev pub OpenResult : Type 0
OpenResult = Result ℕ TermError

-- An open names the request that it answers.
pub data TermCmd : Type 0 where
  open_term : AttachSpec → ℕ → TermCmd
  input : ℕ → List ℕ → TermCmd
  set_size : ℕ → TermSize → TermCmd
  close_term : ℕ → TermCmd
  retry stop : TermCmd

pub record Slot : Type 0 where
  pub spec : AttachSpec
  pub pty : Option ℕ
  pub generation : ℕ
  pub attached_at : ℕ
  pub quick_ends : ℕ

pub data Link : Type 0 where
  idle up busy : Link
  down : Option ℕ → OpenError → Link

pub data Sent : Type 0 where
  emit : Option ConnState → Sent
  to_pty : ℕ → PtyIn → Sent
  tell : ℕ → TermEvent → Sent
  reply : ℕ → OpenResult → Sent

-- What the loop reads next: a command, output of a PTY with its terminal and generation, or the end
-- of the delay.
pub data Selected : Type 0 where
  command : Option TermCmd → Selected
  printed : ℕ → ℕ → Option PtyOut → Selected
  slept : Selected

pub record World : Type 0 where
  -- `cfg.zellij`, and the entry that the probe's greeting has left.
  pub zellij : Option Text
  pub reported : ℕ → Option Text
  pub now : ℕ → ℕ
  pub during : ℕ → List (Option TermCmd)
  pub connected : ℕ → Result (Unit {0}) OpenError
  pub attach_outcome : Option Text → AttachSpec → ℕ → Result ℕ OpenError
  pub alive : ℕ → Bool
  pub selected : ℕ → Selected

pub record Terms : Type 0 where
  pub link : Link
  pub slots : Map ℕ Slot
  pub pending : List (AttachSpec × ℕ)
  pub next_id : ℕ
  pub backoff : Backoff
  pub up_since : Option ℕ
  pub awaits : ℕ
  pub log : List Sent

abbrev pub send : Sent → Terms → Terms
send o t = record t { log = o ∷ t.log }

abbrev pub to_slot_pty : Option ℕ → PtyIn → Terms → Terms
to_slot_pty none x t = t
to_slot_pty (some p) x t = send (to_pty p x) t

-- Input, a size and an end for the slot that a lookup finds.
abbrev pub input_slot : List ℕ → Option Slot → Terms → Terms
input_slot bytes none t = t
input_slot bytes (some s) t = to_slot_pty s.pty (data_in bytes) t

abbrev pub resize_slot : ℕ → TermSize → Option Slot → Terms → Terms
resize_slot id size none t = t
resize_slot id size (some s) t =
    to_slot_pty s.pty (resize size)
      (record t { slots = insert id (record s { spec = record s.spec { size = size } }) t.slots })

abbrev pub close_slot : ℕ → Option Slot → Terms → Terms
close_slot id none t = t
close_slot id (some s) t = to_slot_pty s.pty close (record t { slots = remove id t.slots })

-- A command that does not need the connection.
unfoldable pub local : TermCmd → Terms → Terms
local (input id bytes) t = input_slot bytes (get id t.slots) t
local (set_size id size) t = resize_slot id size (get id t.slots) t
local (close_term id) t = close_slot id (get id t.slots) t
local (open_term spec r) t = record t { pending = t.pending ++ (spec, r) ∷ [] }
local retry t = t
local stop t = t

-- `busy`: `none` if told to stop before the future is ready.
unfoldable pub busy_loop {ℓ} : {A : Type ℓ} → List (Option TermCmd) → A → Terms → Terms × Option A
unfolding local
busy_loop [] out t = (t, some out)
busy_loop (none ∷ cs) out t = (t, none)
busy_loop (some stop ∷ cs) out t = (t, none)
busy_loop (some c ∷ cs) out t = busy_loop cs out (local c t)

-- The connection is lent to the attach, and given back.
abbrev pub give_back {ℓ} : {A : Type ℓ} → Terms × Option A → Terms × Option A
give_back (t, none) = (t, none)
give_back (t, some a) = (record t { link = up }, some a)

module _ (w : World) where
  unfoldable pub wait {ℓ} : {A : Type ℓ} → A → Terms → Terms × Option A
  wait out t = busy_loop (w.during t.awaits) out (record t { awaits = t.awaits + 1 })

  abbrev pub zellij_path : Terms → Option Text
  zellij_path t = or_else w.zellij (w.reported t.awaits)

  abbrev pub attach_over : Link → AttachSpec → Terms → Terms × Option (Result ℕ OpenError)
  attach_over up spec t =
      give_back (wait (w.attach_outcome (zellij_path t) spec t.awaits) (record t { link = busy }))
  attach_over _ spec t = (t, some (err (OpenError.retry (text "terminal connection is down"))))

  unfoldable pub attach : AttachSpec → Terms → Terms × Option (Result ℕ OpenError)
  unfolding wait
  attach spec t = attach_over t.link spec t

  abbrev pub on_connected :
      Terms × Option (Result (Unit {0}) OpenError) → Terms × Option (Result (Unit {0}) OpenError)
  on_connected (t, some (ok u)) = (
    send (emit (some ConnState.up)) (record t { link = up; up_since = some (w.now t.awaits) }),
    some (ok u),
  )
  on_connected (t, r) = (t, r)

  unfoldable pub connect : Terms → Terms × Option (Result (Unit {0}) OpenError)
  unfolding wait
  connect t = on_connected (wait (w.connected t.awaits) t)
