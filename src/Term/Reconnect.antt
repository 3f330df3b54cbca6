-- ===== src/Term/Reconnect.antt =====
-- crates/mai-core/src/term.rs: losing the terminal connection, and attaching every terminal again
-- (`idle_if_empty`, `lost`, `reconnect`).
use multi_ai.Base.{
  ℕ, ◌+◌, ◌-◌, Bool, true, false, ◌&&◌, not, Option, none, some, List, [], ◌∷◌, Text, leb, nat_eq,
  is_some_and, Result, ok, err, if◌then◌else◌,
}
use multi_ai.Map.{Map, get, insert}
use multi_ai.Host.{OpenError, ConnState, retrying, needs_user}
use multi_ai.Host.Backoff.{fresh, next_delay}
use multi_ai.Host.Task.{stable_after}
use multi_ai.Term.{TermEvent, attached, detached, close, reason_of}
use multi_ai.Term.Task.{
  Slot, Link, idle, busy, down, Sent, emit, to_pty, tell, World, Terms, send, attach, connect,
}

abbrev pub is_idle : Link → Bool
is_idle idle = true
is_idle _ = false

abbrev pub is_busy : Link → Bool
is_busy busy = true
is_busy _ = false

abbrev pub no_slots : Map ℕ Slot → Bool
no_slots [] = true
no_slots _ = false

unfoldable pub idle_if_empty : Terms → Terms
idle_if_empty t =
    if no_slots t.slots && (not (is_idle t.link) && not (is_busy t.link))
    then send (emit none) (record t { link = idle; up_since = none; backoff = fresh })
    else t

-- Every slot is detached, and told so.
abbrev pub detach_all : Map ℕ Slot → Map ℕ Slot
detach_all [] = []
detach_all ((id, s) ∷ m) = (id, record s { pty = none }) ∷ detach_all m

abbrev pub tell_all : TermEvent → Map ℕ Slot → List Sent → List Sent
tell_all ev [] log = log
tell_all ev ((id, s) ∷ m) log = tell_all ev m (tell id ev ∷ log)

-- The connection is down until a later attempt, or until the user retries: `state` is reported
-- if there are terminals.
abbrev pub go_down : Option ℕ → OpenError → ConnState → Terms → Terms
go_down at error state t =
    let t' : Terms = record t { link = down at error } in
    if no_slots t.slots then idle_if_empty t' else send (emit (some state)) t'

abbrev pub keys : Map ℕ Slot → List ℕ
keys [] = []
keys ((id, s) ∷ m) = id ∷ keys m

module _ (w : World) where
  abbrev pub retry_later : Text → Terms → Terms
  retry_later reason t =
      let (b, delay) = next_delay t.backoff in
      go_down (some (w.now t.awaits + delay)) (OpenError.retry reason) (retrying delay reason)
        (record t { backoff = b })

  abbrev stable : Terms → Bool
  stable t = is_some_and t.up_since (λ since. leb stable_after (w.now t.awaits - since))

  abbrev pub detach : Text → Terms → Terms
  detach reason t = record t {
    slots = detach_all t.slots;
    log = tell_all (detached reason) t.slots t.log;
    up_since = none;
    backoff = if stable t then fresh else t.backoff;
  }

  unfoldable pub lost : Text → Terms → Terms
  unfolding idle_if_empty
  lost reason t = retry_later reason (detach reason t)

  -- A PTY for a terminal that was attached again, or was closed meanwhile.
  abbrev pub reattach_slot : ℕ → ℕ → ℕ → Option Slot → Terms → Terms
  reattach_slot id generation pty none t = send (to_pty pty close) t
  reattach_slot id generation pty (some s) t = send (tell id attached) (record t {
    slots =
        insert id
          (record s { pty = some pty; generation = generation; attached_at = w.now t.awaits })
          t.slots;
  })

  unfoldable pub reattached : ℕ → ℕ → ℕ → Terms → Terms
  reattached id generation pty t = reattach_slot id generation pty (get id t.slots) t

  -- One round of the loop of `reconnect`: whether to go on, unless told to stop.
  abbrev pub on_attached : ℕ → ℕ → Terms × Option (Result ℕ OpenError) → Terms × Option Bool
  on_attached id generation (t, none) = (t, none)
  on_attached id generation (t, some (ok pty)) = (reattached id generation pty t, some true)
  on_attached id generation (t, some (err e)) = (lost (reason_of e) t, some false)

  abbrev pub attach_slot : ℕ → Option Slot → Terms → Terms × Option Bool
  attach_slot id none t = (t, some true)
  attach_slot id (some s) t = on_attached id (s.generation + 1) (attach w s.spec t)

  unfoldable pub attach_again : ℕ → Terms → Terms × Option Bool
  unfolding attach reattached lost reason_of
  attach_again id t = attach_slot id (get id t.slots) t

  abbrev pub then_each : Terms × Option Bool → (Terms → Terms × Bool) → Terms × Bool
  then_each (t, none) next = (t, false)
  then_each (t, some false) next = (t, true)
  then_each (t, some true) next = next t

  -- The loop; `idle_if_empty` follows it. The second part is false if told to stop.
  unfoldable pub attach_each : List ℕ → Terms → Terms × Bool
  unfolding attach_again idle_if_empty
  attach_each [] t = (idle_if_empty t, true)
  attach_each (id ∷ ids) t = then_each (attach_again id t) (λ u. attach_each ids u)

  -- What connecting again leads to.
  abbrev pub after_connect : Terms × Option (Result (Unit {0}) OpenError) → Terms × Bool
  after_connect (t, none) = (t, false)
  after_connect (t, some (ok u)) = attach_each (keys t.slots) t
  after_connect (t, some (err (OpenError.retry reason))) = (retry_later reason t, true)
  after_connect (t, some (err (OpenError.needs_user p))) =
      (go_down none (OpenError.needs_user p) (needs_user p) t, true)

  unfoldable pub reconnect : Terms → Terms × Bool
  unfolding connect attach_each idle_if_empty
  reconnect t = after_connect (connect w t)
