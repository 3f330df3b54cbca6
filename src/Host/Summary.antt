-- ===== src/Host/Summary.antt =====
-- crates/mai-core/src/host.rs: what `host_state` shows, by the states of the two connections.
use multi_ai.Base.{◌≡◌, ◌≢◌, ◌⊎◌, ◌↔◌, true, false, none, some, arith}
use multi_ai.Host.{
  ConnState, up, HostState, online, degraded, auth_required, host_state, needs_auth, is_up,
  is_connecting,
}

-- With one connection, the state is that connection's.
pub host_state_alone :
    (p : ConnState)
    → ((host_state p none ≡ online) ↔ (p ≡ up))
      × (host_state p none ≢ degraded)
      × ((host_state p none ≡ auth_required) ↔ (needs_auth p ≡ true))
      × ((host_state p none ≡ HostState.connecting) ↔ (p ≡ ConnState.connecting))
unfolding host_state needs_auth is_up is_connecting
host_state_alone p = ground arith

abbrev pub ShownForBoth : ConnState → ConnState → Type 0
ShownForBoth p t =
    ((host_state p (some t) ≡ online) ↔ ((p ≡ up) × (t ≡ up)))
    × ((host_state p (some t) ≡ degraded) ↔ (((p ≡ up) × (t ≢ up)) ⊎ ((p ≢ up) × (t ≡ up))))
    × ((host_state p (some t) ≡ auth_required)
        ↔ ((p ≢ up) × (t ≢ up) × ((needs_auth p ≡ true) ⊎ (needs_auth t ≡ true))))
    × ((host_state p (some t) ≡ HostState.connecting) ↔ (
        (p ≢ up)
        × (t ≢ up)
        × (needs_auth p ≡ false)
        × (needs_auth t ≡ false)
        × ((p ≡ ConnState.connecting) ⊎ (t ≡ ConnState.connecting))))

-- With both connections: online when both are up; degraded when exactly one is; and otherwise a
-- problem of authentication comes before a connection attempt, and an attempt before offline.
pub host_state_both : (p t : ConnState) → ShownForBoth p t
unfolding host_state needs_auth is_up is_connecting
host_state_both p t = ground arith
