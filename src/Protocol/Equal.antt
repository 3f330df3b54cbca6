-- ===== src/Protocol/Equal.antt =====
-- crates/mai-protocol/src/types.rs: `PartialEq` of the types that the program compares.
use multi_ai.Base.{
  ◌≡◌, ◌↔◌, Bool, true, false, ◌&&◌, arith, PartialEq, ◌==◌, nat_eq, list_eq, option_eq, bool_eq,
  list_beq_iff, option_beq_iff, bool_beq_iff,
}
use multi_ai.Protocol.{
  AgentState, unknown, working, needs_input, done, exited, PaneRef, SessionInfo, PaneInfo,
}

unfoldable pub state_beq : AgentState → AgentState → Bool
state_beq unknown unknown = true
state_beq working working = true
state_beq needs_input needs_input = true
state_beq done done = true
state_beq exited exited = true
state_beq _ _ = false

pub state_beq_iff : (a b : AgentState) → (state_beq a b ≡ true) ↔ (a ≡ b)
unfolding state_beq
state_beq_iff a b = ground arith

instance abbrev pub state_eq : PartialEq AgentState
state_eq = record { beq = state_beq; beq_iff = state_beq_iff }

unfoldable pub pane_ref_beq : PaneRef → PaneRef → Bool
pane_ref_beq a b = (a.session == b.session) && (a.pane_id == b.pane_id)

pub pane_ref_beq_iff : (a b : PaneRef) → (pane_ref_beq a b ≡ true) ↔ (a ≡ b)
unfolding pane_ref_beq
pane_ref_beq_iff a b = ground (arith, list_beq_iff a.session b.session)

instance abbrev pub pane_ref_eq : PartialEq PaneRef
pane_ref_eq = record { beq = pane_ref_beq; beq_iff = pane_ref_beq_iff }

unfoldable pub session_info_beq : SessionInfo → SessionInfo → Bool
session_info_beq a b = (a.name == b.name) && (a.exited == b.exited)

pub session_info_beq_iff : (a b : SessionInfo) → (session_info_beq a b ≡ true) ↔ (a ≡ b)
unfolding session_info_beq
session_info_beq_iff a b =
    ground (arith, list_beq_iff a.name b.name, bool_beq_iff a.exited b.exited)

instance abbrev pub session_info_eq : PartialEq SessionInfo
session_info_eq = record { beq = session_info_beq; beq_iff = session_info_beq_iff }

unfoldable pub pane_info_beq : PaneInfo → PaneInfo → Bool
pane_info_beq a b =
    (a.id == b.id)
    && ((a.tab_id == b.tab_id)
        && ((a.tab_name == b.tab_name)
            && ((a.title == b.title) && ((a.command == b.command) && (a.exited == b.exited)))))

pub pane_info_beq_iff : (a b : PaneInfo) → (pane_info_beq a b ≡ true) ↔ (a ≡ b)
unfolding pane_info_beq
pane_info_beq_iff a b = ground (
  arith,
  list_beq_iff a.tab_name b.tab_name,
  list_beq_iff a.title b.title,
  option_beq_iff a.command b.command,
  bool_beq_iff a.exited b.exited,
)

instance abbrev pub pane_info_eq : PartialEq PaneInfo
pane_info_eq = record { beq = pane_info_beq; beq_iff = pane_info_beq_iff }
