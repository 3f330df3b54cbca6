-- ===== src/Protocol.antt =====
-- crates/mai-protocol/src: the wire messages (types.rs, messages.rs) and lib.rs. A u32 or u64 is
-- a number that no operation here computes with; an f32 is its bit pattern. `PartialEq` of the
-- types that the program compares stands in the child `Equal`.
pub mod Equal
pub mod Codec
mod Examples
use multi_ai.Base.{
  ℕ, ◌+◌, Bool, true, false, ◌&&◌, ◌||◌, Option, List, [], ◌∷◌, Text, leb, nat_beq, filter,
}

pub data AgentState : Type 0 where
  unknown working needs_input done exited : AgentState

pub data EventSource : Type 0 where
  hook scrape : EventSource

pub record PaneRef : Type 0 where
  pub session : Text
  pub pane_id : ℕ

pub record AgentEvent : Type 0 where
  pub pane : PaneRef
  pub agent : Text
  pub source : EventSource
  pub state : AgentState
  pub message : Option Text
  pub ts_ms : ℕ
  pub spool_offset : Option ℕ

pub record SessionInfo : Type 0 where
  pub name : Text
  pub exited : Bool

pub record PaneInfo : Type 0 where
  pub id : ℕ
  pub tab_id : ℕ
  pub tab_name : Text
  pub title : Text
  pub command : Option Text
  pub exited : Bool

pub record Metrics : Type 0 where
  pub cpu_pct : ℕ
  pub mem_used : ℕ
  pub mem_total : ℕ
  pub disk_read_bps : ℕ
  pub disk_write_bps : ℕ
  pub net_rx_bps : ℕ
  pub net_tx_bps : ℕ
  pub load1 : Option ℕ
  pub ts_ms : ℕ

pub record AgentRule : Type 0 where
  pub name : Text
  pub title_patterns : List Text
  pub screen_patterns : List Text
  pub needs_input_patterns : List Text
  pub done_patterns : List Text
  pub ignore_patterns : List Text
  pub stable_ms : ℕ

pub record ScrapeRules : Type 0 where
  pub agents : List AgentRule

-- What the probe says of itself in `ProbeMsg::Hello`.
pub record HelloInfo : Type 0 where
  pub protocol_version : ℕ
  pub probe_version : Text
  pub os : Text
  pub arch : Text
  pub zellij_path : Option Text
  pub zellij_version : Option Text

pub data ProbeMsg : Type 0 where
  hello : HelloInfo → ProbeMsg
  sessions : List SessionInfo → ProbeMsg
  panes : Text → List PaneInfo → ProbeMsg
  agent_event : AgentEvent → ProbeMsg
  metrics : Metrics → ProbeMsg
  heartbeat : ℕ → ProbeMsg
  error : Text → Text → ProbeMsg

pub data AppMsg : Type 0 where
  ack : ℕ → AppMsg
  send_text : Text → ℕ → Text → AppMsg
  focus : Text → ℕ → ℕ → AppMsg
  set_interval : ℕ → ℕ → ℕ → AppMsg
  set_rules : ScrapeRules → AppMsg

abbrev pub protocol_version : ℕ
protocol_version = 1

-- `char::is_ascii_alphanumeric`.
unfoldable pub is_ascii_alphanumeric : ℕ → Bool
is_ascii_alphanumeric c =
    (leb b'0' c && leb c b'9') || ((leb b'A' c && leb c b'Z') || (leb b'a' c && leb c b'z'))

unfoldable pub client_char : ℕ → Bool
unfolding is_ascii_alphanumeric
client_char c = is_ascii_alphanumeric c || (nat_beq c b'-' || nat_beq c b'_')

unfoldable pub sanitize_client : Text → Text
unfolding client_char
sanitize_client id = filter client_char id
