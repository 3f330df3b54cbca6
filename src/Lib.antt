-- ===== src/Lib.antt =====
-- multi-ai watches AI coding agents that run in zellij panes on many hosts. A probe on each host
-- (crates/mai-probe) reports sessions, panes and agent events as JSON lines; the app's core
-- (crates/mai-core) deploys the probe, keeps one connection for each host, and merges what the probes
-- report into one view with alerts. The messages are in crates/mai-protocol.
--
-- The parts, and the modules that model them:
--   Protocol  crates/mai-protocol: AgentState .. AgentRule, ProbeMsg, AppMsg, encode_line and
--             decode_line (Protocol/Codec); HelloInfo is from crates/mai-core/src/link.rs.
--   Link      crates/mai-core/src/link.rs: ProbeLink. A read with its timeout is an outcome, and
--             the stream is a list of outcomes; hello_from is the loop of hello.
--   Host      crates/mai-core/src/host.rs: the states of a connection, host_state, Backoff
--             (Host/Backoff) and the task of one host (Host/Task). The task is a state machine:
--             a phase is the await at which it stands, an input is what the await gives it, and the
--             outputs are the events and the messages that it sends meanwhile.
--   Tracker   crates/mai-core/src/tracker.rs: Tracker. apply is admit (the match on the source of
--             the event) followed by transition.
--   Monitor   crates/mai-core/src/monitor.rs: Monitor. A call returns the monitor and the updates.
--   Swap      crates/mai-core/src/swap.rs: swap_in over a disk on which the n-th call may fail.
--   Manager   crates/mai-core/src/manager.rs: HostManager and run_monitor. The channels of a host's
--             tasks are named by the generation it was added with.
--   SshConfig crates/mai-core/src/ssh/config.rs: Match blocks and warnings, targets, and resolving a
--             target with its jump hosts (SshConfig/Resolve); SshConfig/Reader gives it to Connect.
--   HostKey   crates/mai-core/src/ssh/hostkey.rs: check, scan, host_matches and glob.
--   Spool     crates/mai-probe/src/spool.rs: the log of hook events on a host, as the list of its day
--             files in order.
--   Quoting   crates/mai-core/src/deploy.rs: sh_quote, quote_arg, invoke and join_args.
--   Deploy    crates/mai-core/src/deploy.rs: what is known of a host and its commands, detection
--             (Deploy/Detect), detect and upload (Deploy/Run), and deploy (Deploy/Whole). A run is the
--             list of the calls that it makes, with its result; SshError is from ssh/client.rs.
--   Connect   crates/mai-core/src/connect.rs: which failures are retried, place_binary on the disk of
--             Swap (Connect/Placing), spec and open_ssh (Connect/Opening), open_local and open
--             (Connect/Local), open_ssh_terminals and the search for zellij of terminals.rs
--             (Connect/Terminals), and the environment of a local terminal (Connect/Locale).
--   Term      crates/mai-core/src/term.rs: the task that owns the terminals of a host. run_terms is
--             Term/Run, losing the connection and attaching again is Term/Reconnect.
--   Install   crates/mai-probe/src/install.rs: hook entries of the agents' settings. merge_hooks and
--             remove_hooks are in Install/Editing, read_doc and write_target in Install/Reading.
--   Scrape    crates/mai-probe/src/scrape.rs: rules, identify, still_matches and observe.
--   Hookmap   crates/mai-probe/src/hookmap.rs: map_hook.
--   Serve     crates/mai-probe/src/serve.rs: the server's state, drain_spool and handle,
--             poll_panes (Serve/Polling), scrape_panes and tick (Serve/Scraping).
-- The server of a probe forwards what hooks wrote to the spool; a host's task reads and writes its
-- probe through the link, and feeds the monitor with host events; the monitor gives agent events and
-- lost panes to the tracker; the manager starts and stops the tasks. The connector
-- deploys the probe, with command lines of Quoting, and starts it, before the host's task has a
-- stream to read.
--
-- Shared: Base (Boolean tests, lists, options, results, equality and texts) and Map (HashMap and
-- BTreeMap as association lists). A text is the list of its code points. A time is a number of
-- milliseconds; saturating_sub on u64 is subtraction on ℕ. Times, offsets and identifiers are
-- unbounded numbers: the code only compares them and subtracts with saturation.
-- A spool cursor keeps its 64 bits. No definition runs on fuel but the digits of a number
-- (Base/Results), which are fewer than the number plus one.
--
-- Parameters: serde_json (a printer and a parser, in Protocol/Codec with what the code relies on:
-- what is printed has no line end and parses back), Debug of a message, and the outcomes of reads,
-- writes, file operations and connection attempts; what the code asks of JSON values (Hookmap); the
-- regex engine and the hash of a screen (Scrape); the parser of a known_hosts line, hashed names and
-- keys (HostKey); the parser and the lookup of ssh2_config (SshConfig); what each call over SSH
-- and SFTP answers (each hash and each replacement by its command and its path), the bundled
-- binaries, sha256_hex and Debug of texts (Deploy); what a connection, a PTY and the clock answer at
-- each await (Term); what zellij and the spool answer in a tick (Serve).
--
-- Not modelled: the SSH client, the threads of a PTY, what runs zellij,
-- process and file I/O, and cancellation inside an await. Values that a connection only keeps
-- alive are left out of Opened.
pub mod Base
pub mod Map
pub mod Protocol
pub mod Host
pub mod Link
pub mod Swap
pub mod Tracker
pub mod Monitor
pub mod Manager
pub mod Spool
pub mod HostKey
pub mod Scrape
pub mod Hookmap
pub mod Serve
pub mod Quoting
pub mod SshConfig
pub mod Connect
pub mod Deploy
pub mod Install
pub mod Term
