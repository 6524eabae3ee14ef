-- ===== src/Lib.antt =====
-- ai-firewall: a host firewall in two halves. An XDP program in the kernel drops packets by ban
-- lists, feeds, port tables and rate limits, and sends an event up for the packets that say
-- something of their source; an egress program records outgoing UDP flows, so that their answers
-- get in. A daemon in user space scores the sources of the events and bans those over the
-- threshold; it reads its ports, rules and networks from a configuration.
--
-- What models what (paths from the repository's root):
-- + Wire: ai-firewall-common/src/lib.rs, the constants, the event with its tests (`is_syn` and so
--   on), the flow keys and `rate_pack`; Wire/Flags reads the TCP flags bit by bit.
-- + Kernel: ai-firewall-ebpf/src/main.rs. Kernel/Interface has what the program calls and does not
--   contain; Kernel/Maps the maps as one record, with `bump`, `config` (here `read_config`),
--   `port_open` and `live`; Kernel/Packet `parse_l4` and `icmp_verdict`; Kernel/Policy `policy`,
--   `over_rate` and `allowed_from`; Kernel/Ingress `try_ai_firewall` and `ai_firewall` (here
--   `ai_firewall_xdp`); Kernel/Egress `try_egress`. A step takes the maps and returns the maps with
--   its verdict.
-- + Text: the functions of Rust's text that the daemon uses, with their round trips.
-- + Addr: ai-firewall/src/addr.rs.
-- + Config: ai-firewall/src/config.rs, networks (Config/Cidr, with `overlaps` of
--   ai-firewall/src/feeds.rs), ports with rules and their rates (Config/Ports), and the settings
--   with `policy`, `profile_for` and `validate` (Config/Settings).
-- + Feeds: ai-firewall/src/feeds.rs, `known`, `parse`, `sources` and, over the cached texts, `load`.
-- + Posture: ai-firewall/src/posture.rs, `apply`.
-- + Detector: ai-firewall/src/detector.rs. `observe` takes the detector, an event and the time and
--   returns the detector and perhaps a ban; Detector/Float is the f32 arithmetic as an interface.
-- + State: ai-firewall/src/state.rs, `expiry_for`, `remaining`, `Blocklist` and `Saved::capture`.
-- + History: ai-firewall/src/history.rs, `BanNotes`.
-- + Daemon: ai-firewall/src/daemon.rs. Daemon/Bans has `enact`, `sweep`, `restore` and
--   `refresh_protection` on the `Shared` state, Daemon/Rules `compile`, `sync_ports` and `sync_trie`,
--   Daemon/Apply `apply_config`, Daemon/Uplink `heal`, Daemon/FeedNets `apply_feeds`,
--   Daemon/Status `build_status`.
-- + Links: ai-firewall/src/links.rs. The names in the directory of the pins and the texts of the
--   sidecars are the state; `attach_xdp`, `attach_tc`, `unpin` and `unpin_all` change it. What the
--   kernel answers is a record.
-- + Net: ai-firewall/src/net.rs, what is read of /proc, resolv.conf and the list of addresses.
-- + Doctor: ai-firewall/src/doctor.rs, the list of fixes, the reader of an nftables ruleset and the
--   checks of `diagnose` (Doctor/Checks), over a record of what the host answers; the action of a fix
--   (Doctor/Fixes) and the fix `unban-protected` on the ban maps (Doctor/Unban).
-- + Tui: ai-firewall/src/tui.rs, the view of the status file, `daemon_alive` and `duration`.
-- + SelfTest: ai-firewall/src/selftest.rs, the names of the tests.
-- + Assistant: ai-firewall/src/assistant.rs, the actions that a reply of a model proposes
--   (Assistant/Allowed) and `ThinkFilter` (Assistant/Think).
-- + Prelude: names, maps, lists and lemmas on bits that the parts share.
--
-- The parts interact through the maps and the events: the kernel's `policy` makes the PacketEvent
-- that `Detector.observe` reads, the ban that it returns is entered by `enact` in the maps that the
-- kernel's `live` reads, and `compile` makes of the configuration the ports, the networks and the
-- packed limits that `port_open`, `allowed_from` and `over_rate` read. `heal` attaches the programs
-- through the links, and the host's facts (Net) are what `set_protected` of the detector is told.
--
-- Integers are natural numbers with the wrap-around of their width written out, as in a release
-- build; where the source saturates, the model takes the minimum. Loops over lists are structural.
-- There is fuel in printing a number, where the number itself bounds its digits, and in the retries
-- of an attach, 31 rounds for a counter that stops at 30 (Links/Busy). A kernel map
-- is its lookup function: what a lookup returns and what a write changes are modelled, what an LRU
-- map evicts is a parameter. The counters are those of one CPU. The clock is an input at each place
-- where the source reads it, so that it may move between two reads.
--
-- Not modelled: the daemon's event loop and its I/O (files, sockets, notifications, downloads, the
-- loading of the programs), the text of error messages, the dashboard, the command line, the
-- commands that the fixes of the doctor run, the measurements of the self test, the HTTP client of
-- the assistant; concurrent updates of one map entry by several CPUs.
mod Prelude
pub mod Wire
pub mod Kernel
pub mod Text
pub mod Config
pub mod Addr
pub mod Links
pub mod Net
pub mod Tui
pub mod Doctor
pub mod SelfTest
pub mod Assistant
pub mod State
pub mod History
pub mod Feeds
pub mod Daemon
pub mod Posture
pub mod Detector
