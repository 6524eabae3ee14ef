-- ===== src/Kernel/Maps.antt =====
-- ai-firewall-ebpf/src/main.rs, the maps and the helpers that read them. STATS is this CPU's array.
use ai_firewall.Prelude.{
  ℕ, ◌+◌, ◌%◌, ◌^◌, Bool, false, not, ◌||◌, Option, none, some, List, KernelMap, update, nat_eq,
  unwrap_or, ltb, ◌==◌,
}
use ai_firewall.Wire.{UdpFlow, UdpFlow6, PacketEvent, RateState, ban_forever}

-- `events` holds what was submitted to the ring buffer, the newest first.
pub record Maps (Trie : Type 0) : Type 0 where
  pub blocklist : KernelMap ℕ ℕ
  pub blocklist6 : KernelMap ℕ ℕ
  pub udp_flows : KernelMap UdpFlow ℕ
  pub udp_flows6 : KernelMap UdpFlow6 ℕ
  pub events : List PacketEvent
  pub tcp_allow : KernelMap ℕ ℕ
  pub udp_allow : KernelMap ℕ ℕ
  pub allow_from_tcp : Trie
  pub allow_from_udp : Trie
  pub tcp_rate : KernelMap ℕ ℕ
  pub rate_state : KernelMap ℕ RateState
  pub feeds : Trie
  pub config : KernelMap ℕ ℕ
  pub stats : KernelMap ℕ ℕ

pub data XdpAction : Type 0 where
  xdp_drop xdp_pass : XdpAction

abbrev pub ipproto_icmp : ℕ
ipproto_icmp = 1

abbrev pub ipproto_icmpv6 : ℕ
ipproto_icmpv6 = 58

abbrev pub icmp_echo_request : ℕ
icmp_echo_request = 8

abbrev pub icmpv6_echo_request : ℕ
icmpv6_echo_request = 128

module _ {Trie : Type 0} where
  unfoldable pub bump : ℕ → Maps Trie → Maps Trie
  bump slot m = elim (m.stats slot) [
    | none ↦ m
    | some counter ↦ record m { stats = update m.stats slot ((counter + 1) % 2 ^ 64) }
  ]

  unfoldable pub read_config : Maps Trie → ℕ → ℕ
  read_config m slot = unwrap_or (m.config slot) 0

unfoldable pub port_open : KernelMap ℕ ℕ → ℕ → Bool
port_open list port = not (unwrap_or (list port) 0 == 0)

-- Whether an entry with this expiry is in force at `now`.
unfoldable pub live : ℕ → Option ℕ → Bool
live now none = false
live now (some e) = e == ban_forever || ltb now e
