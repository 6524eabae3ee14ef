-- ===== src/Kernel/Interface.antt =====
-- What the kernel program calls and does not contain: the header layouts of `network_types`, and
-- of the kernel's maps those whose behaviour is more than a lookup (the LPM tries and the LRU
-- maps). They are parameters of every definition that uses them.
use ai_firewall.Prelude.{ℕ, Bool, Option, List, KernelMap}
use ai_firewall.Wire.{UdpFlow, UdpFlow6, RateState}

pub data EtherType : Type 0 where
  ipv4 ipv6 other : EtherType

-- A frame is the list of its bytes, an accessor takes the offset at which its header starts, and
-- a field that the source passes through `from_be` is given in host order.
pub record Headers : Type 0 where
  pub eth_len : ℕ
  pub ipv4_len : ℕ
  pub ipv6_len : ℕ
  pub tcp_len : ℕ
  pub udp_len : ℕ
  pub ipproto_tcp : ℕ
  pub ipproto_udp : ℕ
  pub eth_dst0 : List ℕ → ℕ → ℕ
  pub ether_type : List ℕ → ℕ → EtherType
  pub ip4_src : List ℕ → ℕ → ℕ
  pub ip4_dst : List ℕ → ℕ → ℕ
  pub ip4_frag_off : List ℕ → ℕ → ℕ
  pub ip4_ihl : List ℕ → ℕ → ℕ
  pub ip4_proto : List ℕ → ℕ → ℕ
  pub ip6_src : List ℕ → ℕ → List ℕ
  pub ip6_dst : List ℕ → ℕ → List ℕ
  pub ip6_next_hdr : List ℕ → ℕ → ℕ
  pub byte : List ℕ → ℕ → ℕ
  pub tcp_fin : List ℕ → ℕ → ℕ
  pub tcp_syn : List ℕ → ℕ → ℕ
  pub tcp_rst : List ℕ → ℕ → ℕ
  pub tcp_psh : List ℕ → ℕ → ℕ
  pub tcp_ack : List ℕ → ℕ → ℕ
  pub tcp_urg : List ℕ → ℕ → ℕ
  pub tcp_doff : List ℕ → ℕ → ℕ
  pub tcp_source : List ℕ → ℕ → ℕ
  pub tcp_dest : List ℕ → ℕ → ℕ
  pub udp_source : List ℕ → ℕ → ℕ
  pub udp_dest : List ℕ → ℕ → ℕ

-- The kernel's maps and helpers. `load p o n` tells whether `ctx.load` finds n bytes at offset o.
pub record Bpf : Type 1 where
  pub Trie : Type 0
  pub trie_get : Trie → ℕ → List ℕ → Option ℕ
  pub trie_insert : Trie → ℕ → List ℕ → ℕ → Option Trie
  pub trie_remove : Trie → ℕ → List ℕ → Trie
  pub rate_insert : KernelMap ℕ RateState → ℕ → RateState → KernelMap ℕ RateState
  pub flow_insert : KernelMap UdpFlow ℕ → UdpFlow → ℕ → KernelMap UdpFlow ℕ
  pub flow6_insert : KernelMap UdpFlow6 ℕ → UdpFlow6 → ℕ → KernelMap UdpFlow6 ℕ
  pub load : List ℕ → ℕ → ℕ → Bool

-- What the environment supplies to one run of the filter: the clock where it may be read, and
-- whether the ring buffer has room for an event.
pub record Env : Type 0 where
  pub at_ban : ℕ
  pub at_exact : ℕ
  pub at_any : ℕ
  pub at_rate : ℕ
  pub ring_room : Bool
