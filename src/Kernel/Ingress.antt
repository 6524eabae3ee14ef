-- ===== src/Kernel/Ingress.antt =====
-- ai-firewall-ebpf/src/main.rs: `ai_firewall` and `try_ai_firewall`, the XDP program on one frame.
pub mod Writes
pub mod Accounting
pub mod Bans
pub mod Expired
pub mod Replies
use ai_firewall.Prelude.{
  ℕ, ◌+◌, ◌*◌, ◌^◌, bit_and, Bool, not, ◌&&◌, ◌||◌, Option, none, some, List, [], ◌∷◌, is_some,
  length, take, replicate, unwrap_or, ◌==◌, ltb, if◌then◌else◌,
}
use ai_firewall.Wire.{
  UdpFlow, UdpFlow6, proto_udp, family_v4, family_v6, stat_passed, stat_drop_blocklist,
  stat_drop_feed,
}
use ai_firewall.Kernel.Interface.{Headers, Bpf, Env, EtherType, ipv4, ipv6, other}
use ai_firewall.Kernel.Maps.{
  Maps, XdpAction, xdp_drop, xdp_pass, bump, live, ipproto_icmp, ipproto_icmpv6, icmp_echo_request,
  icmpv6_echo_request,
}
use ai_firewall.Kernel.Packet.{Flow, parse_l4, icmp_verdict}
use ai_firewall.Kernel.Policy.{be32, policy}

-- `u64::from_be_bytes`
abbrev pub from_be : ℕ → List ℕ → ℕ
from_be acc [] = acc
from_be acc (byte ∷ bytes) = from_be (acc * 2 ^ 8 + byte) bytes

-- The /64 of an IPv6 address: its first eight bytes.
unfoldable pub prefix_of : List ℕ → ℕ
prefix_of src = from_be 0 (take 8 src)

abbrev pub no_ip6 : List ℕ
no_ip6 = replicate 16 0

-- The keys under which an incoming packet looks for the flow that it answers.
abbrev pub exact4 : ℕ → Flow → UdpFlow
exact4 src_ip flow = record {
  remote_ip = src_ip;
  local_port = flow.dst_port;
  remote_port = flow.src_port;
}

abbrev pub any4 : ℕ → UdpFlow
any4 port = record { remote_ip = 0; local_port = port; remote_port = 0 }

abbrev pub exact6 : List ℕ → Flow → UdpFlow6
exact6 src flow = record {
  remote_ip = src;
  local_port = flow.dst_port;
  remote_port = flow.src_port;
}

abbrev pub any6 : ℕ → UdpFlow6
any6 port = record { remote_ip = no_ip6; local_port = port; remote_port = 0 }

module _ (h : Headers) (b : Bpf) where
  open b use {Trie}

  unfoldable pub reply4 : Maps Trie → ℕ → Flow → Env → Bool
  reply4 m src_ip flow env =
      flow.proto == proto_udp
      && (live env.at_exact (m.udp_flows (exact4 src_ip flow))
          || live env.at_any (m.udp_flows (any4 flow.dst_port)))

  unfoldable pub reply6 : Maps Trie → List ℕ → Flow → Env → Bool
  reply6 m src flow env =
      flow.proto == proto_udp
      && (live env.at_exact (m.udp_flows6 (exact6 src flow))
          || live env.at_any (m.udp_flows6 (any6 flow.dst_port)))

  judge4 : Maps Trie → ℕ → Bool → Env → Option Flow → Maps Trie × XdpAction
  judge4 m src_ip to_everyone env none = (m, xdp_pass)
  judge4 m src_ip to_everyone env (some flow) =
      policy b m (record { family = family_v4; v4 = src_ip; v6 = 0 }) flow to_everyone
        (reply4 m src_ip flow env) env

  judge6 : Maps Trie → List ℕ → Bool → Env → Option Flow → Maps Trie × XdpAction
  judge6 m src to_everyone env none = (m, xdp_pass)
  judge6 m src to_everyone env (some flow) =
      policy b m (record { family = family_v6; v4 = 0; v6 = prefix_of src }) flow to_everyone
        (reply6 m src flow env) env

  -- After the ban lists: fragments, the header length, ICMP, then TCP and UDP.
  transport4 : Maps Trie → List ℕ → ℕ → Bool → Env → Maps Trie × XdpAction
  unfolding judge4
  transport4 m p ip_start to_everyone env =
      let ihl = bit_and (h.ip4_ihl p ip_start) 0x0f * 4 in
      let l4 = ip_start + ihl in
      let proto = h.ip4_proto p ip_start in
      if not (bit_and (h.ip4_frag_off p ip_start) 0x1fff == 0)
      then (m, xdp_pass)
      else if ltb ihl h.ipv4_len
      then (m, xdp_pass)
      else if proto == ipproto_icmp
      then icmp_verdict h m p l4 (length p) icmp_echo_request
      else judge4 m (h.ip4_src p ip_start) to_everyone env (parse_l4 h p proto l4 (length p))

  ingress4 : Maps Trie → List ℕ → ℕ → Bool → Env → Maps Trie × XdpAction
  unfolding transport4
  ingress4 m p ip_start to_everyone env =
      let src_ip = h.ip4_src p ip_start in
      if ltb (length p) (ip_start + h.ipv4_len)
      then (m, xdp_pass)
      else if live env.at_ban (m.blocklist src_ip)
      then (bump stat_drop_blocklist m, xdp_drop)
      else if is_some (b.trie_get m.feeds 32 (be32 src_ip []))
      then (bump stat_drop_feed m, xdp_drop)
      else transport4 m p ip_start to_everyone env

  transport6 : Maps Trie → List ℕ → ℕ → Bool → Env → Maps Trie × XdpAction
  unfolding judge6
  transport6 m p ip_start to_everyone env =
      let l4 = ip_start + h.ipv6_len in
      let proto = h.ip6_next_hdr p ip_start in
      if proto == ipproto_icmpv6
      then icmp_verdict h m p l4 (length p) icmpv6_echo_request
      else judge6 m (h.ip6_src p ip_start) to_everyone env (parse_l4 h p proto l4 (length p))

  ingress6 : Maps Trie → List ℕ → ℕ → Bool → Env → Maps Trie × XdpAction
  unfolding transport6
  ingress6 m p ip_start to_everyone env =
      if ltb (length p) (ip_start + h.ipv6_len)
      then (m, xdp_pass)
      else if live env.at_ban (m.blocklist6 (prefix_of (h.ip6_src p ip_start)))
      then (bump stat_drop_blocklist m, xdp_drop)
      else transport6 m p ip_start to_everyone env

  unfoldable pub by_ether_type : EtherType → Maps Trie → List ℕ → Bool → Env → Maps Trie × XdpAction
  unfolding ingress4 ingress6
  by_ether_type ipv4 m p to_everyone env = ingress4 m p h.eth_len to_everyone env
  by_ether_type ipv6 m p to_everyone env = ingress6 m p h.eth_len to_everyone env
  by_ether_type other m p to_everyone env = (m, xdp_pass)

  -- Every path of the source returns `Ok`.
  unfoldable pub try_ai_firewall : Maps Trie → List ℕ → Env → Maps Trie × Option XdpAction
  unfolding by_ether_type
  try_ai_firewall m p env =
      if ltb (length p) h.eth_len
      then (m, some xdp_pass)
      else (let to_everyone = not (bit_and (h.eth_dst0 p 0) 1 == 0) in
          let (m', action) = by_ether_type (h.ether_type p 0) m p to_everyone env in
          (m', some action))

  count_pass : Maps Trie → XdpAction → Maps Trie × XdpAction
  count_pass m xdp_pass = (bump stat_passed m, xdp_pass)
  count_pass m xdp_drop = (m, xdp_drop)

  unfoldable pub ai_firewall_xdp : Maps Trie → List ℕ → Env → Maps Trie × XdpAction
  unfolding count_pass
  ai_firewall_xdp m p env =
      let (m', result) = try_ai_firewall m p env in count_pass m' (unwrap_or result xdp_pass)
