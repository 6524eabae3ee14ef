-- ===== src/Kernel/Egress.antt =====
-- ai-firewall-ebpf/src/main.rs: `try_egress`, the classifier that records outgoing UDP flows. The
-- program returns TC_ACT_UNSPEC whatever `try_egress` says, so the model is its effect on the maps.
use ai_firewall.Prelude.{
  ℕ, ◌+◌, ◌*◌, ◌/◌, ◌%◌, ◌^◌, ◌-◌, bit_and, Bool, not, ◌||◌, List, [], ◌∷◌, ◌==◌, ltb,
  if◌then◌else◌,
}
use ai_firewall.Wire.{UdpFlow, UdpFlow6, udp_flow_ttl_ns}
use ai_firewall.Kernel.Interface.{Headers, Bpf, EtherType, ipv4, ipv6, other}
use ai_firewall.Kernel.Maps.{Maps}
use ai_firewall.Kernel.Ingress.{any4, any6}

-- `dst[0]`
abbrev first_byte : List ℕ → ℕ
first_byte [] = 0
first_byte (byte ∷ bytes) = byte

-- The key under which a flow out is recorded: one that many may answer has no remote end.
unfoldable pub egress_key4 : Bool → ℕ → ℕ → ℕ → UdpFlow
egress_key4 to_everyone dst local_port remote_port =
    if to_everyone || dst / 2 ^ 28 == 0xe || dst == 2 ^ 32 - 1
    then any4 local_port
    else record { remote_ip = dst; local_port = local_port; remote_port = remote_port }

unfoldable pub egress_key6 : Bool → List ℕ → ℕ → ℕ → UdpFlow6
egress_key6 to_everyone dst local_port remote_port =
    if to_everyone || first_byte dst == 0xff
    then any6 local_port
    else record { remote_ip = dst; local_port = local_port; remote_port = remote_port }

module _ (h : Headers) (b : Bpf) where
  open b use {Trie}

  egress4 : Maps Trie → List ℕ → Bool → ℕ → Maps Trie
  egress4 m p to_everyone expiry =
      let ip = h.eth_len in
      let ihl = bit_and (h.ip4_ihl p ip) 0x0f * 4 in
      let l4 = h.eth_len + ihl in
      if not (b.load p ip h.ipv4_len)
      then m
      else if not (h.ip4_proto p ip == h.ipproto_udp)
      then m
      else if ltb ihl h.ipv4_len
      then m
      else if not (b.load p l4 h.udp_len)
      then m
      else record m {
        udp_flows =
            b.flow_insert m.udp_flows
              (egress_key4 to_everyone (h.ip4_dst p ip) (h.udp_source p l4) (h.udp_dest p l4))
              expiry;
      }

  egress6 : Maps Trie → List ℕ → Bool → ℕ → Maps Trie
  egress6 m p to_everyone expiry =
      let ip = h.eth_len in
      let l4 = h.eth_len + h.ipv6_len in
      if not (b.load p ip h.ipv6_len)
      then m
      else if not (h.ip6_next_hdr p ip == h.ipproto_udp)
      then m
      else if not (b.load p l4 h.udp_len)
      then m
      else record m {
        udp_flows6 =
            b.flow6_insert m.udp_flows6
              (egress_key6 to_everyone (h.ip6_dst p ip) (h.udp_source p l4) (h.udp_dest p l4))
              expiry;
      }

  record_flow : EtherType → Maps Trie → List ℕ → Bool → ℕ → Maps Trie
  unfolding egress4 egress6
  record_flow ipv4 m p to_everyone expiry = egress4 m p to_everyone expiry
  record_flow ipv6 m p to_everyone expiry = egress6 m p to_everyone expiry
  record_flow other m p to_everyone expiry = m

  unfoldable pub try_egress : Maps Trie → List ℕ → ℕ → Maps Trie
  unfolding record_flow
  try_egress m p now =
      let to_everyone = not (bit_and (h.eth_dst0 p 0) 1 == 0) in
      if b.load p 0 h.eth_len
      then record_flow (h.ether_type p 0) m p to_everyone ((now + udp_flow_ttl_ns) % 2 ^ 64)
      else m
