-- ===== src/Kernel/Ingress/Replies.antt =====
-- A UDP datagram and its answer: the egress program and the XDP program of
-- ai-firewall-ebpf/src/main.rs together.
use ai_firewall.Prelude.{
  ℕ, ◌+◌, ◌-◌, ◌*◌, ◌/◌, ◌||◌, ◌%◌, ◌^◌, ◌≤◌, ◌<◌, bit_and, not, ◌≡◌, ◌≢◌, ◌⊎◌, inl, inr, Bool,
  true, false, some, List, [], length, is_some, ◌==◌, arith, Bool-cases,
}
use ai_firewall.Wire.{UdpFlow, udp_flow_ttl_ns, proto_tcp, proto_udp, family_v4}
use ai_firewall.Kernel.Interface.{Headers, Bpf, Env, ipv4}
use ai_firewall.Kernel.Maps.{Maps, xdp_pass, live, ipproto_icmp}
use ai_firewall.Kernel.Packet.{Flow, Source, parse_l4}
use ai_firewall.Kernel.Policy.{be32, policy, decide}
use ai_firewall.Kernel.Ingress.{exact4, any4, reply4, try_ai_firewall, ai_firewall_xdp}
use ai_firewall.Kernel.Egress.{egress_key4, try_egress}

module _ (b : Bpf) where
  open b use {Trie}

  answer_passes :
      (m : Maps Trie) (src : Source) (flow : Flow) (e reply : Bool) (env : Env)
      → flow.proto ≢ proto_tcp
      → reply ≡ true
      → (policy b m src flow e reply env).1 ≡ xdp_pass
  unfolding policy decide
  answer_passes m src flow e reply env udp seen = ground arith

module _ (h : Headers) (b : Bpf) where
  open b use {Trie}

  abbrev pub ihl4 : List ℕ → ℕ
  ihl4 p = bit_and (h.ip4_ihl p h.eth_len) 0x0f * 4

  abbrev pub l4_of : List ℕ → ℕ
  l4_of p = h.eth_len + ihl4 p

  abbrev pub multicast : List ℕ → Bool
  multicast p = not (bit_and (h.eth_dst0 p 0) 1 == 0)

  -- A whole UDP datagram over IPv4, as the egress program reads it.
  pub record SentUdp4 (p : List ℕ) : Type 0 where
    pub eth : b.load p 0 h.eth_len ≡ true
    pub is_ip4 : h.ether_type p 0 ≡ ipv4
    pub ip : b.load p h.eth_len h.ipv4_len ≡ true
    pub is_udp : h.ip4_proto p h.eth_len ≡ h.ipproto_udp
    pub options : h.ipv4_len ≤ ihl4 p
    pub udp : b.load p (l4_of p) h.udp_len ≡ true

  -- A whole UDP datagram over IPv4 that is no later fragment, as the XDP program reads it, from a
  -- source that is neither banned nor in a feed.
  pub record ArrivedUdp4 (m : Maps Trie) (env : Env) (p : List ℕ) : Type 0 where
    pub ip : h.eth_len + h.ipv4_len ≤ length p
    pub is_ip4 : h.ether_type p 0 ≡ ipv4
    pub welcome : live env.at_ban (m.blocklist (h.ip4_src p h.eth_len)) ≡ false
    pub unlisted : is_some (b.trie_get m.feeds 32 (be32 (h.ip4_src p h.eth_len) [])) ≡ false
    pub whole : bit_and (h.ip4_frag_off p h.eth_len) 0x1fff ≡ 0
    pub options : h.ipv4_len ≤ ihl4 p
    pub is_udp : h.ip4_proto p h.eth_len ≡ h.ipproto_udp
    pub udp : l4_of p + h.udp_len ≤ length p

  abbrev pub flow4 : List ℕ → Flow
  flow4 p = record {
    proto = proto_udp;
    src_port = h.udp_source p (l4_of p);
    dst_port = h.udp_dest p (l4_of p);
    tcp_flags = 0;
    payload_len = (length p - (l4_of p + h.udp_len)) % 2 ^ 16;
  }

  abbrev pub key4 : List ℕ → UdpFlow
  key4 p =
      egress_key4 (multicast p) (h.ip4_dst p h.eth_len) (h.udp_source p (l4_of p))
        (h.udp_dest p (l4_of p))

  sent :
      (m : Maps Trie) (p : List ℕ) (now : ℕ)
      → SentUdp4 p
      → now + udp_flow_ttl_ns < 2 ^ 64
      → try_egress h b m p now
        ≡ record m { udp_flows = b.flow_insert m.udp_flows (key4 p) (now + udp_flow_ttl_ns) }
  unfolding try_egress
  sent m p now s t64 =
      let e : (now + udp_flow_ttl_ns) % 2 ^ 64 ≡ now + udp_flow_ttl_ns = omega arith in ground arith

  parsed :
      (m : Maps Trie) (env : Env) (p : List ℕ)
      → ArrivedUdp4 m env p
      → h.ipproto_udp ≢ h.ipproto_tcp
      → parse_l4 h p (h.ip4_proto p h.eth_len) (l4_of p) (length p) ≡ some (flow4 p)
  unfolding parse_l4
  parsed m env p a tcp = ground arith

  arrived :
      (m : Maps Trie) (env : Env) (p : List ℕ)
      → ArrivedUdp4 m env p
      → h.ipproto_udp ≢ h.ipproto_tcp
      → h.ipproto_udp ≢ ipproto_icmp
      → reply4 h b m (h.ip4_src p h.eth_len) (flow4 p) env ≡ true
      → (ai_firewall_xdp h b m p env).1 ≡ xdp_pass
  unfolding ai_firewall_xdp try_ai_firewall
  arrived m env p a tcp icmp seen = ground (
    arith,
    parsed m env p a tcp,
    answer_passes b m (record { family = family_v4; v4 = h.ip4_src p h.eth_len; v6 = 0 }) (flow4 p)
        (multicast p) (reply4 h b m (h.ip4_src p h.eth_len) (flow4 p) env) env (omega arith) seen,
  )

  -- The datagram went to a group or to everyone on the network.
  abbrev pub to_many : List ℕ → Bool
  to_many p =
      let dst = h.ip4_dst p h.eth_len in multicast p || dst / 2 ^ 28 == 0xe || dst == 2 ^ 32 - 1

  key4_many : (p : List ℕ) → to_many p ≡ true → key4 p ≡ any4 (h.udp_source p (l4_of p))
  unfolding egress_key4
  key4_many p many = rw many

  key4_one :
      (p : List ℕ)
      → to_many p ≡ false
      → key4 p ≡ record {
        remote_ip = h.ip4_dst p h.eth_len;
        local_port = h.udp_source p (l4_of p);
        remote_port = h.udp_dest p (l4_of p);
      }
  unfolding egress_key4
  key4_one p one = rw one

  live_before : (now e : ℕ) → now < e → live now (some e) ≡ true
  unfolding live
  live_before now e before = ground arith

  recorded :
      (m : Maps Trie) (p q : List ℕ) (env : Env) (expiry : ℕ)
      → m.udp_flows (key4 p) ≡ some expiry
      → env.at_exact < expiry
      → env.at_any < expiry
      → h.udp_dest q (l4_of q) ≡ h.udp_source p (l4_of p)
      → (to_many p ≡ true)
        ⊎ ((h.ip4_src q h.eth_len ≡ h.ip4_dst p h.eth_len)
            × (h.udp_source q (l4_of q) ≡ h.udp_dest p (l4_of p)))
      → reply4 h b m (h.ip4_src q h.eth_len) (flow4 q) env ≡ true
  unfolding reply4
  recorded m p q env expiry kept exact any port from = elim (Bool-cases (to_many p)) [
    | inl many ↦
        let at : m.udp_flows (any4 (h.udp_dest q (l4_of q))) ≡ some expiry =
          rw (port, ← key4_many p many) kept in
        rw (at, live_before env.at_any expiry any) (ground arith)
    | inr one ↦
        let at : m.udp_flows (exact4 (h.ip4_src q h.eth_len) (flow4 q)) ≡ some expiry = elim from [
          | inl many ↦ absurd (ground arith)
          | inr (ip, remote) ↦ rw (ip, port, remote, ← key4_one p one) kept
        ] in
        rw (at, live_before env.at_exact expiry exact)
  ]

  -- UDP replies over IPv4 get in, strict or not, enforced or not: let a datagram go out at `now`,
  -- and let another come in before the flow's three minutes have passed, from a source that is
  -- neither banned nor in a feed, to the port that the first left from. If the first went to a group
  -- or to everyone, or the second comes from the address and port that the first went to, then the
  -- filter lets it through. Assumed: the insertion into the kernel's LRU map succeeds, the clock
  -- does not wrap, and the protocol number of UDP is neither that of TCP nor that of ICMP.
  pub answer_gets_in :
      (m : Maps Trie) (p q : List ℕ) (now : ℕ) (env : Env)
      → ((k : UdpFlow) (e : ℕ) → b.flow_insert m.udp_flows k e k ≡ some e)
      → h.ipproto_udp ≢ h.ipproto_tcp
      → h.ipproto_udp ≢ ipproto_icmp
      → SentUdp4 p
      → now + udp_flow_ttl_ns < 2 ^ 64
      → ArrivedUdp4 m env q
      → env.at_exact < now + udp_flow_ttl_ns
      → env.at_any < now + udp_flow_ttl_ns
      → h.udp_dest q (l4_of q) ≡ h.udp_source p (l4_of p)
      → (to_many p ≡ true)
        ⊎ ((h.ip4_src q h.eth_len ≡ h.ip4_dst p h.eth_len)
            × (h.udp_source q (l4_of q) ≡ h.udp_dest p (l4_of p)))
      → (ai_firewall_xdp h b (try_egress h b m p now) q env).1 ≡ xdp_pass
  answer_gets_in m p q now env inserted tcp icmp out t64 a exact any port from =
      let expiry : ℕ = now + udp_flow_ttl_ns in
      let m' : Maps Trie = record m { udp_flows = b.flow_insert m.udp_flows (key4 p) expiry } in
      let a' : ArrivedUdp4 m' env q = record {
        ip = a.ip;
        is_ip4 = a.is_ip4;
        welcome = a.welcome;
        unlisted = a.unlisted;
        whole = a.whole;
        options = a.options;
        is_udp = a.is_udp;
        udp = a.udp;
      } in
      rw (sent m p now out t64) (
        arrived m' env q a' tcp icmp
          (recorded m' p q env expiry (inserted (key4 p) expiry) exact any port from))
