-- ===== src/Kernel/Ingress/Writes.antt =====
-- What the XDP program (ai-firewall-ebpf/src/main.rs) writes to the maps.
use ai_firewall.Prelude.{
  ℕ, ◌+◌, ◌*◌, bit_and, not, length, ◌≡◌, refl, Bool, Option, none, some, List, ◌==◌, nat_eq, arith,
}
use ai_firewall.Wire.{}
use ai_firewall.Kernel.Interface.{Headers, Bpf, Env, EtherType, ipv4, ipv6, other}
use ai_firewall.Kernel.Maps.{Maps, bump, icmp_echo_request, icmpv6_echo_request}
use ai_firewall.Kernel.Packet.{Flow, icmp_verdict, parse_l4}
use ai_firewall.Kernel.Policy.Frame.{policy_frame}
use ai_firewall.Kernel.Ingress.{
  judge4, judge6, transport4, transport6, by_ether_type, try_ai_firewall, ai_firewall_xdp,
}

module _ (h : Headers) (b : Bpf) where
  open b use {Trie}

  -- All that the program does to the maps.
  abbrev pub OnlyLogs : Maps Trie → Maps Trie → Type 0
  OnlyLogs m m' = m' ≡ record m { events = m'.events; rate_state = m'.rate_state; stats = m'.stats }

  icmp-OnlyLogs :
      (m : Maps Trie) (p : List ℕ) (l4 end echo : ℕ) → OnlyLogs m (icmp_verdict h m p l4 end echo).0
  unfolding icmp_verdict bump
  icmp-OnlyLogs m p l4 end echo = ground arith

  judge4-OnlyLogs :
      (m : Maps Trie) (ip : ℕ) (e : Bool) (env : Env) (o : Option Flow)
      → OnlyLogs m (judge4 h b m ip e env o).0
  unfolding judge4
  judge4-OnlyLogs m ip e env none = refl
  judge4-OnlyLogs m ip e env (some flow) = policy_frame b m _ flow e _ env

  judge6-OnlyLogs :
      (m : Maps Trie) (ip : List ℕ) (e : Bool) (env : Env) (o : Option Flow)
      → OnlyLogs m (judge6 h b m ip e env o).0
  unfolding judge6
  judge6-OnlyLogs m ip e env none = refl
  judge6-OnlyLogs m ip e env (some flow) = policy_frame b m _ flow e _ env

  transport4-OnlyLogs :
      (m : Maps Trie) (p : List ℕ) (ip : ℕ) (e : Bool) (env : Env)
      → OnlyLogs m (transport4 h b m p ip e env).0
  unfolding transport4
  transport4-OnlyLogs m p ip e env =
      let l4 = ip + bit_and (h.ip4_ihl p ip) 0x0f * 4 in
      ground (
        arith,
        icmp-OnlyLogs m p l4 (length p) icmp_echo_request,
        judge4-OnlyLogs m (h.ip4_src p ip) e env (parse_l4 h p (h.ip4_proto p ip) l4 (length p)),
      )

  transport6-OnlyLogs :
      (m : Maps Trie) (p : List ℕ) (ip : ℕ) (e : Bool) (env : Env)
      → OnlyLogs m (transport6 h b m p ip e env).0
  unfolding transport6
  transport6-OnlyLogs m p ip e env =
      let l4 = ip + h.ipv6_len in
      ground (
        arith,
        icmp-OnlyLogs m p l4 (length p) icmpv6_echo_request,
        judge6-OnlyLogs m (h.ip6_src p ip) e env (parse_l4 h p (h.ip6_next_hdr p ip) l4 (length p)),
      )

  pub frame-OnlyLogs :
      (ty : EtherType) (m : Maps Trie) (p : List ℕ) (e : Bool) (env : Env)
      → OnlyLogs m (by_ether_type h b ty m p e env).0
  unfolding by_ether_type bump
  frame-OnlyLogs ipv4 m p e env = ground (arith, transport4-OnlyLogs m p h.eth_len e env)
  frame-OnlyLogs ipv6 m p e env = ground (arith, transport6-OnlyLogs m p h.eth_len e env)
  frame-OnlyLogs other m p e env = refl

  -- Whatever frame comes in, the XDP program changes no ban, no recorded flow, no port table, no
  -- rule, no feed and no setting: of the maps it writes the events, the rate windows and the
  -- counters only.
  pub xdp-OnlyLogs :
      (m : Maps Trie) (p : List ℕ) (env : Env) → OnlyLogs m (ai_firewall_xdp h b m p env).0
  unfolding ai_firewall_xdp bump try_ai_firewall
  xdp-OnlyLogs m p env =
      ground
        (arith, frame-OnlyLogs (h.ether_type p 0) m p (not (bit_and (h.eth_dst0 p 0) 1 == 0)) env)
