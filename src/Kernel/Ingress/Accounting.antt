-- ===== src/Kernel/Ingress/Accounting.antt =====
-- The counters of the XDP program (ai-firewall-ebpf/src/main.rs).
use ai_firewall.Prelude.{
  ℕ, ◌+◌, ◌*◌, bit_and, not, length, ◌≡◌, refl, Bool, Option, none, some, List, ◌==◌, nat_eq, arith,
}
use ai_firewall.Wire.{
  stat_passed, stat_drop_blocklist, stat_drop_policy, stat_events_lost, stat_drop_feed,
}
use ai_firewall.Kernel.Interface.{Headers, Bpf, Env, EtherType, ipv4, ipv6, other}
use ai_firewall.Kernel.Maps.{
  Maps, XdpAction, xdp_drop, xdp_pass, bump, icmp_echo_request, icmpv6_echo_request,
}
use ai_firewall.Kernel.Packet.{Flow, Source, icmp_verdict, parse_l4}
use ai_firewall.Kernel.Policy.{policy}
use ai_firewall.Kernel.Policy.Frame.{stat, Counts, policy-Counts, policy_passed}
use ai_firewall.Kernel.Ingress.{
  judge4, judge6, transport4, transport6, by_ether_type, try_ai_firewall, ai_firewall_xdp,
}

-- The counters are there, and none is about to wrap.
pub record HasRoom {Trie : Type 0} (m : Maps Trie) : Type 0 where
  pub passes : Counts m stat_passed
  pub banned : Counts m stat_drop_blocklist
  pub refused : Counts m stat_drop_policy
  pub lost : Counts m stat_events_lost
  pub listed : Counts m stat_drop_feed

-- All dropped packets, for whatever reason.
abbrev pub dropped : {Trie : Type 0} → Maps Trie → ℕ
dropped m = stat m stat_drop_blocklist + stat m stat_drop_policy + stat m stat_drop_feed

abbrev pub as_drop : XdpAction → ℕ
as_drop xdp_drop = 1
as_drop xdp_pass = 0

abbrev pub as_pass : XdpAction → ℕ
as_pass xdp_drop = 0
as_pass xdp_pass = 1

module _ (h : Headers) (b : Bpf) where
  open b use {Trie}

  -- Up to the last step a drop is counted and a pass is not.
  abbrev Tallies : Maps Trie → Maps Trie × XdpAction → Type 0
  Tallies m r =
      (r.0.stats stat_passed ≡ m.stats stat_passed) × (dropped r.0 ≡ dropped m + as_drop r.1)

  policy-Tallies :
      (m : Maps Trie) (src : Source) (flow : Flow) (e reply : Bool) (env : Env)
      → HasRoom m
      → Tallies m (policy b m src flow e reply env)
  policy-Tallies m src flow e reply env r = (
    policy_passed b m src flow e reply env,
    ground (
      arith,
      policy-Counts b m src flow e reply env stat_drop_blocklist r.lost r.refused (omega arith),
      policy-Counts b m src flow e reply env stat_drop_policy r.lost r.refused (omega arith),
      policy-Counts b m src flow e reply env stat_drop_feed r.lost r.refused (omega arith),
    ),
  )

  icmp-Tallies :
      (m : Maps Trie) (p : List ℕ) (l4 end echo : ℕ)
      → HasRoom m
      → Tallies m (icmp_verdict h m p l4 end echo)
  unfolding icmp_verdict bump
  icmp-Tallies m p l4 end echo r = ground arith

  judge4-Tallies :
      (m : Maps Trie) (ip : ℕ) (e : Bool) (env : Env) (o : Option Flow)
      → HasRoom m
      → Tallies m (judge4 h b m ip e env o)
  unfolding judge4
  judge4-Tallies m ip e env none r = (refl, omega arith)
  judge4-Tallies m ip e env (some flow) r = policy-Tallies m _ flow e _ env r

  judge6-Tallies :
      (m : Maps Trie) (ip : List ℕ) (e : Bool) (env : Env) (o : Option Flow)
      → HasRoom m
      → Tallies m (judge6 h b m ip e env o)
  unfolding judge6
  judge6-Tallies m ip e env none r = (refl, omega arith)
  judge6-Tallies m ip e env (some flow) r = policy-Tallies m _ flow e _ env r

  transport4-Tallies :
      (m : Maps Trie) (p : List ℕ) (ip : ℕ) (e : Bool) (env : Env)
      → HasRoom m
      → Tallies m (transport4 h b m p ip e env)
  unfolding transport4
  transport4-Tallies m p ip e env r =
      let l4 = ip + bit_and (h.ip4_ihl p ip) 0x0f * 4 in
      let icmp = icmp-Tallies m p l4 (length p) icmp_echo_request r in
      let judged =
        judge4-Tallies m (h.ip4_src p ip) e env (parse_l4 h p (h.ip4_proto p ip) l4 (length p)) r in
      (ground arith, ground arith)

  transport6-Tallies :
      (m : Maps Trie) (p : List ℕ) (ip : ℕ) (e : Bool) (env : Env)
      → HasRoom m
      → Tallies m (transport6 h b m p ip e env)
  unfolding transport6
  transport6-Tallies m p ip e env r =
      let l4 = ip + h.ipv6_len in
      let icmp = icmp-Tallies m p l4 (length p) icmpv6_echo_request r in
      let judged =
        judge6-Tallies m (h.ip6_src p ip) e env (parse_l4 h p (h.ip6_next_hdr p ip) l4 (length p))
          r in
      (ground arith, ground arith)

  frame-Tallies :
      (ty : EtherType) (m : Maps Trie) (p : List ℕ) (e : Bool) (env : Env)
      → HasRoom m
      → Tallies m (by_ether_type h b ty m p e env)
  unfolding by_ether_type bump
  frame-Tallies ipv4 m p e env r =
      let below = transport4-Tallies m p h.eth_len e env r in (ground arith, ground arith)
  frame-Tallies ipv6 m p e env r =
      let below = transport6-Tallies m p h.eth_len e env r in (ground arith, ground arith)
  frame-Tallies other m p e env r = (refl, omega arith)

  -- Every frame is counted exactly once, as long as no counter wraps: a frame let through adds one
  -- to the passes and none to the drops, and a dropped frame adds none to the passes and one to the
  -- drops, which are those by the blocklist, by policy and by a feed together.
  pub xdp_counts_once :
      (m : Maps Trie) (p : List ℕ) (env : Env)
      → HasRoom m
      → let (m', action) = ai_firewall_xdp h b m p env in
        (stat m' stat_passed ≡ stat m stat_passed + as_pass action)
        × (dropped m' ≡ dropped m + as_drop action)
  unfolding ai_firewall_xdp bump try_ai_firewall
  xdp_counts_once m p env r =
      let below =
        frame-Tallies (h.ether_type p 0) m p (not (bit_and (h.eth_dst0 p 0) 1 == 0)) env r in
      let (c, present, room) = r.passes in (ground arith, ground arith)
