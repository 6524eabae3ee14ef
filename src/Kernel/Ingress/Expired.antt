-- ===== src/Kernel/Ingress/Expired.antt =====
-- Expired bans in the XDP program (ai-firewall-ebpf/src/main.rs), swept out of the maps or not.
use ai_firewall.Prelude.{
  ℕ, ◌+◌, ◌*◌, bit_and, not, ◌≡◌, refl, Bool, Option, none, some, is_some, List, KernelMap, length,
  leb, ◌==◌, if◌then◌else◌, arith,
}
use ai_firewall.Kernel.Interface.{Headers, Bpf, Env, EtherType, ipv4, ipv6, other}
use ai_firewall.Kernel.Maps.{
  Maps, XdpAction, bump, read_config, live, icmp_echo_request, icmpv6_echo_request,
}
use ai_firewall.Kernel.Packet.{Flow, Source, icmp_verdict, parse_l4}
use ai_firewall.Kernel.Policy.{policy, decide, over_rate}
use ai_firewall.Kernel.Ingress.{
  reply4, reply6, prefix_of, judge4, judge6, transport4, transport6, by_ether_type, try_ai_firewall,
  ai_firewall_xdp,
}
use ai_firewall.Kernel.Ingress.Writes.{frame-OnlyLogs}

module _ (b : Bpf) (x y : KernelMap ℕ ℕ) where
  open b use {Trie}

  -- The maps with other ban maps in their place.
  abbrev bans_at : Maps Trie → Maps Trie
  bans_at m = record m { blocklist = x; blocklist6 = y }

  decide-bans_at :
      (m : Maps Trie) (src : Source) (flow : Flow) (reply : Bool) (t : ℕ)
      → decide b (bans_at m) src flow reply t
        ≡ (let (m', i, a) = decide b m src flow reply t in (bans_at m', i, a))
  unfolding decide over_rate read_config
  decide-bans_at m src flow reply t = ground arith

  policy-bans_at :
      (m : Maps Trie) (src : Source) (flow : Flow) (e reply : Bool) (env : Env)
      → policy b (bans_at m) src flow e reply env
        ≡ (let (m', a) = policy b m src flow e reply env in (bans_at m', a))
  unfolding policy bump read_config
  policy-bans_at m src flow e reply env =
      rw (decide-bans_at m src flow reply env.at_rate, policy) (ground arith)

module _ (h : Headers) (b : Bpf) (x y : KernelMap ℕ ℕ) where
  open b use {Trie}

  abbrev lift : Maps Trie × XdpAction → Maps Trie × XdpAction
  lift r = (bans_at b x y r.0, r.1)

  icmp-bans_at :
      (m : Maps Trie) (p : List ℕ) (l4 end echo : ℕ)
      → icmp_verdict h (bans_at b x y m) p l4 end echo ≡ lift (icmp_verdict h m p l4 end echo)
  unfolding icmp_verdict bump read_config
  icmp-bans_at m p l4 end echo = ground arith

  judge4-bans_at :
      (m : Maps Trie) (ip : ℕ) (e : Bool) (env : Env) (o : Option Flow)
      → judge4 h b (bans_at b x y m) ip e env o ≡ lift (judge4 h b m ip e env o)
  unfolding judge4 reply4
  judge4-bans_at m ip e env none = refl
  judge4-bans_at m ip e env (some flow) = policy-bans_at b x y m _ flow e _ env

  judge6-bans_at :
      (m : Maps Trie) (ip : List ℕ) (e : Bool) (env : Env) (o : Option Flow)
      → judge6 h b (bans_at b x y m) ip e env o ≡ lift (judge6 h b m ip e env o)
  unfolding judge6 reply6
  judge6-bans_at m ip e env none = refl
  judge6-bans_at m ip e env (some flow) = policy-bans_at b x y m _ flow e _ env

  transport4-bans_at :
      (m : Maps Trie) (p : List ℕ) (ip : ℕ) (e : Bool) (env : Env)
      → transport4 h b (bans_at b x y m) p ip e env ≡ lift (transport4 h b m p ip e env)
  unfolding transport4
  transport4-bans_at m p ip e env =
      let l4 = ip + bit_and (h.ip4_ihl p ip) 0x0f * 4 in
      ground (
        arith,
        icmp-bans_at m p l4 (length p) icmp_echo_request,
        judge4-bans_at m (h.ip4_src p ip) e env (parse_l4 h p (h.ip4_proto p ip) l4 (length p)),
      )

  transport6-bans_at :
      (m : Maps Trie) (p : List ℕ) (ip : ℕ) (e : Bool) (env : Env)
      → transport6 h b (bans_at b x y m) p ip e env ≡ lift (transport6 h b m p ip e env)
  unfolding transport6
  transport6-bans_at m p ip e env =
      let l4 = ip + h.ipv6_len in
      ground (
        arith,
        icmp-bans_at m p l4 (length p) icmpv6_echo_request,
        judge6-bans_at m (h.ip6_src p ip) e env (parse_l4 h p (h.ip6_next_hdr p ip) l4 (length p)),
      )

-- What is left of an entry at `now`: 0 stands for a ban without an end; any other ban is over from
-- the time on that it holds.
abbrev not_over : ℕ → Option ℕ → Option ℕ
not_over now none = none
not_over now (some e) = if e == 0 then some e else if leb e now then none else some e

-- A ban map with the bans taken out that are over.
abbrev pub in_force : ℕ → KernelMap ℕ ℕ → KernelMap ℕ ℕ
in_force now m k = not_over now (m k)

-- The maps as a sweep at `now` would leave them.
abbrev pub swept : {Trie : Type 0} → ℕ → Maps Trie → Maps Trie
swept now m = record m {
  blocklist = in_force now m.blocklist;
  blocklist6 = in_force now m.blocklist6;
}

module _ (h : Headers) (b : Bpf) where
  open b use {Trie}

  live-not_over :
      (now : ℕ) (o : Option ℕ)
      → (live now (not_over now o) ≡ live now o) × (live now o ≡ is_some (not_over now o))
  unfolding live
  live-not_over now none = (refl, refl)
  live-not_over now (some e) = (ground arith, ground arith)

  live-in_force :
      (now : ℕ) (m : KernelMap ℕ ℕ) (k : ℕ) → live now (in_force now m k) ≡ live now (m k)
  live-in_force now m k = (live-not_over now (m k)).0

  frame-swept :
      (ty : EtherType) (m : Maps Trie) (p : List ℕ) (e : Bool) (env : Env)
      → by_ether_type h b ty (swept env.at_ban m) p e env ≡ (
          let (m', a) = by_ether_type h b ty m p e env in
          (
            record m' {
              blocklist = in_force env.at_ban m.blocklist;
              blocklist6 = in_force env.at_ban m.blocklist6;
            },
            a,
          ))
  unfolding by_ether_type bump
  frame-swept ipv4 m p e env = ground (
    arith,
    live-in_force env.at_ban m.blocklist (h.ip4_src p h.eth_len),
    transport4-bans_at h b (in_force env.at_ban m.blocklist) (in_force env.at_ban m.blocklist6) m p
        h.eth_len e env,
  )
  frame-swept ipv6 m p e env = ground (
    arith,
    live-in_force env.at_ban m.blocklist6 (prefix_of (h.ip6_src p h.eth_len)),
    transport6-bans_at h b (in_force env.at_ban m.blocklist) (in_force env.at_ban m.blocklist6) m p
        h.eth_len e env,
  )
  frame-swept other m p e env = refl

  -- A ban that is over counts for nothing in the kernel, also while nobody sweeps it out: on the maps
  -- without the bans that are over when the filter looks, it does with any frame what it does on the
  -- maps as they are, and leaves the same maps, again without those bans. An entry of either ban map
  -- bites then (`live`) exactly when it is not over.
  pub xdp-swept :
      (m : Maps Trie) (p : List ℕ) (env : Env)
      → (ai_firewall_xdp h b (swept env.at_ban m) p env
          ≡ (let (m', action) = ai_firewall_xdp h b m p env in (swept env.at_ban m', action)))
        × ((k : ℕ) → live env.at_ban (m.blocklist k) ≡ is_some (in_force env.at_ban m.blocklist k))
        × ((k : ℕ)
            → live env.at_ban (m.blocklist6 k) ≡ is_some (in_force env.at_ban m.blocklist6 k))
  unfolding ai_firewall_xdp try_ai_firewall bump
  xdp-swept m p env =
      let frame = frame-swept (h.ether_type p 0) m p (not (bit_and (h.eth_dst0 p 0) 1 == 0)) env in
      let logs =
        frame-OnlyLogs h b (h.ether_type p 0) m p (not (bit_and (h.eth_dst0 p 0) 1 == 0)) env in
      (
        ground (arith, frame, logs),
        λ k. (live-not_over env.at_ban (m.blocklist k)).1,
        λ k. (live-not_over env.at_ban (m.blocklist6 k)).1,
      )
