-- ===== src/Kernel/Ingress/Bans.antt =====
-- Bans in force in the XDP program (ai-firewall-ebpf/src/main.rs).
use ai_firewall.Prelude.{ℕ, ◌+◌, ◌≤◌, ◌≡◌, true, List, length, ◌⊎◌, inl, inr, arith}
use ai_firewall.Wire.{stat_drop_blocklist}
use ai_firewall.Kernel.Interface.{Headers, Bpf, Env, ipv4, ipv6}
use ai_firewall.Kernel.Maps.{Maps, xdp_drop, bump, live}
use ai_firewall.Kernel.Ingress.{prefix_of, try_ai_firewall, ai_firewall_xdp}

module _ (h : Headers) (b : Bpf) where
  open b use {Trie}

  -- The frame has a whole IPv4 (IPv6) header.
  abbrev pub Ip4Frame : List ℕ → Type 0
  Ip4Frame p = (h.eth_len + h.ipv4_len ≤ length p) × (h.ether_type p 0 ≡ ipv4)

  abbrev pub Ip6Frame : List ℕ → Type 0
  Ip6Frame p = (h.eth_len + h.ipv6_len ≤ length p) × (h.ether_type p 0 ≡ ipv6)

  -- While a ban on its source is in force, a frame with a whole IP header is dropped, whatever else
  -- it holds: for IPv4 a ban on its source address, for IPv6 a ban on the /64 of its source. The
  -- drop is counted as one by the blocklist, and nothing else changes.
  pub banned_dropped :
      (m : Maps Trie) (p : List ℕ) (env : Env)
      → (Ip4Frame p × (live env.at_ban (m.blocklist (h.ip4_src p h.eth_len)) ≡ true))
        ⊎ (Ip6Frame p × (live env.at_ban (m.blocklist6 (prefix_of (h.ip6_src p h.eth_len))) ≡ true))
      → ai_firewall_xdp h b m p env ≡ (bump stat_drop_blocklist m, xdp_drop)
  unfolding ai_firewall_xdp try_ai_firewall
  banned_dropped m p env (inl ((fits, is4), banned)) = ground arith
  banned_dropped m p env (inr ((fits, is6), banned)) = ground arith
