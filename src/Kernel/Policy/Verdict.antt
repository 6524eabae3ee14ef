-- ===== src/Kernel/Policy/Verdict.antt =====
-- The decision of `policy` (ai-firewall-ebpf/src/main.rs) against a relation that lists the ways in.
use ai_firewall.Prelude.{
  ℕ, ◌≤◌, ◌<◌, ◌≡◌, ◌≢◌, ◌∙◌, ◌==◌, leb, ◌&&◌, ◌⊎◌, ◌↔◌, Bool, true, false, [], KernelMap,
  unwrap_or, is_some, inl, inr, ◌||◌, Bool-cases, arith,
}
use ai_firewall.Wire.{proto_tcp, family_v4, cfg_enforce, cfg_ephemeral_low, cfg_udp_strict}
use ai_firewall.Wire.Flags.{scan_flags, asks}
use ai_firewall.Kernel.Interface.{Bpf, Env}
use ai_firewall.Kernel.Maps.{Maps, xdp_pass, read_config, port_open}
use ai_firewall.Kernel.Packet.{Flow, Source}
use ai_firewall.Kernel.Policy.{
  be16, be32, policy, decide, decide_tcp, decide_udp, over_rate, allowed_from, odd, opener,
}
use ai_firewall.Kernel.Policy.Flags.{odd-scan, opener-asks}

module _ (b : Bpf) where
  open b use {Trie, trie_get}

  -- The port is open to everyone, or a rule opens it to this IPv4 source.
  abbrev pub Opened : KernelMap ℕ ℕ → Trie → Source → ℕ → Type 0
  Opened allow from src port =
      (unwrap_or (allow port) 0 ≢ 0)
      ⊎ ((src.family ≡ family_v4)
          × (is_some (trie_get from 48 (be16 port (be32 src.v4 []))) ≡ true))

  -- The ways in, for a packet seen at time `t`; `reply` says that it answers a recorded flow.
  pub data Admits (m : Maps Trie) (src : Source) (flow : Flow) (reply : Bool) (t : ℕ) : Type 0 where
    continues :
        flow.proto ≡ proto_tcp
        → scan_flags flow.tcp_flags ≡ false
        → asks flow.tcp_flags ≡ false
        → Admits m src flow reply t
    connects :
        flow.proto ≡ proto_tcp
        → scan_flags flow.tcp_flags ≡ false
        → asks flow.tcp_flags ≡ true
        → Opened m.tcp_allow m.allow_from_tcp src flow.dst_port
        → (over_rate b m src flow.dst_port t).1 ≡ false
        → Admits m src flow reply t
    answers : flow.proto ≢ proto_tcp → reply ≡ true → Admits m src flow reply t
    high_port :
        flow.proto ≢ proto_tcp
        → read_config m cfg_udp_strict ≡ 0
        → read_config m cfg_ephemeral_low ≤ flow.dst_port
        → Admits m src flow reply t
    serves :
        flow.proto ≢ proto_tcp
        → Opened m.udp_allow m.allow_from_udp src flow.dst_port
        → Admits m src flow reply t

  opened :
      (allow : KernelMap ℕ ℕ) (from : Trie) (src : Source) (port : ℕ)
      → (port_open allow port || allowed_from b from src port) ≡ true
      → Opened allow from src port
  unfolding port_open allowed_from
  opened allow from src port h = ground arith

  tcp_admitted :
      (m : Maps Trie) (src : Source) (flow : Flow) (reply : Bool) (t : ℕ)
      → flow.tcp_flags < 256
      → flow.proto ≡ proto_tcp
      → (decide_tcp b m src flow t).2 ≡ true
      → Admits m src flow reply t
  unfolding decide_tcp
  tcp_admitted m src flow reply t h tcp e = elim (Bool-cases (scan_flags flow.tcp_flags)) [
    | inl scan ↦ absurd (ground (arith, odd-scan flow.tcp_flags h))
    | inr fair ↦ elim (Bool-cases (asks flow.tcp_flags)) [
      | inl ask ↦
          let is_opener : opener flow.tcp_flags ≡ true = opener-asks flow.tcp_flags h ∙ ask in
          let not_odd : odd flow.tcp_flags ≡ false = odd-scan flow.tcp_flags h ∙ fair in
          connects tcp fair ask
            (opened m.tcp_allow m.allow_from_tcp src flow.dst_port (ground arith)) (ground arith)
      | inr goes ↦ continues tcp fair goes
    ]
  ]

  udp_admitted :
      (m : Maps Trie) (src : Source) (flow : Flow) (reply : Bool) (t : ℕ)
      → flow.proto ≢ proto_tcp
      → (decide_udp b m src flow reply).2 ≡ true
      → Admits m src flow reply t
  unfolding decide_udp
  udp_admitted m src flow reply t udp e = elim (Bool-cases reply) [
    | inl seen ↦ answers udp seen
    | inr unseen ↦
        elim (Bool-cases (
          read_config m cfg_udp_strict == 0
          && leb (read_config m cfg_ephemeral_low) flow.dst_port)) [
            | inl loose ↦ high_port udp (ground arith) (ground arith)
            | inr strict ↦
                serves udp (opened m.udp_allow m.allow_from_udp src flow.dst_port (ground arith))
          ]
  ]

  decide→Admits :
      (m : Maps Trie) (src : Source) (flow : Flow) (reply : Bool) (t : ℕ)
      → flow.tcp_flags < 256
      → (decide b m src flow reply t).2 ≡ true
      → Admits m src flow reply t
  unfolding decide
  decide→Admits m src flow reply t h e = elim (Bool-cases (flow.proto == proto_tcp)) [
    | inl tcp ↦ tcp_admitted m src flow reply t h (ground arith) (rw (tcp, decide) at e)
    | inr udp ↦ udp_admitted m src flow reply t (λ p. ground arith) (rw (udp, decide) at e)
  ]

  Admits→decide :
      (m : Maps Trie) (src : Source) (flow : Flow) (reply : Bool) (t : ℕ)
      → flow.tcp_flags < 256
      → Admits m src flow reply t
      → (decide b m src flow reply t).2 ≡ true
  unfolding decide port_open allowed_from
  Admits→decide m src flow reply t h (continues p s a) =
      ground (arith, odd-scan flow.tcp_flags h, opener-asks flow.tcp_flags h)
  Admits→decide m src flow reply t h (connects p s a o r) =
      ground (arith, odd-scan flow.tcp_flags h, opener-asks flow.tcp_flags h)
  Admits→decide m src flow reply t h (answers p r) = ground arith
  Admits→decide m src flow reply t h (high_port p s r) = ground arith
  Admits→decide m src flow reply t h (serves p o) = ground arith

  decide-config :
      (m : Maps Trie) (src : Source) (flow : Flow) (reply : Bool) (t : ℕ)
      → (decide b m src flow reply t).0.config ≡ m.config
  unfolding decide over_rate
  decide-config m src flow reply t = ground arith

  policy_action :
      (m : Maps Trie) (src : Source) (flow : Flow) (to_everyone reply : Bool) (env : Env)
      → ((policy b m src flow to_everyone reply env).1 ≡ xdp_pass)
        ↔ ((read_config m cfg_enforce ≡ 0) ⊎ ((decide b m src flow reply env.at_rate).2 ≡ true))
  unfolding policy read_config
  policy_action m src flow to_everyone reply env =
      ground (arith, decide-config m src flow reply env.at_rate)

  -- For a packet with a byte of TCP flags, `policy` lets the packet through exactly when the filter
  -- only monitors, or one of the ways of `Admits` is open to it: a TCP segment that is no scan and
  -- opens no connection; a connection to a port that is open to everyone, or by a rule to its
  -- IPv4 source, and within the port's rate; an answer to a recorded UDP flow; without strict UDP,
  -- a datagram to a high port; a datagram to an open UDP port. It drops the packet otherwise.
  pub policy-Admits :
      (m : Maps Trie) (src : Source) (flow : Flow) (to_everyone reply : Bool) (env : Env)
      → flow.tcp_flags < 256
      → (((policy b m src flow to_everyone reply env).1 ≡ xdp_pass)
          ↔ ((read_config m cfg_enforce ≡ 0) ⊎ Admits m src flow reply env.at_rate))
  policy-Admits m src flow to_everyone reply env h = (pass, enter)
    where
      pass :
          (policy b m src flow to_everyone reply env).1 ≡ xdp_pass
          → (read_config m cfg_enforce ≡ 0) ⊎ Admits m src flow reply env.at_rate
      pass e = elim ((policy_action m src flow to_everyone reply env).0 e) [
        | inl off ↦ inl off
        | inr ok ↦ inr (decide→Admits m src flow reply env.at_rate h ok)
      ]

      enter :
          (read_config m cfg_enforce ≡ 0) ⊎ Admits m src flow reply env.at_rate
          → (policy b m src flow to_everyone reply env).1 ≡ xdp_pass
      enter (inl off) = (policy_action m src flow to_everyone reply env).1 (inl off)
      enter (inr way) =
          (policy_action m src flow to_everyone reply env).1
            (inr (Admits→decide m src flow reply env.at_rate h way))
