-- ===== src/Kernel/Policy/Frame.antt =====
-- What `policy` (ai-firewall-ebpf/src/main.rs) leaves alone, and what it counts.
use ai_firewall.Prelude.{
  ℕ, ◌+◌, ◌<◌, ◌^◌, ◌≡◌, ◌≢◌, Bool, some, ◌==◌, nat_eq, unwrap_or, if◌then◌else◌, arith,
}
use ai_firewall.Wire.{stat_passed, stat_drop_policy, stat_events_lost}
use ai_firewall.Kernel.Interface.{Bpf, Env}
use ai_firewall.Kernel.Maps.{Maps, xdp_drop, xdp_pass, bump}
use ai_firewall.Kernel.Packet.{Flow, Source}
use ai_firewall.Kernel.Policy.{policy, decide, over_rate}

-- The counter in a slot, and that it is there and can go up by one.
abbrev pub stat : {Trie : Type 0} → Maps Trie → ℕ → ℕ
stat m slot = unwrap_or (m.stats slot) 0

abbrev pub Counts : {Trie : Type 0} → Maps Trie → ℕ → Type 0
Counts m slot = (c : ℕ) × (m.stats slot ≡ some c) × (c + 1 < 2 ^ 64)

module _ {Trie : Type 0} where
  pub stat-bump :
      (m : Maps Trie) (slot i : ℕ)
      → Counts m slot
      → stat (bump slot m) i ≡ (if slot == i then stat m i + 1 else stat m i)
  unfolding bump
  stat-bump m slot i (c, present, room) = ground arith

  pub bump-stats :
      (m : Maps Trie) (slot : ℕ) → bump slot m ≡ record m { stats = (bump slot m).stats }
  unfolding bump
  bump-stats m slot = ground arith

module _ (b : Bpf) where
  open b use {Trie}

  decide-rate_state :
      (m : Maps Trie) (src : Source) (flow : Flow) (reply : Bool) (t : ℕ)
      → (decide b m src flow reply t).0
        ≡ record m { rate_state = (decide b m src flow reply t).0.rate_state }
  unfolding decide over_rate
  decide-rate_state m src flow reply t = ground arith

  -- Of the maps `policy` touches the events, the counters and the rate windows alone.
  pub policy_frame :
      (m : Maps Trie) (src : Source) (flow : Flow) (to_everyone reply : Bool) (env : Env)
      → let m' = (policy b m src flow to_everyone reply env).0 in
        m' ≡ record m { events = m'.events; rate_state = m'.rate_state; stats = m'.stats }
  unfolding policy bump
  policy_frame m src flow to_everyone reply env =
      ground (arith, decide-rate_state m src flow reply env.at_rate)

  pub policy-Counts :
      (m : Maps Trie) (src : Source) (flow : Flow) (to_everyone reply : Bool) (env : Env) (i : ℕ)
      → Counts m stat_events_lost
      → Counts m stat_drop_policy
      → i ≢ stat_events_lost
      → let (m', action) = policy b m src flow to_everyone reply env in
        stat m' i
        ≡ stat m i
          + elim action [ xdp_drop ↦ if stat_drop_policy == i then 1 else 0 | xdp_pass ↦ 0 ]
  unfolding policy bump
  policy-Counts m src flow to_everyone reply env i (l, lost, lroom) (d, dropped, droom) other =
      ground (arith, decide-rate_state m src flow reply env.at_rate)

  pub policy_passed :
      (m : Maps Trie) (src : Source) (flow : Flow) (to_everyone reply : Bool) (env : Env)
      → (policy b m src flow to_everyone reply env).0.stats stat_passed ≡ m.stats stat_passed
  unfolding policy bump
  policy_passed m src flow to_everyone reply env =
      ground (arith, decide-rate_state m src flow reply env.at_rate)
