-- ===== src/Kernel/Tests.antt =====
-- The theorems on ai-firewall-ebpf/src/main.rs at concrete frames.
use ai_firewall.Prelude.{
  true, none, ◌==◌, is_some, if◌then◌else◌, ℕ, ◌+◌, ◌*◌, ◌≡◌, ◌⊎◌, ◌↔◌, inl, inr, refl, false,
  Option, some, [], ◌∷◌, ==_iff, ◌||◌, update, nat_eq, arith,
}
use ai_firewall.Wire.{
  UdpFlow, RateState, is_syn, is_null_scan, is_xmas_scan, is_fin_scan, rate_pack, stat_passed,
  stat_drop_blocklist, cfg_enforce,
}
use ai_firewall.Kernel.Maps.{Maps, xdp_drop, xdp_pass, bump, read_config, live, port_open}
use ai_firewall.Kernel.Packet.{Flow, Source}
use ai_firewall.Kernel.Policy.{policy, decide, odd, opener, event_of, over_rate}
use ai_firewall.Kernel.Policy.Flags.{detector_reads_flags}
use ai_firewall.Kernel.Policy.Verdict.{Admits, policy-Admits}
use ai_firewall.Kernel.Policy.Frame.{stat, policy_frame}
use ai_firewall.Kernel.Policy.RateLimit.{Within, let_through, let_through-min}
use ai_firewall.Kernel.Ingress.{ai_firewall_xdp}
use ai_firewall.Kernel.Ingress.Writes.{OnlyLogs, xdp-OnlyLogs}
use ai_firewall.Kernel.Ingress.Accounting.{HasRoom, dropped, as_pass, as_drop, xdp_counts_once}
use ai_firewall.Kernel.Ingress.Bans.{banned_dropped}
use ai_firewall.Kernel.Ingress.Expired.{swept, in_force, xdp-swept}
use ai_firewall.Kernel.Ingress.Replies.{SentUdp4, ArrivedUdp4, answer_gets_in}
use ai_firewall.Kernel.Egress.{try_egress}
use ai_firewall.Kernel.Sample.{headers, bpf, maps, env, question, answer, from_banned}

abbrev somebody : Source
somebody = record { family = 4; v4 = 0x09090909; v6 = 0 }

-- A connection attempt, a scan and a datagram.
abbrev to_ssh : Flow
to_ssh = record { proto = 6; src_port = 4000; dst_port = 22; tcp_flags = 2; payload_len = 0 }

abbrev null_scan : Flow
null_scan = record { proto = 6; src_port = 4000; dst_port = 80; tcp_flags = 0; payload_len = 0 }

to_ssh_admitted : (policy bpf maps somebody to_ssh false false env).1 ≡ xdp_pass
unfolding policy decide over_rate read_config port_open odd opener
to_ssh_admitted = refl

policy-Admits_example :
    ((policy bpf maps somebody to_ssh false false env).1 ≡ xdp_pass)
    ↔ ((read_config maps cfg_enforce ≡ 0) ⊎ Admits bpf maps somebody to_ssh false env.at_rate)
policy-Admits_example = policy-Admits bpf maps somebody to_ssh false false env (omega arith)

detector_reads_flags_example :
    let ev = event_of somebody null_scan false in
    ((is_null_scan ev || is_xmas_scan ev || is_fin_scan ev) ≡ odd 0) × (is_syn ev ≡ opener 0)
detector_reads_flags_example = detector_reads_flags somebody null_scan false refl (omega arith)

policy_frame_example :
    let m' = (policy bpf maps somebody null_scan false false env).0 in
    m' ≡ record maps { events = m'.events; rate_state = m'.rate_state; stats = m'.stats }
policy_frame_example = policy_frame bpf maps somebody null_scan false false env

update_same : (m : ℕ → Option RateState) (st : RateState) (k : ℕ) → update m k st k ≡ some st
update_same m st k = ground (arith, ==_iff k k)

within : Within bpf 1000 (30 * 1_000_000_000) (1001 ∷ 1002 ∷ 1003 ∷ [])
within = (
  omega arith,
  omega arith,
  omega arith,
  (omega arith, omega arith, omega arith, (omega arith, omega arith, omega arith, tt)),
)

let_through-min_example : let_through bpf maps somebody 22 (1000 ∷ 1001 ∷ 1002 ∷ 1003 ∷ []) ≡ 3
unfolding rate_pack
let_through-min_example =
    let_through-min bpf maps somebody 22 3 30 1000 (1001 ∷ 1002 ∷ 1003 ∷ [])
      (update_same maps.rate_state) refl refl (omega arith) (omega arith) (inl refl) (omega arith)
      within (omega arith)

xdp-OnlyLogs_example : OnlyLogs headers bpf maps (ai_firewall_xdp headers bpf maps question env).0
xdp-OnlyLogs_example = xdp-OnlyLogs headers bpf maps question env

zero_counters : HasRoom maps
zero_counters = record {
  passes = (0, refl, omega arith);
  banned = (0, refl, omega arith);
  refused = (0, refl, omega arith);
  lost = (0, refl, omega arith);
  listed = (0, refl, omega arith);
}

xdp_counts_once_example :
    let (m', action) = ai_firewall_xdp headers bpf maps from_banned env in
    (stat m' stat_passed ≡ stat maps stat_passed + as_pass action)
    × (dropped m' ≡ dropped maps + as_drop action)
xdp_counts_once_example = xdp_counts_once headers bpf maps from_banned env zero_counters

banned_dropped_example :
    ai_firewall_xdp headers bpf maps from_banned env ≡ (bump stat_drop_blocklist maps, xdp_drop)
unfolding live
banned_dropped_example =
    banned_dropped headers bpf maps from_banned env (inl ((omega arith, refl), refl))

-- 0x0a000001 is banned for ever, 0x0a000002 up to the time at which the filter looks.
abbrev two_bans : Maps bpf.Trie
two_bans = record maps {
  blocklist =
      λ k. if k == 0x0a000001 then some 0 else if k == 0x0a000002 then some env.at_ban else none;
}

one_left :
    (live env.at_ban (two_bans.blocklist 0x0a000001) ≡ true)
    × (live env.at_ban (two_bans.blocklist 0x0a000002) ≡ false)
unfolding live
one_left = (refl, refl)

xdp-swept_example :
    (ai_firewall_xdp headers bpf (swept env.at_ban two_bans) question env ≡ (
      let (m', action) = ai_firewall_xdp headers bpf two_bans question env in
      (swept env.at_ban m', action)))
    × ((k : ℕ)
        → live env.at_ban (two_bans.blocklist k)
          ≡ is_some (in_force env.at_ban two_bans.blocklist k))
    × ((k : ℕ)
        → live env.at_ban (two_bans.blocklist6 k)
          ≡ is_some (in_force env.at_ban two_bans.blocklist6 k))
xdp-swept_example = xdp-swept headers bpf two_bans question env

inserted : (m : UdpFlow → Option ℕ) (k : UdpFlow) (e : ℕ) → bpf.flow_insert m k e k ≡ some e
inserted m k e = ground (
  arith,
  ==_iff k.remote_ip k.remote_ip,
  ==_iff k.local_port k.local_port,
  ==_iff k.remote_port k.remote_port,
)

question_sent : SentUdp4 headers bpf question
question_sent = record {
  eth = refl;
  is_ip4 = refl;
  ip = refl;
  is_udp = refl;
  options = omega arith;
  udp = refl;
}

answer_arrived : ArrivedUdp4 headers bpf maps env answer
unfolding live
answer_arrived = record {
  ip = omega arith;
  is_ip4 = refl;
  welcome = refl;
  unlisted = refl;
  whole = refl;
  options = omega arith;
  is_udp = refl;
  udp = omega arith;
}

answer_gets_in_example :
    (ai_firewall_xdp headers bpf (try_egress headers bpf maps question 100) answer env).1 ≡ xdp_pass
answer_gets_in_example =
    answer_gets_in headers bpf maps question answer 100 env (inserted maps.udp_flows) (omega arith)
      (omega arith) question_sent (omega arith) answer_arrived (omega arith) (omega arith) refl
      (inr (refl, refl))
