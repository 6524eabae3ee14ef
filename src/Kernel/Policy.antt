-- ===== src/Kernel/Policy.antt =====
-- ai-firewall-ebpf/src/main.rs: `allowed_from`, `over_rate` and `policy`, the filter's decision on a
-- parsed packet.
pub mod Flags
pub mod Verdict
pub mod Frame
pub mod RateLimit
use ai_firewall.Prelude.{
  ℕ, ◌+◌, ◌-◌, ◌*◌, ◌/◌, ◌%◌, ◌^◌, bit_and, bit_or, Bool, true, false, not, ◌&&◌, ◌||◌, Option,
  none, some, List, [], ◌∷◌, update, nat_eq, unwrap_or, is_some, ◌==◌, ltb, leb, if◌then◌else◌,
}
use ai_firewall.Wire.{
  PacketEvent, RateState, tcp_flag_fin, tcp_flag_syn, tcp_flag_psh, tcp_flag_ack, tcp_flag_urg,
  proto_tcp, verdict_pass, verdict_drop_policy, family_v4, cfg_enforce, cfg_ephemeral_low,
  cfg_udp_strict, stat_drop_policy, stat_events_lost,
}
use ai_firewall.Kernel.Interface.{Bpf, Env}
use ai_firewall.Kernel.Maps.{Maps, XdpAction, xdp_drop, xdp_pass, bump, read_config, port_open}
use ai_firewall.Kernel.Packet.{Flow, Source}

-- `to_be_bytes` of a u16 and of a u32, followed by more bytes.
abbrev pub be16 : ℕ → List ℕ → List ℕ
be16 n rest = (n / 2 ^ 8 % 2 ^ 8) ∷ (n % 2 ^ 8) ∷ rest

abbrev pub be32 : ℕ → List ℕ → List ℕ
be32 n rest = (n / 2 ^ 24 % 2 ^ 8) ∷ (n / 2 ^ 16 % 2 ^ 8) ∷ (n / 2 ^ 8 % 2 ^ 8) ∷ (n % 2 ^ 8) ∷ rest

-- The classes of TCP flags.
unfoldable pub opener : ℕ → Bool
opener f = not (bit_and f tcp_flag_syn == 0) && bit_and f tcp_flag_ack == 0

unfoldable pub odd : ℕ → Bool
odd f =
    let fin_urg_psh = bit_or (bit_or tcp_flag_fin tcp_flag_urg) tcp_flag_psh in
    f == 0
    || bit_and f fin_urg_psh == fin_urg_psh
    || bit_and f (bit_or tcp_flag_fin tcp_flag_ack) == tcp_flag_fin

unfoldable pub rate_key : ℕ → ℕ → ℕ
rate_key v4 port = bit_or (v4 * 2 ^ 16) port

-- A known source: the window is started again, or the count goes up.
unfoldable pub count_again : ℕ → ℕ → ℕ → RateState → RateState × Bool
count_again max window t st =
    if ltb window ((t + 2 ^ 64 - st.window_start) % 2 ^ 64)
    then (record { window_start = t; count = 1 }, false)
    else (let count = (st.count + 1) % 2 ^ 32 in (record st { count = count }, ltb max count))

unfoldable pub event_of : Source → Flow → Bool → PacketEvent
event_of src flow allowed = record {
  src6 = src.v6;
  src_ip = src.v4;
  dst_port = flow.dst_port;
  src_port = flow.src_port;
  protocol = flow.proto;
  tcp_flags = flow.tcp_flags;
  payload_len = flow.payload_len;
  verdict = if allowed then verdict_pass else verdict_drop_policy;
  family = src.family;
}

module _ (b : Bpf) where
  open b use {Trie}

  unfoldable pub allowed_from : Trie → Source → ℕ → Bool
  allowed_from trie src port =
      if src.family == family_v4
      then is_some (b.trie_get trie 48 (be16 port (be32 src.v4 [])))
      else false

  rate_step : Maps Trie → ℕ → ℕ → ℕ → ℕ → Option RateState → Maps Trie × Bool
  unfolding count_again
  rate_step m key max window t none = (
    record m {
      rate_state = b.rate_insert m.rate_state key (record { window_start = t; count = 1 });
    },
    false,
  )
  rate_step m key max window t (some st) =
      let (st', over) = count_again max window t st in
      (record m { rate_state = update m.rate_state key st' }, over)

  -- Whether this new connection goes over the port's limit for this source, at time `t`.
  unfoldable pub over_rate : Maps Trie → Source → ℕ → ℕ → Maps Trie × Bool
  unfolding rate_step
  over_rate m src port t =
      let packed = unwrap_or (m.tcp_rate port) 0 in
      let key = rate_key src.v4 port in
      if packed == 0 || not (src.family == family_v4)
      then (m, false)
      else rate_step m key (packed / 2 ^ 16) (bit_and packed 0xffff * 1_000_000_000) t
          (m.rate_state key)

  -- The decision, as (interesting, allowed); `over_rate` is asked only for an open port.
  decide_tcp : Maps Trie → Source → Flow → ℕ → Maps Trie × Bool × Bool
  decide_tcp m src flow t =
      let f = flow.tcp_flags in
      if odd f
      then (m, true, false)
      else if opener f
      then (if port_open m.tcp_allow flow.dst_port
            || allowed_from m.allow_from_tcp src flow.dst_port
          then (let (m', over) = over_rate m src flow.dst_port t in (m', true, not over))
          else (m, true, false))
      else (m, false, true)

  decide_udp : Maps Trie → Source → Flow → Bool → Maps Trie × Bool × Bool
  decide_udp m src flow seen =
      let loose_reply =
        read_config m cfg_udp_strict == 0 && leb (read_config m cfg_ephemeral_low) flow.dst_port in
      let reply = seen || loose_reply in
      (
        m,
        not reply,
        reply
            || port_open m.udp_allow flow.dst_port
            || allowed_from m.allow_from_udp src flow.dst_port,
      )

  unfoldable pub decide : Maps Trie → Source → Flow → Bool → ℕ → Maps Trie × Bool × Bool
  unfolding decide_tcp decide_udp
  decide m src flow reply t =
      if flow.proto == proto_tcp then decide_tcp m src flow t else decide_udp m src flow reply

  -- The event is lost, and counted as lost, when the ring buffer is full.
  unfoldable pub report : Maps Trie → Bool → PacketEvent → Maps Trie
  report m room ev = if room then record m { events = ev ∷ m.events } else bump stat_events_lost m

  unfoldable pub policy : Maps Trie → Source → Flow → Bool → Bool → Env → Maps Trie × XdpAction
  unfolding report
  policy m src flow to_everyone reply env =
      let (m1, interesting, allowed) = decide m src flow reply env.at_rate in
      let drop = not allowed && not (read_config m1 cfg_enforce == 0) in
      let m2 =
        if interesting && not to_everyone
        then report m1 env.ring_room (event_of src flow allowed)
        else m1 in
      if drop then (bump stat_drop_policy m2, xdp_drop) else (m2, xdp_pass)
