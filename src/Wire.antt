-- ===== src/Wire.antt =====
-- ai-firewall-common/src/lib.rs: what the kernel program and the daemon share. A u8, u16, u32 or
-- u64 is a native number; an address of IPv6 is the list of its sixteen bytes.
pub mod Flags
use ai_firewall.Prelude.{
  ℕ, ◌*◌, ◌^◌, bit_and, bit_or, ◌≡◌, Bool, true, false, not, ◌&&◌, List, ◌==◌, Eq,
}

abbrev pub tcp_flag_fin : ℕ
tcp_flag_fin = 1

abbrev pub tcp_flag_syn : ℕ
tcp_flag_syn = 2

abbrev pub tcp_flag_rst : ℕ
tcp_flag_rst = 4

abbrev pub tcp_flag_psh : ℕ
tcp_flag_psh = 8

abbrev pub tcp_flag_ack : ℕ
tcp_flag_ack = 16

abbrev pub tcp_flag_urg : ℕ
tcp_flag_urg = 32

abbrev pub proto_tcp : ℕ
proto_tcp = 6

abbrev pub proto_udp : ℕ
proto_udp = 17

abbrev pub verdict_pass : ℕ
verdict_pass = 0

abbrev pub verdict_drop_policy : ℕ
verdict_drop_policy = 1

-- The slots of the CONFIG array.
abbrev pub cfg_enforce : ℕ
cfg_enforce = 0

abbrev pub cfg_ephemeral_low : ℕ
cfg_ephemeral_low = 1

abbrev pub cfg_drop_ping : ℕ
cfg_drop_ping = 2

abbrev pub cfg_udp_strict : ℕ
cfg_udp_strict = 3

-- The slots of the STATS array.
abbrev pub stat_passed : ℕ
stat_passed = 0

abbrev pub stat_drop_blocklist : ℕ
stat_drop_blocklist = 1

abbrev pub stat_drop_policy : ℕ
stat_drop_policy = 2

abbrev pub stat_events_lost : ℕ
stat_events_lost = 3

abbrev pub stat_drop_feed : ℕ
stat_drop_feed = 4

abbrev pub ban_forever : ℕ
ban_forever = 0

abbrev pub udp_flow_ttl_ns : ℕ
udp_flow_ttl_ns = 180 * 1_000_000_000

abbrev pub family_v4 : ℕ
family_v4 = 4

abbrev pub family_v6 : ℕ
family_v6 = 6

pub record UdpFlow : Type 0 where
  pub remote_ip : ℕ
  pub local_port : ℕ
  pub remote_port : ℕ

pub record UdpFlow6 : Type 0 where
  pub remote_ip : List ℕ
  pub local_port : ℕ
  pub remote_port : ℕ

pub record PacketEvent : Type 0 where
  pub src6 : ℕ
  pub src_ip : ℕ
  pub dst_port : ℕ
  pub src_port : ℕ
  pub protocol : ℕ
  pub tcp_flags : ℕ
  pub payload_len : ℕ
  pub verdict : ℕ
  pub family : ℕ

unfoldable pub is_syn : PacketEvent → Bool
is_syn ev = not (bit_and ev.tcp_flags tcp_flag_syn == 0) && bit_and ev.tcp_flags tcp_flag_ack == 0

unfoldable pub is_fin : PacketEvent → Bool
is_fin ev = not (bit_and ev.tcp_flags tcp_flag_fin == 0)

unfoldable pub is_rst : PacketEvent → Bool
is_rst ev = not (bit_and ev.tcp_flags tcp_flag_rst == 0)

unfoldable pub is_null_scan : PacketEvent → Bool
is_null_scan ev = ev.protocol == proto_tcp && ev.tcp_flags == 0

unfoldable pub is_xmas_scan : PacketEvent → Bool
is_xmas_scan ev =
    let mask = bit_or (bit_or tcp_flag_fin tcp_flag_urg) tcp_flag_psh in
    bit_and ev.tcp_flags mask == mask

unfoldable pub is_fin_scan : PacketEvent → Bool
unfolding is_fin
is_fin_scan ev = ev.protocol == proto_tcp && is_fin ev && bit_and ev.tcp_flags tcp_flag_ack == 0

-- The fields of a rate limit in one word.
unfoldable pub rate_pack : ℕ → ℕ → ℕ
rate_pack max window_secs = bit_or (max * 2 ^ 16) window_secs

pub record RateState : Type 0 where
  pub window_start : ℕ
  pub count : ℕ
