-- ===== src/Kernel/Packet.antt =====
-- ai-firewall-ebpf/src/main.rs: `Flow`, `Source`, `parse_l4` and `icmp_verdict`. Offsets count from
-- `ctx.data()`, so `end` is the length of the frame.
use ai_firewall.Prelude.{
  ℕ, ◌+◌, ◌-◌, ◌*◌, ◌%◌, ◌^◌, bit_and, bit_or, not, ◌&&◌, Option, none, some, List, ◌==◌, ltb, leb,
  if◌then◌else◌,
}
use ai_firewall.Wire.{
  tcp_flag_fin, tcp_flag_syn, tcp_flag_rst, tcp_flag_psh, tcp_flag_ack, tcp_flag_urg, proto_tcp,
  proto_udp, cfg_enforce, cfg_drop_ping, stat_drop_policy,
}
use ai_firewall.Kernel.Interface.{Headers}
use ai_firewall.Kernel.Maps.{Maps, XdpAction, xdp_drop, xdp_pass, bump, read_config}

pub record Flow : Type 0 where
  pub proto : ℕ
  pub src_port : ℕ
  pub dst_port : ℕ
  pub tcp_flags : ℕ
  pub payload_len : ℕ

pub record Source : Type 0 where
  pub family : ℕ
  pub v4 : ℕ
  pub v6 : ℕ

-- `if bit != 0 { flags |= flag }`
abbrev pub flag_if : ℕ → ℕ → ℕ → ℕ
flag_if bit flag flags = if bit == 0 then flags else bit_or flags flag

module _ (h : Headers) where
  unfoldable pub tcp_flags_at : List ℕ → ℕ → ℕ
  tcp_flags_at p l4 = flag_if (h.tcp_urg p l4) tcp_flag_urg (
      flag_if (h.tcp_ack p l4) tcp_flag_ack (
        flag_if (h.tcp_psh p l4) tcp_flag_psh (
          flag_if (h.tcp_rst p l4) tcp_flag_rst
            (flag_if (h.tcp_syn p l4) tcp_flag_syn (flag_if (h.tcp_fin p l4) tcp_flag_fin 0)))))

  parse_tcp : List ℕ → ℕ → ℕ → Option Flow
  unfolding tcp_flags_at
  parse_tcp p l4 end =
      if ltb end (l4 + h.tcp_len)
      then none
      else (let data_start = l4 + bit_and (h.tcp_doff p l4) 0x0f * 4 in
          some (record {
            proto = proto_tcp;
            src_port = h.tcp_source p l4;
            dst_port = h.tcp_dest p l4;
            tcp_flags = tcp_flags_at p l4;
            payload_len = if leb data_start end then (end - data_start) % 2 ^ 16 else 0;
          }))

  parse_udp : List ℕ → ℕ → ℕ → Option Flow
  parse_udp p l4 end =
      if ltb end (l4 + h.udp_len)
      then none
      else some (record {
        proto = proto_udp;
        src_port = h.udp_source p l4;
        dst_port = h.udp_dest p l4;
        tcp_flags = 0;
        payload_len = (end - (l4 + h.udp_len)) % 2 ^ 16;
      })

  unfoldable pub parse_l4 : List ℕ → ℕ → ℕ → ℕ → Option Flow
  unfolding parse_tcp parse_udp
  parse_l4 p proto l4 end =
      if proto == h.ipproto_tcp
      then parse_tcp p l4 end
      else if proto == h.ipproto_udp
      then parse_udp p l4 end
      else none

  unfoldable pub icmp_verdict :
      {Trie : Type 0} → Maps Trie → List ℕ → ℕ → ℕ → ℕ → Maps Trie × XdpAction
  icmp_verdict m p l4 end echo_request =
      if ltb end (l4 + 1)
      then (m, xdp_pass)
      else if h.byte p l4 == echo_request
          && not (read_config m cfg_drop_ping == 0)
          && not (read_config m cfg_enforce == 0)
      then (bump stat_drop_policy m, xdp_drop)
      else (m, xdp_pass)
