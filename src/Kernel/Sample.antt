-- ===== src/Kernel/Sample.antt =====
-- A concrete kernel to run ai-firewall-ebpf/src/main.rs on: the header layouts of Ethernet, IPv4,
-- IPv6, TCP and UDP over a list of bytes, and tries that match whole keys.
use ai_firewall.Prelude.{
  ℕ, zero, suc, ◌+◌, ◌*◌, ◌/◌, ◌%◌, ◌^◌, Bool, true, ◌&&◌, Option, none, some, List, [], ◌∷◌, ◌++◌,
  take, length, nat_eq, update, replicate, ◌==◌, leb, if◌then◌else◌,
}
use ai_firewall.Text.{text_eq}
use ai_firewall.Wire.{UdpFlow, UdpFlow6}
use ai_firewall.Kernel.Interface.{Headers, Bpf, Env, EtherType, ipv4, ipv6, other}
use ai_firewall.Kernel.Maps.{Maps}

abbrev at : List ℕ → ℕ → ℕ
at [] i = 0
at (x ∷ xs) zero = x
at (x ∷ xs) (suc i) = at xs i

abbrev from : List ℕ → ℕ → List ℕ
from xs zero = xs
from [] (suc i) = []
from (x ∷ xs) (suc i) = from xs i

abbrev word16 : List ℕ → ℕ → ℕ
word16 p i = at p i * 2 ^ 8 + at p (i + 1)

abbrev word32 : List ℕ → ℕ → ℕ
word32 p i = word16 p i * 2 ^ 16 + word16 p (i + 2)

abbrev type_of : ℕ → EtherType
type_of n = if n == 0x0800 then ipv4 else if n == 0x86dd then ipv6 else other

abbrev pub headers : Headers
headers = record {
  eth_len = 14;
  ipv4_len = 20;
  ipv6_len = 40;
  tcp_len = 20;
  udp_len = 8;
  ipproto_tcp = 6;
  ipproto_udp = 17;
  eth_dst0 = at;
  ether_type = λ p o. type_of (word16 p (o + 12));
  ip4_src = λ p o. word32 p (o + 12);
  ip4_dst = λ p o. word32 p (o + 16);
  ip4_frag_off = λ p o. word16 p (o + 6);
  ip4_ihl = at;
  ip4_proto = λ p o. at p (o + 9);
  ip6_src = λ p o. take 16 (from p (o + 8));
  ip6_dst = λ p o. take 16 (from p (o + 24));
  ip6_next_hdr = λ p o. at p (o + 6);
  byte = at;
  tcp_fin = λ p o. at p (o + 13) % 2;
  tcp_syn = λ p o. at p (o + 13) / 2 % 2;
  tcp_rst = λ p o. at p (o + 13) / 4 % 2;
  tcp_psh = λ p o. at p (o + 13) / 8 % 2;
  tcp_ack = λ p o. at p (o + 13) / 16 % 2;
  tcp_urg = λ p o. at p (o + 13) / 32 % 2;
  tcp_doff = λ p o. at p (o + 12) / 16;
  tcp_source = word16;
  tcp_dest = λ p o. word16 p (o + 2);
  udp_source = word16;
  udp_dest = λ p o. word16 p (o + 2);
}

abbrev pub flow_eq : UdpFlow → UdpFlow → Bool
flow_eq a b =
    a.remote_ip == b.remote_ip && a.local_port == b.local_port && a.remote_port == b.remote_port

abbrev flow6_eq : UdpFlow6 → UdpFlow6 → Bool
flow6_eq a b =
    text_eq a.remote_ip b.remote_ip
    && a.local_port == b.local_port
    && a.remote_port == b.remote_port

abbrev pub bpf : Bpf
bpf = record {
  Trie = List ℕ → Option ℕ;
  trie_get = λ t bits key. t key;
  trie_insert = λ t bits key v. some (λ j. if text_eq key j then some v else t j);
  trie_remove = λ t bits key j. if text_eq key j then none else t j;
  rate_insert = update;
  flow_insert = λ m k v j. if flow_eq k j then some v else m j;
  flow6_insert = λ m k v j. if flow6_eq k j then some v else m j;
  load = λ p o n. leb (o + n) (length p);
}

-- Port 22 is open, with three connections in 30 seconds; 10.0.0.9 is banned up to time 900; strict
-- UDP is enforced.
abbrev pub maps : Maps bpf.Trie
maps = record {
  blocklist = λ k. if k == 0x0a000009 then some 900 else none;
  blocklist6 = λ k. none;
  udp_flows = λ k. none;
  udp_flows6 = λ k. none;
  events = [];
  tcp_allow = λ k. some (if k == 22 then 1 else 0);
  udp_allow = λ k. some 0;
  allow_from_tcp = λ k. none;
  allow_from_udp = λ k. none;
  tcp_rate = λ k. some (if k == 22 then 196638 else 0);
  rate_state = λ k. none;
  feeds = λ k. none;
  config = λ k. some (if k == 0 then 1 else if k == 1 then 32768 else if k == 3 then 1 else 0);
  stats = λ k. some 0;
}

abbrev pub env : Env
env = record { at_ban = 500; at_exact = 501; at_any = 502; at_rate = 503; ring_room = true }

-- An IPv4 header behind an Ethernet header: the protocol, the source and the destination.
abbrev pub ip_frame : ℕ → List ℕ → List ℕ → List ℕ → List ℕ
ip_frame proto src dst rest =
    replicate 12 2
    ++ 8 ∷ 0 ∷ 0x45 ∷ 0 ∷ 0 ∷ 28 ∷ 0 ∷ 0 ∷ 0 ∷ 0 ∷ 64 ∷ proto ∷ 0 ∷ 0 ∷ src
    ++ dst
    ++ rest

abbrev pub me : List ℕ
me = 10 ∷ 0 ∷ 0 ∷ 1 ∷ []

abbrev pub server : List ℕ
server = 9 ∷ 9 ∷ 9 ∷ 9 ∷ []

-- A question from port 5000 to port 53, and its answer.
abbrev pub question : List ℕ
question = ip_frame 17 me server (19 ∷ 136 ∷ 0 ∷ 53 ∷ 0 ∷ 8 ∷ 0 ∷ 0 ∷ [])

abbrev pub answer : List ℕ
answer = ip_frame 17 server me (0 ∷ 53 ∷ 19 ∷ 136 ∷ 0 ∷ 8 ∷ 0 ∷ 0 ∷ [])

abbrev pub from_banned : List ℕ
from_banned = ip_frame 17 (10 ∷ 0 ∷ 0 ∷ 9 ∷ []) me (0 ∷ 53 ∷ 19 ∷ 136 ∷ 0 ∷ 8 ∷ 0 ∷ 0 ∷ [])
