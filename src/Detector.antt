-- ===== src/Detector.antt =====
-- ai-firewall/src/detector.rs: threat scores per source over a short window, and escalating bans.
-- u32 counters wrap, as in a release build.
pub mod Float
pub mod Observe
pub mod Escalation
pub mod Bounds
pub mod Evidence
pub mod Tests
use ai_firewall.Prelude.{
  ℕ, zero, suc, ◌+◌, ◌-◌, ◌*◌, ◌/◌, ◌%◌, ◌^◌, min, Bool, true, false, not, ◌&&◌, ◌||◌, Option, none,
  some, List, [], ◌∷◌, ◌++◌, map, any, retain, contains, length, take, get, contains_key, insert,
  remove, unwrap_or, ltb, leb, ◌==◌, if◌then◌else◌,
}
use ai_firewall.Text.{codes, print_uint}
use ai_firewall.Wire.{
  PacketEvent, proto_udp, verdict_drop_policy, is_null_scan, is_xmas_scan, is_fin_scan, is_syn,
}
use ai_firewall.Addr.{Src, v4, v6, src_Eq, of}
use ai_firewall.Config.Cidr.{Cidr}
use ai_firewall.Config.Cidr
use Float.{Float32}

abbrev pub max_tracked : ℕ
max_tracked = 16384

abbrev pub u64_max : ℕ
u64_max = 18446744073709551615

pub record DetectorConfig : Type 0 where
  pub window_secs : ℕ
  pub syn_limit : ℕ
  pub port_limit : ℕ
  pub udp_limit : ℕ
  pub drop_limit : ℕ

pub record BanConfig : Type 0 where
  pub base_secs : ℕ
  pub max_secs : ℕ
  pub forgive_secs : ℕ

pub record Track : Type 0 where
  pub window_start : ℕ
  pub syn : ℕ
  pub udp : ℕ
  pub drops : ℕ
  pub odd : ℕ
  pub ports : List ℕ
  pub udp_seen : Bool
  pub tcp_seen : Bool

pub record Offender : Type 0 where
  pub strikes : ℕ
  pub last_ban : ℕ

pub record Detector : Type 0 where
  pub cfg : DetectorConfig
  pub bans : BanConfig
  pub protected : List Cidr
  pub protected6 : List ℕ
  pub tracks : List (Src × Track)
  pub offenders : List (Src × Offender)

unfoldable pub new : DetectorConfig → BanConfig → Detector
new cfg bans = record {
  cfg = cfg;
  bans = bans;
  protected = [];
  protected6 = [];
  tracks = [];
  offenders = [];
}

unfoldable pub reconfigure : Detector → DetectorConfig → BanConfig → Detector
reconfigure d cfg bans = record d { cfg = cfg; bans = bans }

-- `p >> 54 == 0x3fa` is fe80::/10.
protects : List Cidr → List ℕ → Src → Bool
protects nets prefixes (v4 ip) = any (λ c. Cidr.contains c ip) nets
protects nets prefixes (v6 p) = p / 2 ^ 54 == 0x3fa || contains p prefixes

unfoldable pub is_protected : Detector → Src → Bool
unfolding protects
is_protected d src = protects d.protected d.protected6 src

unfoldable pub set_protected : Detector → List Cidr → List ℕ → Detector
set_protected d nets prefixes =
    let d' = record d { protected = nets; protected6 = prefixes } in
    record d' { tracks = retain (λ t. not (is_protected d' t.0)) d.tracks }

unfoldable pub restore_offender : Detector → Src → Offender → Detector
restore_offender d ip o = record d { offenders = insert ip o d.offenders }

abbrev pub saturating_add : ℕ → ℕ → ℕ
saturating_add a b = min (a + b) u64_max

abbrev pub saturating_mul : ℕ → ℕ → ℕ
saturating_mul a b = min (a * b) u64_max

-- Finished windows and forgiven offenders are dropped.
unfoldable pub prune : Detector → ℕ → Detector
prune d now =
    let keep = saturating_add d.bans.forgive_secs d.bans.max_secs in
    record d {
      tracks = retain (λ t. ltb (now - t.1.window_start) d.cfg.window_secs) d.tracks;
      offenders = retain (λ o. leb (now - o.1.last_ban) keep) d.offenders;
    }

abbrev pub empty_track : ℕ → Track
empty_track start = record {
  window_start = start;
  syn = 0;
  udp = 0;
  drops = 0;
  odd = 0;
  ports = [];
  udp_seen = false;
  tcp_seen = false;
}

-- The track of the source, started again when its window is over.
unfoldable pub in_window : DetectorConfig → Option Track → ℕ → Track
in_window cfg known now =
    let t = unwrap_or known (empty_track 0) in
    if leb cfg.window_secs (now - t.window_start) then empty_track now else t

abbrev pub bump32 : ℕ → ℕ
bump32 n = (n + 1) % 2 ^ 32

-- What the event adds to the track: who was seen, one signal, a drop, a port.
see : PacketEvent → Track → Track
see ev t =
    if ev.protocol == proto_udp then record t { udp_seen = true } else record t { tcp_seen = true }

signal : PacketEvent → Track → Track
signal ev t =
    if ev.protocol == proto_udp
    then record t { udp = bump32 t.udp }
    else if is_null_scan ev || is_xmas_scan ev || is_fin_scan ev
    then record t { odd = bump32 t.odd }
    else if is_syn ev
    then record t { syn = bump32 t.syn }
    else t

count_drop : PacketEvent → Track → Track
count_drop ev t =
    if ev.verdict == verdict_drop_policy then record t { drops = bump32 t.drops } else t

note_port : DetectorConfig → PacketEvent → Track → Track
note_port cfg ev t =
    if leb (length t.ports) cfg.port_limit && not (contains ev.dst_port t.ports)
    then record t { ports = t.ports ++ ev.dst_port ∷ [] }
    else t

unfoldable pub update_track : DetectorConfig → PacketEvent → Track → Track
unfolding see signal count_drop note_port
update_track cfg ev t = note_port cfg ev (count_drop ev (signal ev (see ev t)))

-- The ports in a ban: the first four, and how many more.
unfoldable pub join : List (List ℕ) → List ℕ
join [] = []
join (w ∷ []) = w
join (w ∷ x ∷ ws) = w ++ b' ' ∷ join (x ∷ ws)

proto_name : Bool → Bool → List ℕ
proto_name true true = codes "tcp/udp"
proto_name false true = codes "udp"
proto_name _ _ = codes "tcp"

unfoldable pub describe_ports : Track → List ℕ
unfolding join proto_name
describe_ports t =
    let first = map (λ p. print_uint p []) (take 4 t.ports) in
    let shown =
      if ltb 4 (length t.ports)
      then first ++ (b'+' ∷ print_uint (length t.ports - 4) []) ∷ []
      else first in
    proto_name t.tcp_seen t.udp_seen ++ b' ' ∷ join shown
