-- ===== src/Daemon/Status.antt =====
-- ai-firewall/src/daemon.rs, `build_status`: what the daemon writes to its status file. The two clocks,
-- the process and the counters of the kernel are arguments.
pub mod Shown
pub mod Tests
use ai_firewall.Prelude.{
  ℕ, ◌+◌, ◌%◌, ◌^◌, Bool, true, false, not, ◌&&◌, Option, none, some, List, [], ◌∷◌, ◌++◌, map,
  length, get, any, unwrap_or, ltb, leb, if◌then◌else◌,
}
use ai_firewall.Text.{Text, codes, text_eq, print_uint}
use ai_firewall.Wire.{
  stat_passed, stat_drop_blocklist, stat_drop_policy, stat_drop_feed, stat_events_lost,
}
use ai_firewall.Addr.{Src, v4, v6, src_Eq}
use ai_firewall.Config.Ports.{label, rule_label}
use ai_firewall.Config.Settings.{Config, Policy}
use ai_firewall.Detector.Float.{Float32}
use ai_firewall.State.{BanRecord, remaining, manual_record}
use ai_firewall.State.Blocklist.{entries}
use ai_firewall.Feeds.{FeedState}
use ai_firewall.Daemon.{RecentBan, Shared}
use ai_firewall.Daemon.Rules.{dhcp_client_ports}
use ai_firewall.Daemon.Uplink.{Attachment}

pub record StatusBan : Type 0 where
  pub ip : Src
  pub remaining_secs : ℕ
  pub reason : Text
  pub source : Text
  pub strikes : ℕ

-- The derived order: IPv4 before IPv6, then the number.
abbrev pub src_leb : Src → Src → Bool
src_leb (v4 a) (v4 b) = leb a b
src_leb (v4 a) (v6 q) = true
src_leb (v6 p) (v4 b) = false
src_leb (v6 p) (v6 q) = leb p q

-- The stable sort by the source.
unfoldable pub insert_ban : StatusBan → List StatusBan → List StatusBan
insert_ban b [] = b ∷ []
insert_ban b (c ∷ cs) = if src_leb b.ip c.ip then b ∷ c ∷ cs else c ∷ insert_ban b cs

unfoldable pub sort_bans : List StatusBan → List StatusBan
unfolding insert_ban
sort_bans [] = []
sort_bans (b ∷ bs) = insert_ban b (sort_bans bs)

-- One entry of the ban maps, unless it is over at the time that `remaining` reads for it.
unfoldable pub status_ban : (Src → ℕ) → List (Src × BanRecord) → Src × ℕ → Option StatusBan
status_ban clock records (ip, expiry) = elim (remaining (clock ip) expiry) [
  | none ↦ none
  | some left ↦
      let rec = unwrap_or (get ip records) manual_record in
      some (record {
        ip = ip;
        remaining_secs = left;
        reason = rec.reason;
        source = rec.source;
        strikes = rec.strikes;
      })
]

unfoldable pub status_bans : (Src → ℕ) → List (Src × BanRecord) → List (Src × ℕ) → List StatusBan
unfolding status_ban
status_bans clock records [] = []
status_bans clock records (e ∷ es) =
    let rest = status_bans clock records es in
    elim (status_ban clock records e) [ none ↦ rest | some b ↦ b ∷ rest ]

unfoldable pub add_labels : List Text → List ℕ → List Text
add_labels labels [] = labels
add_labels labels (p ∷ ps) =
    let dhcp = print_uint p [] in
    add_labels (if any (λ l. text_eq l dhcp) labels then labels else labels ++ dhcp ∷ []) ps

abbrev sum64 : List ℕ → ℕ
sum64 [] = 0
sum64 (n ∷ ns) = (n + sum64 ns) % 2 ^ 64

abbrev stat : (ℕ → Option (List ℕ)) → ℕ → ℕ
stat stats slot = elim (stats slot) [ none ↦ 0 | some counts ↦ sum64 counts ]

abbrev iface_of : Option Attachment → Option Text
iface_of none = none
iface_of (some a) = some a.iface

abbrev mode_of : Option Attachment → Option Text
mode_of none = none
mode_of (some a) = some a.mode

abbrev has_egress : Option Attachment → Bool
has_egress none = false
has_egress (some a) = a.egress

module _ (fl : Float32) where
  pub record Status : Type 0 where
    pub pid : ℕ
    pub mode : Text
    pub interface : Option Text
    pub xdp_mode : Option Text
    pub udp_strict : Bool
    pub started_unix : ℕ
    pub updated_unix : ℕ
    pub attaches : ℕ
    pub passed : ℕ
    pub dropped_blocklist : ℕ
    pub dropped_policy : ℕ
    pub dropped_feed : ℕ
    pub events_lost : ℕ
    pub tracked_sources : ℕ
    pub allow_tcp : List Text
    pub allow_udp : List Text
    pub ping : Bool
    pub profile : Option Text
    pub profiles : List Text
    pub rules : List Text
    pub feeds : List FeedState
    pub feed_networks : ℕ
    pub config_error : Option Text
    pub posture : Option Text
    pub posture_error : Option Text
    pub bans : List StatusBan
    pub recent : List (RecentBan fl)

  -- `clock ip` is the time that `remaining` reads for the ban of `ip`.
  unfoldable pub build_status :
      (Src → ℕ)
      → ℕ
      → ℕ
      → Config
      → Policy
      → List FeedState
      → ℕ
      → Shared fl
      → (ℕ → Option (List ℕ))
      → Option Attachment
      → ℕ
      → ℕ
      → Status
  unfolding sort_bans status_bans add_labels
  build_status clock pid unix cfg policy feed_states feed_networks s stats attachment started
        attaches =
      record {
        pid = pid;
        mode = cfg.mode;
        interface = iface_of attachment;
        xdp_mode = mode_of attachment;
        udp_strict = cfg.udp_strict && has_egress attachment;
        started_unix = started;
        updated_unix = unix;
        attaches = attaches;
        passed = stat stats stat_passed;
        dropped_blocklist = stat stats stat_drop_blocklist;
        dropped_policy = stat stats stat_drop_policy;
        dropped_feed = stat stats stat_drop_feed;
        events_lost = stat stats stat_events_lost;
        tracked_sources = length s.detector.tracks;
        allow_tcp = map label policy.allow_tcp;
        allow_udp = add_labels (map label policy.allow_udp) dhcp_client_ports;
        ping = policy.allow_ping;
        profile = policy.profile;
        profiles = map (λ p. p.0) cfg.profiles;
        rules = map rule_label policy.rules;
        feeds = feed_states;
        feed_networks = feed_networks;
        config_error = none;
        posture = cfg.posture;
        posture_error = none;
        bans = sort_bans (status_bans clock s.records (entries s.blocklist));
        recent = s.recent;
      }
