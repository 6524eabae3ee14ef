-- ===== src/Posture/Tests.antt =====
-- The theorems on ai-firewall/src/posture.rs and on the checks of ai-firewall/src/config.rs at a
-- concrete configuration.
use ai_firewall.Prelude.{is_some, refl, ◌≡◌, true, false, none, some, [], ◌∷◌}
use ai_firewall.Text.{
  codes, split_once, parse_uint, digits_value, parse_ipv4, split, trim, parse_octet,
}
use ai_firewall.Config.Cidr.{parse, leading_ones, mask_of, network}
use ai_firewall.Feeds.{known}
use ai_firewall.Config.Ports.{
  one, text, expand, collect, ports, rate, window_of, dedup, insert_sorted, range_of, sort,
}
use ai_firewall.Config.Settings.{
  Config, policy, enforce, validate, trusted_cidrs, parse_all, check_policy, check_rule,
  blocked_cidrs, check_bans, check_detector,
}
use ai_firewall.Daemon.Rules.{compile}
use ai_firewall.Daemon.Rules.Validated.{validate-compiles}
use ai_firewall.Posture.{apply}
use ai_firewall.Posture.Lockdown.{lockdown_closes}

-- Port 22 for everyone, and a profile that opens a range and answers pings.
abbrev pub cfg : Config
cfg = record {
  mode = codes "monitor";
  interface = codes "auto";
  allow_tcp = one 22 ∷ [];
  allow_udp = [];
  allow_ping = true;
  keep_vm_forwarding = true;
  udp_strict = true;
  trusted = codes "192.168.0.0/16" ∷ [];
  blocked = [];
  detector = record {
    window_secs = 10;
    syn_limit = 40;
    port_limit = 12;
    udp_limit = 150;
    drop_limit = 30;
  };
  bans = record { base_secs = 120; max_secs = 86400; forgive_secs = 21600 };
  assistant = record { enabled = true; model = codes "auto"; url = none };
  rules =
      record {
        proto = codes "tcp";
        port = one 8080;
        from = some (codes "10.0.0.0/8");
        limit = some (codes "5/30s");
      }
      ∷ [];
  feeds = record { lists = codes "spamhaus-drop" ∷ []; urls = []; refresh_hours = 24 };
  profiles =
      (
        codes "home",
        record {
          networks = codes "Home" ∷ [];
          allow_tcp = some (text (codes "8000-8010") ∷ []);
          allow_udp = none;
          allow_ping = some true;
          rules = none;
        },
      )
      ∷ [];
  notify = record { bans = true };
  posture = none;
}

lockdown_closes_example :
    let cfg' = apply (record { name = codes "lockdown"; lan = [] }) cfg in
    (enforce cfg' ≡ true)
    × ((policy cfg' (some (codes "home"))).allow_ping ≡ false)
    × (compile (policy cfg' (some (codes "home")))
        ≡ some (record { tcp = []; udp = 68 ∷ 546 ∷ []; from_tcp = []; from_udp = []; rates = [] }))
lockdown_closes_example = lockdown_closes cfg [] (some (codes "home"))

valid : validate cfg ≡ true
unfolding validate trusted_cidrs parse_all parse split_once parse_uint digits_value parse_ipv4 split
    trim parse_octet check_policy expand collect ports check_rule rate window_of leading_ones
    mask_of network dedup insert_sorted range_of sort blocked_cidrs check_bans check_detector known
valid = refl

validate-compiles_example : is_some (compile (policy cfg (some (codes "home")))) ≡ true
validate-compiles_example = validate-compiles cfg (some (codes "home")) valid
