-- ===== src/Posture.antt =====
-- ai-firewall/src/posture.rs: a system posture laid over the configuration. The posture's file is
-- not modelled.
pub mod Lockdown
pub mod Tests
use ai_firewall.Prelude.{
  ℕ, ◌*◌, ◌/◌, Bool, true, false, ◌&&◌, Option, none, some, List, [], ◌∷◌, ◌++◌, map, any, is_some,
  min, max, if◌then◌else◌,
}
use ai_firewall.Text.{Text, codes, text_eq}
use ai_firewall.Config.Cidr
use ai_firewall.Config.Cidr.{u32_max}
use ai_firewall.Config.Ports.{PortSpec, one, Rule}
use ai_firewall.Config.Settings.{Config, Profile, all_of}
use ai_firewall.Detector.{DetectorConfig, BanConfig, saturating_mul}

-- The names; what each does is text for the command line.
abbrev pub postures : List Text
postures = codes "secure" ∷ codes "relaxed" ∷ codes "lockdown" ∷ codes "stealth" ∷ []

abbrev pub decoy_tcp : List ℕ
decoy_tcp = 21 ∷ 22 ∷ 23 ∷ 25 ∷ 80 ∷ 445 ∷ 3306 ∷ 3389 ∷ 8080 ∷ []

abbrev pub decoy_udp : List ℕ
decoy_udp = 53 ∷ []

pub record Posture : Type 0 where
  pub name : Text
  pub lan : List Text

unfoldable pub validate : Posture → Bool
validate p = any (λ n. text_eq n p.name) postures && all_of (λ l. is_some (Cidr.parse l)) p.lan

unfoldable pub new : Text → List Text → Option Posture
new name lan =
    let p : Posture = record { name = name; lan = lan } in if validate p then some p else none

-- `v.saturating_mul(up) / down`, at least 1.
abbrev pub scale : ℕ → ℕ → ℕ → ℕ
scale up down v = max (min (v * up) u32_max / down) 1

unfoldable pub scale_detector : ℕ → ℕ → DetectorConfig → DetectorConfig
scale_detector up down d = record d {
  syn_limit = scale up down d.syn_limit;
  port_limit = scale up down d.port_limit;
  udp_limit = scale up down d.udp_limit;
  drop_limit = scale up down d.drop_limit;
}

abbrev pub closed_profile : Text × Profile → Text × Profile
closed_profile (name, p) = (
  name,
  record {
    networks = p.networks;
    allow_tcp = some [];
    allow_udp = some [];
    allow_ping = some false;
    rules = some [];
  },
)

unfoldable pub longer_bans : BanConfig → BanConfig
longer_bans b =
    let base = saturating_mul b.base_secs 4 in
    record b { base_secs = base; max_secs = max (saturating_mul b.max_secs 4) base }

unfoldable pub lockdown : Config → Config
lockdown cfg = record cfg {
  mode = codes "enforce";
  allow_tcp = [];
  allow_udp = [];
  allow_ping = false;
  rules = [];
  profiles = map closed_profile cfg.profiles;
  detector = scale_detector 1 2 cfg.detector;
  bans = longer_bans cfg.bans;
}

abbrev decoy : Text → Text → ℕ → Rule
decoy proto net port = record { proto = proto; port = one port; from = some net; limit = none }

unfoldable pub decoys : List Text → List Rule
decoys [] = []
decoys (net ∷ lan) =
    map (decoy (codes "tcp") net) decoy_tcp
    ++ (map (decoy (codes "udp") net) decoy_udp ++ decoys lan)

abbrev with_decoys : List Rule → Option (List Rule) → Option (List Rule)
with_decoys ds none = none
with_decoys ds (some rs) = some (rs ++ ds)

abbrev stealthy_profile : List Rule → Text × Profile → Text × Profile
stealthy_profile ds (name, p) =
    (name, record p { allow_ping = some false; rules = with_decoys ds p.rules })

unfoldable pub stealth : List Text → Config → Config
stealth lan cfg = record cfg {
  allow_ping = false;
  rules = cfg.rules ++ decoys lan;
  profiles = map (stealthy_profile (decoys lan)) cfg.profiles;
}

-- The configuration with this posture laid over it.
unfoldable pub apply : Posture → Config → Config
apply p cfg =
    let cfg' = record cfg { posture = some p.name } in
    if text_eq p.name (codes "relaxed")
    then record cfg' { detector = scale_detector 2 1 cfg'.detector }
    else if text_eq p.name (codes "lockdown")
    then lockdown cfg'
    else if text_eq p.name (codes "stealth")
    then stealth p.lan cfg'
    else cfg'
