-- ===== src/Config/Settings.antt =====
-- ai-firewall/src/config.rs: the settings, the policy that a profile lays over them, and the checks
-- of `validate`. Where the source returns an error, `validate` is false.
use ai_firewall.Prelude.{
  ℕ, Bool, true, false, not, ◌&&◌, ◌||◌, Option, none, some, List, [], ◌∷◌, any, get, is_some,
  unwrap_or, ltb, leb, ◌==◌, if◌then◌else◌,
}
use ai_firewall.Text.{Text, codes, text_eq, text_Eq}
use ai_firewall.Config.Cidr.{Cidr, leading_ones}
use ai_firewall.Config.Cidr
use ai_firewall.Config.Ports.{PortSpec, Rule, ports, expand, rate}
use ai_firewall.Detector.{DetectorConfig, BanConfig}
use ai_firewall.Feeds.{FeedConfig, known}

pub record Profile : Type 0 where
  pub networks : List Text
  pub allow_tcp : Option (List PortSpec)
  pub allow_udp : Option (List PortSpec)
  pub allow_ping : Option Bool
  pub rules : Option (List Rule)

pub record NotifyConfig : Type 0 where
  pub bans : Bool

pub record AssistantConfig : Type 0 where
  pub enabled : Bool
  pub model : Text
  pub url : Option Text

-- `profiles` is in the order of its names.
pub record Config : Type 0 where
  pub mode : Text
  pub interface : Text
  pub allow_tcp : List PortSpec
  pub allow_udp : List PortSpec
  pub allow_ping : Bool
  pub keep_vm_forwarding : Bool
  pub udp_strict : Bool
  pub trusted : List Text
  pub blocked : List Text
  pub detector : DetectorConfig
  pub bans : BanConfig
  pub assistant : AssistantConfig
  pub rules : List Rule
  pub feeds : FeedConfig
  pub profiles : List (Text × Profile)
  pub notify : NotifyConfig
  pub posture : Option Text

-- What applies right now: the base settings with the active profile on top.
pub record Policy : Type 0 where
  pub profile : Option Text
  pub allow_tcp : List PortSpec
  pub allow_udp : List PortSpec
  pub allow_ping : Bool
  pub rules : List Rule

find_profile : List Text → List (Text × Profile) → Option Text
find_profile active [] = none
find_profile active ((name, p) ∷ ps) =
    if any (λ n. any (λ a. text_eq a n) active) p.networks
    then some name
    else find_profile active ps

-- The first profile that lists one of the active connections.
unfoldable pub profile_for : Config → List Text → Option Text
unfolding find_profile
profile_for cfg active = find_profile active cfg.profiles

unfoldable pub with_profile : Config → Option Text → Option Profile → Policy
with_profile cfg name none = record {
  profile = none;
  allow_tcp = cfg.allow_tcp;
  allow_udp = cfg.allow_udp;
  allow_ping = cfg.allow_ping;
  rules = cfg.rules;
}
with_profile cfg name (some p) = record {
  profile = name;
  allow_tcp = unwrap_or p.allow_tcp cfg.allow_tcp;
  allow_udp = unwrap_or p.allow_udp cfg.allow_udp;
  allow_ping = unwrap_or p.allow_ping cfg.allow_ping;
  rules = unwrap_or p.rules cfg.rules;
}

-- `profile.and_then(|n| self.profiles.get(n))`
unfoldable pub lookup_profile : Option Text → List (Text × Profile) → Option Profile
lookup_profile none ps = none
lookup_profile (some n) ps = get n ps

unfoldable pub policy : Config → Option Text → Policy
policy cfg profile = with_profile cfg profile (lookup_profile profile cfg.profiles)

unfoldable pub enforce : Config → Bool
enforce cfg = text_eq cfg.mode (codes "enforce")

-- `trusted_cidrs` and `blocked_cidrs`: every text as a network, or an error.
unfoldable pub parse_all : List Text → Option (List Cidr)
parse_all [] = some []
parse_all (t ∷ ts) =
    let rest = parse_all ts in
    elim (Cidr.parse t) [
      | none ↦ none
      | some c ↦ elim rest [ none ↦ none | some cs ↦ some (c ∷ cs) ]
    ]

unfoldable pub trusted_cidrs : Config → Option (List Cidr)
trusted_cidrs cfg = parse_all cfg.trusted

unfoldable pub blocked_cidrs : Config → Option (List Cidr)
blocked_cidrs cfg = parse_all cfg.blocked

abbrev pub all_of : {A : Type 0} → (A → Bool) → List A → Bool
all_of p [] = true
all_of p (x ∷ xs) = p x && all_of p xs

abbrev pub from_parses : Option Text → Bool
from_parses none = true
from_parses (some f) = is_some (Cidr.parse f)

-- A limit that is read; one that is set wants TCP.
abbrev pub rate_fits : Bool → Option (Option (ℕ × ℕ)) → Bool
rate_fits tcp none = false
rate_fits tcp (some none) = true
rate_fits tcp (some (some l)) = tcp

unfoldable pub check_rule : Rule → Bool
check_rule r =
    (text_eq r.proto (codes "tcp") || text_eq r.proto (codes "udp"))
    && is_some (ports r.port)
    && from_parses r.from
    && rate_fits (text_eq r.proto (codes "tcp")) (rate r)

unfoldable pub check_policy : List PortSpec → List PortSpec → List Rule → Bool
check_policy tcp udp rules = is_some (expand tcp) && is_some (expand udp) && all_of check_rule rules

abbrev starts_with : Text → Text → Bool
starts_with [] s = true
starts_with (c ∷ p) [] = false
starts_with (c ∷ p) (d ∷ s) = c == d && starts_with p s

-- The blocked ranges are /20 or narrower.
blocked_fit : Option (List Cidr) → Bool
blocked_fit none = false
blocked_fit (some cs) = all_of (λ c. leb 20 (leading_ones c.mask)) cs

unfoldable pub check_detector : DetectorConfig → Bool
check_detector d = not (
    d.window_secs == 0
    || d.syn_limit == 0
    || d.port_limit == 0
    || d.udp_limit == 0
    || d.drop_limit == 0)

unfoldable pub check_bans : BanConfig → Bool
check_bans b = not (b.base_secs == 0 || ltb b.max_secs b.base_secs)

abbrev pub check_profile : Text × Profile → Bool
check_profile (name, p) =
    check_policy (unwrap_or p.allow_tcp []) (unwrap_or p.allow_udp []) (unwrap_or p.rules [])

unfoldable pub validate : Config → Bool
unfolding blocked_fit
validate cfg =
    (text_eq cfg.mode (codes "enforce") || text_eq cfg.mode (codes "monitor"))
    && is_some (trusted_cidrs cfg)
    && check_policy cfg.allow_tcp cfg.allow_udp cfg.rules
    && all_of check_profile cfg.profiles
    && all_of (λ name. is_some (known name)) cfg.feeds.lists
    && all_of (starts_with (codes "https://")) cfg.feeds.urls
    && blocked_fit (blocked_cidrs cfg)
    && check_detector cfg.detector
    && check_bans cfg.bans
