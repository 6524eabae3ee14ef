-- ===== src/Doctor/Checks/Tests.antt =====
-- The doctor of ai-firewall/src/doctor.rs on a concrete host.
use ai_firewall.Prelude.{◌≡◌, refl, true, false, none, some, [], ◌∷◌}
use ai_firewall.Text.{Text, codes}
use ai_firewall.Detector.Bounds.{All}
use ai_firewall.Detector.Tests.{fresh}
use ai_firewall.Daemon.Tests.{show}
use ai_firewall.Doctor.{Chain, parse_ruleset, blocking_forward_chains}
use ai_firewall.Doctor.Checks.{Host, diagnose}
use ai_firewall.Doctor.Checks.Offered.{OffersHandled, diagnose-OffersHandled}

abbrev docker_rules : Text
docker_rules =
    codes
      "table ip filter {\n\tchain DOCKER-USER {\n\t}\n\n\tchain FORWARD {\n\t\ttype filter hook forward priority filter; policy drop;\n\t\tcounter jump DOCKER-USER\n\t}\n}\n"

abbrev forward : Chain
forward = record {
  family = codes "ip";
  table = codes "filter";
  name = codes "FORWARD";
  hook = some (codes "forward");
  policy_drop = true;
  body = codes "counter jump DOCKER-USER\n";
}

docker_drops : blocking_forward_chains (parse_ruleset docker_rules) (codes "virbr0") ≡ forward ∷ []
unfolding blocking_forward_chains parse_ruleset ai_firewall.Doctor.read_lines
    ai_firewall.Text.Words.lines ai_firewall.Text.split ai_firewall.Doctor.read_line
    ai_firewall.Text.Words.strip_prefix ai_firewall.Text.trim ai_firewall.Doctor.hook_of
    ai_firewall.Text.Words.split_once_at ai_firewall.Text.Words.split_whitespace
    ai_firewall.Text.Words.contains_text ai_firewall.Text.Words.trim_end_matches
docker_drops = refl

abbrev pub lonely : Host
lonely = record {
  is_root = true;
  status = none;
  procs = record { visible = true; exists = λ pid. false };
  now = 100;
  pinned = [];
  service_installed = true;
  unit_active = λ u. true;
  route = none;
  network_state = none;
  reachable = λ a. false;
  dns_ok = false;
  nameservers = [];
  bridges = codes "virbr0" ∷ [];
  ip_forward = some (codes "0\n");
  nft_ruleset = some docker_rules;
  ifindex = λ i. none;
  networks = [];
  banned = some [];
  guard = fresh;
}

diagnose-OffersHandled_example : All OffersHandled (diagnose show lonely)
diagnose-OffersHandled_example = diagnose-OffersHandled show lonely
