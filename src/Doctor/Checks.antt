-- ===== src/Doctor/Checks.antt =====
-- ai-firewall/src/doctor.rs: the checks of `diagnose`. What the host answers to the commands, the
-- files that are read and what other modules report of the host are one record.
pub mod Offered
pub mod Tests
use ai_firewall.Prelude.{
  ℕ, ◌/◌, ◌%◌, ◌^◌, Bool, true, false, not, ◌&&◌, ◌||◌, Option, none, some, List, [], ◌∷◌, ◌++◌,
  map, any, retain, is_some, unwrap_or, if◌then◌else◌,
}
use ai_firewall.Text.{Text, codes, text_eq, trim, print_ipv4}
use ai_firewall.Text.Words.{strip_prefix, starts_with, contains_text, rsplit_once}
use ai_firewall.Config.Cidr.{Cidr}
use ai_firewall.Addr.{Src}
use ai_firewall.Detector.{Detector, is_protected}
use ai_firewall.Doctor.{Chain, parse_ruleset, vm_bridges, blocking_forward_chains}
use ai_firewall.Net.{IfaceNet}
use ai_firewall.Tui.{StatusView, Processes, alive}

pub data Severity : Type 0 where
  fine info warn fail : Severity

pub record Finding : Type 0 where
  pub area : Text
  pub severity : Severity
  pub title : Text
  pub detail : Text
  pub fix : Option Text

abbrev pub finding : Text → Severity → Text → Text → Option Text → Finding
finding area severity title detail fix = record {
  area = area;
  severity = severity;
  title = title;
  detail = detail;
  fix = fix;
}

pub record Host : Type 0 where
  pub is_root : Bool
  pub status : Option StatusView
  pub procs : Processes
  pub now : ℕ
  pub pinned : List Text
  pub service_installed : Bool
  pub unit_active : Text → Bool
  pub route : Option (Text × ℕ)
  pub network_state : Option Text
  pub reachable : Text → Bool
  pub dns_ok : Bool
  pub nameservers : List ℕ
  pub bridges : List Text
  pub ip_forward : Option Text
  pub nft_ruleset : Option Text
  pub ifindex : Text → Option ℕ
  pub networks : List IfaceNet
  pub banned : Option (List Src)
  pub guard : Detector

abbrev pub no_fix : Option Text
no_fix = none

abbrev pub firewall : Text
firewall = codes "firewall"

if_empty : Text → Text → Text
if_empty [] fallback = fallback
if_empty (c ∷ s) fallback = c ∷ s

join : Text → List Text → Text
join sep [] = []
join sep (w ∷ []) = w
join sep (w ∷ v ∷ ws) = w ++ (sep ++ join sep (v ∷ ws))

config_finding : Option Text → List Finding
config_finding none = []
config_finding (some err) =
    finding firewall fail (codes "The config file has an error")
      (codes
          "the last config that worked is in force until it is fixed (`ai-firewall check` shows it again): "
        ++ err)
      no_fix
    ∷ []

mode_finding : StatusView → Finding
mode_finding s =
    if text_eq s.mode (codes "enforce")
    then finding firewall fine (codes "ai-firewall is protecting")
        (codes "guarding " ++ unwrap_or s.interface (codes "nothing")) no_fix
    else finding firewall info (codes "ai-firewall is in monitor mode")
        (codes "it logs but drops nothing; set mode = \"enforce\" in the config") no_fix

uplink_finding : Option Text → List Finding
uplink_finding (some i) = []
uplink_finding none =
    finding firewall warn (codes "Not attached to any interface")
      (codes "there's no default route yet, so there's nothing to guard") no_fix
    ∷ []

status_findings : Host → Option StatusView → List Finding
unfolding config_finding mode_finding uplink_finding
status_findings h (some s) =
    if alive h.procs h.now s
    then config_finding s.config_error ++ (mode_finding s ∷ uplink_finding s.interface)
    else finding firewall fail (codes "ai-firewall stopped responding")
        (codes "its status file is stale") (some (codes "start-firewall"))
      ∷ []
status_findings h none =
    if any (λ i. true) h.pinned
    then finding firewall warn (codes "The filter is running without its daemon")
        (codes
          "the last rules still apply, but nothing bans attackers or follows network changes; `sudo ai-firewall off` stops it entirely")
        (some (codes "start-firewall"))
      ∷ []
    else if h.service_installed
    then finding firewall fail (codes "ai-firewall is not running")
        (codes "the service is installed but not running") (some (codes "start-firewall"))
      ∷ []
    else finding firewall info (codes "ai-firewall is not installed as a service")
        (codes "run ./packaging/install.sh") no_fix
      ∷ []

-- The finding, if the test holds.
abbrev when : Bool → Finding → List Finding
when true f = f ∷ []
when false f = []

unfoldable pub check_firewall : Host → List Finding
unfolding status_findings
check_firewall h =
    status_findings h h.status
    ++ (when (h.unit_active (codes "ufw")) (
          finding firewall warn (codes "ufw is still running")
            (codes "two firewalls stack their rules; ufw's FORWARD drop policy also cuts off VMs")
            (some (codes "disable-ufw")))
        ++ when (h.unit_active (codes "firewalld")) (
            finding firewall warn (codes "firewalld is still running")
              (codes "two firewalls stack their rules") (some (codes "disable-firewalld"))))

dns_findings : Host → Bool → List Finding
unfolding if_empty join
dns_findings h internet =
    let servers = join (codes " ") (map print_ipv4 h.nameservers) in
    if h.dns_ok
    then finding (codes "dns") fine (codes "DNS works")
        (codes "servers: " ++ if_empty servers (codes "none listed")) no_fix
      ∷ []
    else when internet (
        finding (codes "dns") fail (codes "Internet works but names don't resolve")
          (codes "DNS servers "
            ++ (if_empty servers (codes "(none in /etc/resolv.conf)") ++ codes " don't answer"))
          (if h.unit_active (codes "systemd-resolved")
            then some (codes "restart-resolved")
            else none))

connected : Host → Text → Text → Bool → List Finding
unfolding dns_findings
connected h iface gw internet =
    (if internet
      then finding (codes "network") fine (codes "Internet works")
          (codes "via " ++ (iface ++ (codes ", router " ++ gw))) no_fix
      else finding (codes "network") fail (codes "Connected, but no internet")
          (iface
            ++ (codes " has router "
                ++ (gw
                    ++ codes
                        ", yet nothing outside answers: a captive portal, or the router itself is offline")))
          no_fix)
    ∷ dns_findings h internet

route_findings : Host → Option (Text × ℕ) → List Finding
unfolding if_empty connected
route_findings h none =
    finding (codes "network") fail (codes "Not connected")
      (codes "no default route (NetworkManager: "
        ++ (if_empty (trim (unwrap_or h.network_state [])) (codes "unknown")
            ++ codes "); connect to wifi or plug in a cable"))
      no_fix
    ∷ []
route_findings h (some (iface, gw)) =
    connected h iface (print_ipv4 gw)
      (h.reachable (codes "1.1.1.1:443") || h.reachable (codes "8.8.8.8:53"))

unfoldable pub check_connectivity : Host → List Finding
unfolding route_findings
check_connectivity h = route_findings h h.route

chain_name : Chain → Text
chain_name c = c.family ++ (b' ' ∷ (c.table ++ (b' ' ∷ c.name)))

culprit_of : List Chain → Text
unfolding strip_prefix
culprit_of chains =
    if any (λ c. starts_with (codes "ufw-") c.name) chains
    then codes "ufw"
    else if any (λ c. starts_with (codes "DOCKER") c.name) chains
    then codes "Docker"
    else codes "a firewall rule"

blocking_findings : List Chain → Text → List Chain → List Finding
unfolding chain_name culprit_of join
blocking_findings chains bridge [] = []
blocking_findings chains bridge (c ∷ cs) =
    finding (codes "vm") fail (codes "VMs on " ++ (bridge ++ codes " are cut off"))
      (culprit_of chains
        ++ (codes " set a drop-by-default FORWARD policy ("
            ++ (join (codes ", ") (map chain_name (c ∷ cs))
                ++ (codes ") with no exception for " ++ bridge))))
      (some (codes "allow-vm-forwarding"))
    ∷ []

subnet_of : Text → List IfaceNet → Option Cidr
subnet_of bridge [] = none
subnet_of bridge (n ∷ ns) = if text_eq n.iface bridge then some n.net else subnet_of bridge ns

abbrev front_of : Option (Text × Text) → Text → Text
front_of none s = s
front_of (some parts) s = parts.0

has_nat : List Chain → Option Cidr → Bool
has_nat chains none = true
has_nat chains (some net) =
    let text = print_ipv4 net.net in
    let prefix = front_of (rsplit_once b'.' text) text in
    any (λ c. contains_text (codes "masquerade") c.body && contains_text prefix c.body) chains

nat_findings : Host → List Chain → Text → List Finding
unfolding has_nat subnet_of strip_prefix
nat_findings h chains bridge =
    when
      (starts_with (codes "virbr") bridge
        && (is_some (h.ifindex bridge) && not (has_nat chains (subnet_of bridge h.networks))))
      (finding (codes "vm") warn (codes "No NAT for " ++ bridge)
        (codes
          "libvirt's masquerade rule is missing (something flushed the ruleset), so VM traffic leaves with an address nobody can answer")
        (some (codes "restart-libvirt-network")))

bridge_findings : Host → List Chain → List Text → List Finding
unfolding blocking_findings nat_findings
bridge_findings h chains [] = []
bridge_findings h chains (bridge ∷ rest) =
    blocking_findings chains bridge (blocking_forward_chains chains bridge)
    ++ (nat_findings h chains bridge ++ bridge_findings h chains rest)

-- `ok` stays set where forwarding is on and nothing was found.
all_well : Text → Bool → List Finding → List Finding
all_well names forwarding [] = when forwarding (
    finding (codes "vm") fine (codes "VM and container networking looks right")
      (codes "bridges: " ++ names) no_fix)
all_well names forwarding (f ∷ fs) = f ∷ fs

vm_findings : Host → Text → Bool → Option Text → List Finding
unfolding all_well bridge_findings
vm_findings h names forwarding none = []
vm_findings h names forwarding (some text) =
    let chains = parse_ruleset text in
    all_well names forwarding (bridge_findings h chains (vm_bridges h.bridges))

is_forwarding : Option Text → Bool
is_forwarding none = false
is_forwarding (some text) = text_eq (trim text) (codes "1")

unfoldable pub check_vms : Host → List Finding
unfolding vm_findings is_forwarding join
check_vms h =
    let names = join (codes " ") h.bridges in
    let forwarding = is_forwarding h.ip_forward in
    if not (any (λ b. true) h.bridges)
    then []
    else when (not forwarding) (
        finding (codes "vm") fail (codes "IP forwarding is off")
          (codes "VMs and containers on "
            ++ (names ++ codes " can't reach the internet without it"))
          (some (codes "enable-forwarding")))
      ++ (if h.is_root then vm_findings h names forwarding h.nft_ruleset else [])

-- The banned sources that the daemon would protect.
unfoldable pub protected_bans : Detector → List Src → List Src
protected_bans guard banned = retain (λ ip. is_protected guard ip) banned

module _ (show : Src → Text) where
  unfoldable pub hit_findings : List Src → List Finding
  unfolding join
  hit_findings [] = []
  hit_findings (ip ∷ ips) =
      finding firewall fail (codes "An address you depend on is banned")
        (join (codes " ") (map show (ip ∷ ips))
          ++ codes " (router, DNS, this machine or a VM network)")
        (some (codes "unban-protected"))
      ∷ []

  unfoldable pub ban_findings : Detector → Option (List Src) → List Finding
  unfolding hit_findings protected_bans
  ban_findings guard none = []
  ban_findings guard (some banned) = hit_findings (protected_bans guard banned)

  unfoldable pub check_bans : Host → List Finding
  unfolding ban_findings
  check_bans h = if h.is_root then ban_findings h.guard h.banned else []

  unfoldable pub diagnose : Host → List Finding
  diagnose h =
      check_firewall h
      ++ (check_connectivity h
          ++ (check_vms h
              ++ (check_bans h
                  ++ when (not h.is_root) (
                      finding (codes "doctor") info (codes "Partial check")
                        (codes
                          "run `sudo ai-firewall doctor` to also inspect firewall rules and bans")
                        no_fix))))
