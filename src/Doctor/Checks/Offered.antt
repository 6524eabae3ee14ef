-- ===== src/Doctor/Checks/Offered.antt =====
-- The fixes that the findings of ai-firewall/src/doctor.rs offer.
use ai_firewall.Prelude.{
  ℕ, ◌≡◌, refl, Bool, true, false, not, ◌||◌, Option, none, some, List, [], ◌∷◌, ◌++◌, any, is_some,
  if◌then◌else◌, Bool-cases, inl, inr,
}
use ai_firewall.Detector.Bounds.{All}
use ai_firewall.Detector.{Detector}
use ai_firewall.Text.{Text, codes, text_eq}
use ai_firewall.Addr.{Src}
use ai_firewall.Doctor.Fixes.{action}
use ai_firewall.Doctor.{Chain, parse_ruleset, vm_bridges, blocking_forward_chains}
use ai_firewall.Tui.{alive, StatusView}
use ai_firewall.Doctor.Checks.{
  Finding, Host, when, config_finding, mode_finding, uplink_finding, status_findings,
  check_firewall, dns_findings, connected, route_findings, check_connectivity, blocking_findings,
  nat_findings, bridge_findings, all_well, vm_findings, check_vms, hit_findings, ban_findings,
  check_bans, protected_bans, diagnose,
}

abbrev IsHandled : Option Text → Type 0
IsHandled none = Unit {0}
IsHandled (some id) = is_some (action id) ≡ true

-- A finding offers no fix, or one that has an action.
abbrev pub OffersHandled : Finding → Type 0
OffersHandled f = IsHandled f.fix

abbrev Handled : List Finding → Type 0
Handled fs = All OffersHandled fs

append-Handled : (fs gs : List Finding) → Handled fs → Handled gs → Handled (fs ++ gs)
append-Handled [] gs h k = k
append-Handled (f ∷ fs) gs h k = (h.0, append-Handled fs gs h.1 k)

when-Handled : (b : Bool) (f : Finding) → OffersHandled f → Handled (when b f)
when-Handled true f h = (h, tt)
when-Handled false f h = tt

Handled-if :
    (b : Bool) (fs gs : List Finding) → Handled fs → Handled gs → Handled (if b then fs else gs)
Handled-if true fs gs h k = h
Handled-if false fs gs h k = k

config-Handled : (o : Option Text) → Handled (config_finding o)
unfolding config_finding
config-Handled none = tt
config-Handled (some err) = (tt, tt)

mode-OffersHandled : (s : StatusView) → OffersHandled (mode_finding s)
unfolding mode_finding
mode-OffersHandled s = elim (Bool-cases (text_eq s.mode (codes "enforce"))) [
  | inl e ↦ rw e tt
  | inr e ↦ rw e tt
]

uplink-Handled : (o : Option Text) → Handled (uplink_finding o)
unfolding uplink_finding
uplink-Handled none = (tt, tt)
uplink-Handled (some i) = tt

status-Handled : (h : Host) (o : Option StatusView) → Handled (status_findings h o)
unfolding status_findings action
status-Handled h (some s) =
    Handled-if (alive h.procs h.now s) _ _
      (append-Handled (config_finding s.config_error) (mode_finding s ∷ uplink_finding s.interface)
        (config-Handled s.config_error) (mode-OffersHandled s, uplink-Handled s.interface))
      (refl, tt)
status-Handled h none =
    Handled-if (any (λ i. true) h.pinned) _ _ (refl, tt)
      (Handled-if h.service_installed _ _ (refl, tt) (tt, tt))

firewall-Handled : (h : Host) → Handled (check_firewall h)
unfolding check_firewall action
firewall-Handled h = append-Handled (status_findings h h.status) _ (status-Handled h h.status) (
    append-Handled (when (h.unit_active (codes "ufw")) _) _
      (when-Handled (h.unit_active (codes "ufw")) _ refl)
      (when-Handled (h.unit_active (codes "firewalld")) _ refl))

dns-Handled : (h : Host) (internet : Bool) → Handled (dns_findings h internet)
unfolding dns_findings action
dns-Handled h internet =
    Handled-if h.dns_ok _ _ (tt, tt)
      (when-Handled internet _ (resolved (h.unit_active (codes "systemd-resolved"))))
  where
    resolved : (b : Bool) → IsHandled (if b then some (codes "restart-resolved") else none)
    resolved true = refl
    resolved false = tt

route-Handled : (h : Host) (o : Option (Text × ℕ)) → Handled (route_findings h o)
unfolding route_findings connected
route-Handled h none = (tt, tt)
route-Handled h (some (iface, gw)) =
    let internet = h.reachable (codes "1.1.1.1:443") || h.reachable (codes "8.8.8.8:53") in
    elim (Bool-cases internet) [
      | inl e ↦ rw e (tt, dns-Handled h true)
      | inr e ↦ rw e (tt, dns-Handled h false)
    ]

blocking-Handled :
    (chains cs : List Chain) (bridge : Text) → Handled (blocking_findings chains bridge cs)
unfolding blocking_findings action
blocking-Handled chains [] bridge = tt
blocking-Handled chains (c ∷ cs) bridge = (refl, tt)

nat-Handled :
    (h : Host) (chains : List Chain) (bridge : Text) → Handled (nat_findings h chains bridge)
unfolding nat_findings action
nat-Handled h chains bridge = when-Handled _ _ refl

bridge-Handled :
    (h : Host) (chains : List Chain) (bs : List Text) → Handled (bridge_findings h chains bs)
unfolding bridge_findings
bridge-Handled h chains [] = tt
bridge-Handled h chains (b ∷ bs) =
    append-Handled (blocking_findings chains b (blocking_forward_chains chains b)) _
      (blocking-Handled chains (blocking_forward_chains chains b) b)
      (append-Handled (nat_findings h chains b) _ (nat-Handled h chains b)
        (bridge-Handled h chains bs))

well-Handled :
    (names : Text) (forwarding : Bool) (fs : List Finding)
    → Handled fs
    → Handled (all_well names forwarding fs)
unfolding all_well
well-Handled names forwarding [] h = when-Handled forwarding _ tt
well-Handled names forwarding (f ∷ fs) h = h

vm-Handled :
    (h : Host) (names : Text) (forwarding : Bool) (o : Option Text)
    → Handled (vm_findings h names forwarding o)
unfolding vm_findings
vm-Handled h names forwarding none = tt
vm-Handled h names forwarding (some text) =
    let chains = parse_ruleset text in
    well-Handled names forwarding (bridge_findings h chains (vm_bridges h.bridges))
      (bridge-Handled h chains (vm_bridges h.bridges))

vms-Handled : (h : Host) → Handled (check_vms h)
unfolding check_vms action
vms-Handled h = Handled-if (not (any (λ b. true) h.bridges)) _ _ tt (
    append-Handled (when _ _) _ (when-Handled _ _ refl)
      (Handled-if h.is_root _ _ (vm-Handled h _ _ h.nft_ruleset) tt))

module _ (show : Src → Text) where
  hits-Handled : (ips : List Src) → Handled (hit_findings show ips)
  unfolding hit_findings action
  hits-Handled [] = tt
  hits-Handled (ip ∷ ips) = (refl, tt)

  bans-Handled : (guard : Detector) (o : Option (List Src)) → Handled (ban_findings show guard o)
  unfolding ban_findings
  bans-Handled guard none = tt
  bans-Handled guard (some banned) = hits-Handled (protected_bans guard banned)

  -- Whatever the host is like, every fix that a finding of the doctor offers has an action that `apply`
  -- runs.
  pub diagnose-OffersHandled : (h : Host) → All OffersHandled (diagnose show h)
  unfolding diagnose check_connectivity check_bans
  diagnose-OffersHandled h = append-Handled (check_firewall h) _ (firewall-Handled h) (
      append-Handled (check_connectivity h) _ (route-Handled h h.route) (
        append-Handled (check_vms h) _ (vms-Handled h) (
          append-Handled (check_bans show h) _
            (Handled-if h.is_root _ _ (bans-Handled h.guard h.banned) tt)
            (when-Handled (not h.is_root) _ tt))))
