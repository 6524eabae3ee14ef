-- ===== src/Daemon/Status/Tests.antt =====
-- `build_status` of ai-firewall/src/daemon.rs on concrete maps.
use ai_firewall.Prelude.{ℕ, ◌≡◌, refl, none, [], ◌∷◌, map}
use ai_firewall.Addr.{Src, v4}
use ai_firewall.Text.{codes}
use ai_firewall.Kernel.Maps.{live}
use ai_firewall.State.Blocklist.{lookup, entries}
use ai_firewall.Config.Settings.{policy}
use ai_firewall.Posture.Tests.{cfg}
use ai_firewall.Detector.Tests.{thousandths}
use ai_firewall.Daemon.{Shared}
use ai_firewall.Daemon.Bans.Sweep.{Distinct}
use ai_firewall.Daemon.Tests.{shared}
use ai_firewall.Daemon.Status.{Status, build_status, add_labels}
use ai_firewall.Daemon.Status.Shown.{shows, IsSorted, build_status-live}

-- Of the three bans, the first is over.
abbrev three_bans : Shared thousandths
three_bans = record shared {
  blocklist = record { v4_map = (9, 900) ∷ (8, 0) ∷ (7, 5_000_000_000) ∷ []; v6_map = none };
}

abbrev clock : Src → ℕ
clock ip = 1_000

abbrev written : Status thousandths
written =
    build_status thousandths clock 4711 2_000 cfg (policy cfg none) [] 0 three_bans (λ slot. none)
      none 1_900 0

-- The labels of the open UDP ports with those of DHCP, each once.
dhcp_added : add_labels (codes "546" ∷ []) (68 ∷ 546 ∷ []) ≡ codes "546" ∷ codes "68" ∷ []
unfolding add_labels ai_firewall.Text.print_uint
dhcp_added = refl

distinct : Distinct (entries three_bans.blocklist)
unfolding entries
distinct = (refl, (refl, (refl, tt)))

two_shown : map (λ b. b.ip) written.bans ≡ v4 7 ∷ v4 8 ∷ []
unfolding build_status entries ai_firewall.State.remaining
two_shown = refl

build_status-live_example :
    ((i : Src) → shows written.bans i ≡ live 1_000 (lookup three_bans.blocklist i))
    × IsSorted written.bans
build_status-live_example =
    build_status-live thousandths clock 4711 2_000 cfg (policy cfg none) [] 0 three_bans
      (λ slot. none) none 1_900 0 distinct
