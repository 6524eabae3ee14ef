-- ===== src/Doctor/Unban/Tests.antt =====
-- The fix `unban-protected` of ai-firewall/src/doctor.rs on concrete maps.
use ai_firewall.Prelude.{◌≡◌, refl, false, some, [], ◌∷◌}
use ai_firewall.Addr.{Src, src_Eq}
use ai_firewall.Config.Cidr.{Cidr}
use ai_firewall.Detector.{Detector, is_protected, set_protected}
use ai_firewall.Detector.Tests.{fresh}
use ai_firewall.Daemon.Tests.{show, ban_map, ban_map_laws}
use ai_firewall.State.Blocklist.{Blocklist, lookup, entries}
use ai_firewall.Daemon.Bans.Sweep.{Distinct}
use ai_firewall.State.Entries.{RemovesPresent}
use ai_firewall.Doctor.Checks.{Host, check_bans}
use ai_firewall.Doctor.Checks.Tests.{lonely}
use ai_firewall.Doctor.Unban.{banned_sources, unban_protected}
use ai_firewall.Doctor.Unban.Lifted.{unban_protected-check_bans}

present : RemovesPresent ban_map
present = record { removes = λ m a h. refl }

-- The router is 192.168.1.1, and it is banned beside another address.
abbrev router : Detector
router = set_protected fresh (record { net = 0xC0A80101; mask = 0xFFFFFFFF } ∷ []) []

abbrev host : Host
host = record lonely { guard = router }

abbrev banned : Blocklist
banned = record { v4_map = (0xC0A80101, 0) ∷ (0x09090909, 900) ∷ []; v6_map = some ((5, 0) ∷ []) }

one_lifted : (unban_protected ban_map host.guard banned).1 ≡ some 1
unfolding unban_protected ai_firewall.Doctor.Unban.unban_each
    ai_firewall.Doctor.Checks.protected_bans entries is_protected set_protected
    ai_firewall.Config.Cidr.contains ai_firewall.State.Blocklist.remove
one_lifted = refl

distinct : Distinct (entries banned)
unfolding entries
distinct = (refl, (refl, (refl, tt)))

unban_protected-check_bans_example :
    let fixed = unban_protected ban_map host.guard banned in
    (fixed.1 ≡ some 1)
    × (check_bans show (record host { banned = some (banned_sources fixed.0) }) ≡ [])
    × ((i : Src) → is_protected host.guard i ≡ false → lookup fixed.0 i ≡ lookup banned i)
unfolding ai_firewall.Doctor.Checks.protected_bans entries is_protected set_protected
    ai_firewall.Config.Cidr.contains
unban_protected-check_bans_example =
    unban_protected-check_bans ban_map ban_map_laws present show host banned distinct
