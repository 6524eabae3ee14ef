-- ===== src/Doctor/Unban.antt =====
-- ai-firewall/src/doctor.rs, the fix `unban-protected`: the sources that `check_bans` finds are taken
-- from the maps, one after the other, up to the first removal that fails.
pub mod Lifted
pub mod Tests
use ai_firewall.Prelude.{
  ℕ, Bool, true, false, Option, none, some, List, [], ◌∷◌, map, length, if◌then◌else◌,
}
use ai_firewall.Addr.{Src}
use ai_firewall.Detector.{Detector}
use ai_firewall.State.Blocklist.{Blocklist, BanMap, entries}
use ai_firewall.State.Blocklist
use ai_firewall.Doctor.Checks.{protected_bans}

abbrev pub banned_sources : Blocklist → List Src
banned_sources b = map (λ e. e.0) (entries b)

module _ (k : BanMap) where
  -- The maps, and whether every removal went through.
  unfoldable pub unban_each : Blocklist → List Src → Blocklist × Bool
  unban_each b [] = (b, true)
  unban_each b (ip ∷ ips) = elim (Blocklist.remove k b ip) [
    | none ↦ (b, false)
    | some b' ↦ unban_each b' ips
  ]

  -- The maps, and the number in "lifted {} bans" where it gets that far.
  unfoldable pub unban_protected : Detector → Blocklist → Blocklist × Option ℕ
  unban_protected guard b =
      let hits = protected_bans guard (banned_sources b) in
      let done = unban_each b hits in (done.0, if done.1 then some (length hits) else none)
