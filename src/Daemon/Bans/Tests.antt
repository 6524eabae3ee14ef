-- ===== src/Daemon/Bans/Tests.antt =====
-- Bans and offenders of ai-firewall/src/daemon.rs across restarts, on concrete clocks.
use ai_firewall.Prelude.{ℕ, ◌-◌, ◌≡◌, refl, none, some, List, [], ◌∷◌, arith}
use ai_firewall.Addr.{v4}
use ai_firewall.Detector.{Offender, BanConfig}
use ai_firewall.Detector.Observe.{strike}
use ai_firewall.Detector.Tests.{thousandths}
use ai_firewall.State.{saved_offender}
use ai_firewall.State.Blocklist.{lookup}
use ai_firewall.State.Blocklist
use ai_firewall.Daemon.{Shared}
use ai_firewall.Daemon.Tests.{shared, ban_map, ban_map_laws}
use ai_firewall.Daemon.Bans.{restored_offender}
use ai_firewall.Daemon.Bans.Restored.{restored_offender-quiet}
use ai_firewall.Daemon.Bans.Restarts.{Restart, carry_all, TakesBan, Ends, restarts_keep_ban}

abbrev quick : BanConfig
quick = record { base_secs = 120; max_secs = 86400; forgive_secs = 600 }

-- The last ban was 100 s before the save and 1,100 s before the restore, but the machine has been up
-- for 50 s only, so that a quiet time of 600 s does not forgive.
restored_offender-quiet_example :
    let o : Offender = record { strikes = 3; last_ban = 900 } in
    let o' =
      restored_offender thousandths ban_map 6_000 50 (saved_offender 5_000 1_000 (v4 7, o)) in
    (o'.strikes ≡ 3) × (50 - o'.last_ban ≡ 50) × ((strike quick (some o') 60).strikes ≡ 4)
restored_offender-quiet_example =
    restored_offender-quiet thousandths ban_map (v4 7) (record { strikes = 3; last_ban = 900 })
      5_000 1_000 6_000 50 quick 10 (omega arith) (omega arith) (omega arith)

-- Two restarts of the machine with empty ban maps, at 10.7 s and at 30.2 s of the wall clock.
abbrev empty : Shared thousandths
empty = record shared { blocklist = record { v4_map = []; v6_map = none } }

abbrev restarts : List (Restart thousandths ban_map)
restarts =
    record {
      saved_at = 10_700_000_000;
      booted_at = 20_000_000_000;
      restored_at = 22_900_000_000;
      host = empty;
    }
    ∷ record {
      saved_at = 30_200_000_000;
      booted_at = 31_000_000_000;
      restored_at = 33_100_000_000;
      host = empty;
    }
    ∷ []

-- A ban up to 90.5 s ends at 91.1 s after the second restart, in whose clock that is 60.1 s.
moved :
    carry_all thousandths ban_map (v4 7) [] 500_000_000 90_000_000_000 restarts
    ≡ some (31_000_000_000, 60_100_000_000)
unfolding carry_all ai_firewall.State.saved_ban ai_firewall.State.remaining lookup
    Blocklist.contains Blocklist.insert ai_firewall.State.expiry_for
moved = refl

takes : TakesBan thousandths ban_map (v4 7) empty.blocklist
unfolding lookup Blocklist.insert
takes = record { absent = refl; takes = λ e. (_, refl) }

restarts_keep_ban_example :
    Ends thousandths ban_map 90_500_000_000 2 40_000_000_000
      (carry_all thousandths ban_map (v4 7) [] 500_000_000 90_000_000_000 restarts)
    × ((booted : ℕ) × (carry_all thousandths ban_map (v4 7) [] 500_000_000 0 restarts
          ≡ some (booted, 0)))
restarts_keep_ban_example =
    restarts_keep_ban thousandths ban_map ban_map_laws (v4 7) [] 500_000_000 90_000_000_000
      1_000_000_000 restarts 40_000_000_000 (omega arith) (omega arith)
      (
        omega arith,
        omega arith,
        omega arith,
        takes,
        (omega arith, omega arith, omega arith, takes, omega arith),
      )
      (omega arith)
