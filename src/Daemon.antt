-- ===== src/Daemon.antt =====
-- ai-firewall/src/daemon.rs: what the daemon does with the ban maps, its records and its settings.
-- Logging and the history file are not modelled; the clocks are arguments.
pub mod Bans
pub mod Uplink
pub mod Apply
pub mod Rules
pub mod Status
pub mod FeedNets
pub mod Tests
use ai_firewall.Prelude.{ℕ, Bool, List}
use ai_firewall.Addr.{Src}
use ai_firewall.Detector.{Detector}
use ai_firewall.State.Blocklist.{Blocklist}
use ai_firewall.State.{BanRecord}
use ai_firewall.History.{BanNotes}
use ai_firewall.Text.{Text}
use ai_firewall.Detector.Float.{Float32}

module _ (fl : Float32) where
  pub record RecentBan : Type 0 where
    pub ip : Src
    pub reason : Text
    pub ports : Text
    pub score : fl.F
    pub secs : ℕ
    pub strikes : ℕ
    pub at_unix : ℕ
    pub enforced : Bool

  pub record Shared : Type 0 where
    pub detector : Detector
    pub blocklist : Blocklist
    pub records : List (Src × BanRecord)
    pub enforce : Bool
    pub recent : List RecentBan
    pub dirty : Bool
    pub notify_bans : Bool
    pub notes : BanNotes
