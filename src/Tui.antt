-- ===== src/Tui.antt =====
-- ai-firewall/src/tui.rs: the view of the daemon's status file, whether the daemon is alive, and the
-- text of a duration. The dashboard itself is not modelled.
use ai_firewall.Prelude.{
  ℕ, ◌-◌, ◌/◌, ◌%◌, Bool, not, ◌&&◌, ◌||◌, Option, List, ◌∷◌, ltb, ◌==◌, if◌then◌else◌,
}
use ai_firewall.Text.{Text, codes, print_uint}

pub record FeedView : Type 0 where
  pub name : Text
  pub entries : ℕ
  pub updated_unix : ℕ
  pub error : Option Text

pub record BanView : Type 0 where
  pub ip : Text
  pub remaining_secs : ℕ
  pub reason : Text
  pub source : Text
  pub strikes : ℕ

-- Without `recent`, which holds the scores of the last bans.
pub record StatusView : Type 0 where
  pub pid : ℕ
  pub mode : Text
  pub interface : Option Text
  pub xdp_mode : Option Text
  pub udp_strict : Bool
  pub started_unix : ℕ
  pub updated_unix : ℕ
  pub attaches : ℕ
  pub passed : ℕ
  pub dropped_blocklist : ℕ
  pub dropped_policy : ℕ
  pub dropped_feed : ℕ
  pub events_lost : ℕ
  pub tracked_sources : ℕ
  pub allow_tcp : List Text
  pub allow_udp : List Text
  pub profile : Option Text
  pub rules : List Text
  pub feeds : List FeedView
  pub feed_networks : ℕ
  pub config_error : Option Text
  pub posture : Option Text
  pub bans : List BanView

-- What /proc shows: whether other processes can be seen at all, and which there are.
pub record Processes : Type 0 where
  pub visible : Bool
  pub exists : ℕ → Bool

unfoldable pub daemon_alive : Processes → ℕ → ℕ → ℕ → Bool
daemon_alive procs pid updated_unix now =
    (not procs.visible || procs.exists pid) && ltb (now - updated_unix) 30

unfoldable pub alive : Processes → ℕ → StatusView → Bool
unfolding daemon_alive
alive procs now s = daemon_alive procs s.pid s.updated_unix now

-- `{:02}` of a number below 100.
abbrev two_digits : ℕ → Text → Text
two_digits n rest = if ltb n 10 then b'0' ∷ print_uint n rest else print_uint n rest

unfoldable pub duration : ℕ → Text
duration secs =
    if secs == 0
    then codes "forever"
    else if ltb secs 120
    then print_uint secs (codes "s")
    else if ltb secs 7200
    then print_uint (secs / 60) (codes "m")
    else print_uint (secs / 3600) (b'h' ∷ two_digits (secs % 3600 / 60) (codes "m"))
