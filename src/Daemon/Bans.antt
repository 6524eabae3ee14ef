-- ===== src/Daemon/Bans.antt =====
-- ai-firewall/src/daemon.rs: `enact`, `sweep`, `restore` and `refresh_protection`. A hash map's
-- entries come in the order of the list that models it.
pub mod Enact
pub mod Sweep
pub mod Refresh
pub mod Protection
pub mod Restored
pub mod Restarts
pub mod Tests
use ai_firewall.Prelude.{
  ℕ, zero, suc, ◌+◌, ◌-◌, ◌/◌, Bool, true, false, not, ◌&&◌, ◌||◌, Option, none, some, List, [],
  ◌∷◌, ◌++◌, map, length, retain, get, contains_key, insert, remove, any, unwrap_or, ltb, ◌==◌,
  if◌then◌else◌,
}
use ai_firewall.Text.{Text, codes, text_eq}
use ai_firewall.Addr.{Src, src_Eq, src_eq, display}
use ai_firewall.Config.Cidr.{Cidr}
use ai_firewall.Config.Cidr
use ai_firewall.Config.Settings.{parse_all}
use ai_firewall.Detector.Float.{Float32}
use ai_firewall.Detector.{Offender, is_protected, set_protected, restore_offender}
use ai_firewall.Detector.Observe.{Ban, observe}
use ai_firewall.Wire.{PacketEvent}
use ai_firewall.History.{push}
use ai_firewall.State.{
  expiry_for, remaining, BanRecord, SavedBan, SavedOffender, Saved, manual_record,
}
use ai_firewall.State.Blocklist.{Blocklist, BanMap, entries}
use ai_firewall.State.Blocklist
use ai_firewall.Daemon.{RecentBan, Shared}

abbrev pub recent_bans : ℕ
recent_bans = 20

-- `pop_front` on a full queue, then `push_back`.
abbrev drop_first : {A : Type 0} → List A → List A
drop_first [] = []
drop_first (x ∷ xs) = xs

unfoldable pub push_recent : {A : Type 0} → A → List A → List A
push_recent ban recent =
    (if length recent == recent_bans then drop_first recent else recent) ++ ban ∷ []

module _ (fl : Float32) (k : BanMap) where
  -- `let _ = blocklist.remove(ip)`
  unfoldable pub try_remove : Blocklist → Src → Blocklist
  try_remove b src = unwrap_or (Blocklist.remove k b src) b

  unfoldable pub auto_record : Ban fl → BanRecord
  auto_record ban = record {
    reason = ban.reason ++ (codes " (" ++ (ban.ports ++ codes ")"));
    source = codes "auto";
    strikes = ban.strikes;
  }

  -- The ban entered, if the map takes it.
  enter : (Src → Text) → Shared fl → Ban fl → Option Blocklist → Shared fl
  enter show s ban none = s
  enter show s ban (some b) = record s {
    blocklist = b;
    records = insert ban.ip (auto_record ban) s.records;
    dirty = true;
    notes =
        if s.notify_bans
        then push s.notes (show ban.ip) (ban.reason ++ (codes " on " ++ ban.ports))
        else s.notes;
  }

  remember : Shared fl → Ban fl → Bool → ℕ → Shared fl
  remember s ban enforced unix = record s {
    recent =
        push_recent
          (record {
            ip = ban.ip;
            reason = ban.reason;
            ports = ban.ports;
            score = ban.score;
            secs = ban.secs;
            strikes = ban.strikes;
            at_unix = unix;
            enforced = enforced;
          })
          s.recent;
  }

  -- `show` is the text of a source, `boot_ns` and `unix` the two clocks.
  unfoldable pub enact : (Src → Text) → ℕ → ℕ → Shared fl → Ban fl → Shared fl
  unfolding enter remember
  enact show boot_ns unix s ban =
      let s' =
        if s.enforce
        then enter show s ban (Blocklist.insert k s.blocklist ban.ip (expiry_for boot_ns ban.secs))
        else s in
      remember s' ban s.enforce unix

  -- One event of the ring buffer, in the loop of `spawn_event_reader`.
  enact_if : (Src → Text) → ℕ → ℕ → Shared fl → Option (Ban fl) → Shared fl
  enact_if show boot_ns unix s none = s
  enact_if show boot_ns unix s (some ban) = enact show boot_ns unix s ban

  unfoldable pub handle_event : (Src → Text) → ℕ → ℕ → ℕ → Shared fl → PacketEvent → Shared fl
  unfolding enact_if
  handle_event show now boot_ns unix s ev =
      let (d, ban) = observe fl s.detector ev now in
      enact_if show boot_ns unix (record s { detector = d }) ban

  -- One entry of the ban maps, with the time left on it.
  sweep_entry : Shared fl → Src → Option ℕ → Shared fl
  sweep_entry s ip none = record s {
    blocklist = try_remove s.blocklist ip;
    records = remove ip s.records;
    dirty = true;
  }
  sweep_entry s ip (some left) =
      if contains_key ip s.records
      then s
      else record s { records = insert ip manual_record s.records; dirty = true }

  sweep_entries : (Src → ℕ) → Shared fl → List (Src × ℕ) → Shared fl
  unfolding sweep_entry
  sweep_entries clock s [] = s
  sweep_entries clock s ((ip, expiry) ∷ es) =
      sweep_entries clock (sweep_entry s ip (remaining (clock ip) expiry)) es

  -- `clock ip` is the time that `remaining` reads for the entry of `ip`.
  unfoldable pub sweep : (Src → ℕ) → Shared fl → Shared fl
  unfolding sweep_entries
  sweep clock s =
      let es = entries s.blocklist in
      let s' = sweep_entries clock s es in
      let records = retain (λ r. contains_key r.0 es) s'.records in
      record s' { records = records; dirty = s'.dirty || not (length records == length s'.records) }

  lift_all : Shared fl → List (Src × BanRecord) → Shared fl
  lift_all s [] = s
  lift_all s ((ip, r) ∷ rs) =
      lift_all
        (record s {
          blocklist = try_remove s.blocklist ip;
          records = remove ip s.records;
          dirty = true;
        })
        rs

  -- `auto` is what `net::auto_protected` returns, `own6` what `net::own_v6_prefixes` returns.
  unfoldable pub refresh_protection : List Cidr → List ℕ → List Text → Shared fl → Shared fl
  unfolding lift_all
  refresh_protection auto own6 trusted s =
      let d = set_protected s.detector (auto ++ unwrap_or (parse_all trusted) []) own6 in
      let lift = retain (λ r. text_eq r.1.source (codes "auto") && is_protected d r.0) s.records in
      lift_all (record s { detector = d }) lift

  -- The seconds that a saved ban has left, if it is not over.
  unfoldable pub saved_secs : ℕ → ℕ → Option ℕ
  saved_secs unix expires_unix =
      if expires_unix == 0
      then some 0
      else if ltb unix expires_unix
      then some (expires_unix - unix)
      else none

  put_back : Blocklist → Src → ℕ → Blocklist
  put_back b ip expiry =
      if Blocklist.contains b ip then b else unwrap_or (Blocklist.insert k b ip expiry) b

  restore_ban : ℕ → ℕ → Shared fl → SavedBan → Shared fl
  unfolding put_back saved_secs
  restore_ban unix boot_ns s b = elim (saved_secs unix b.expires_unix) [
    | none ↦ s
    | some secs ↦ record s {
      blocklist = put_back s.blocklist b.ip (expiry_for boot_ns secs);
      records =
          if contains_key b.ip s.records
          then s.records
          else insert b.ip (record { reason = b.reason; source = b.source; strikes = b.strikes })
              s.records;
    }
  ]

  restore_bans : ℕ → (Src → ℕ) → Shared fl → List SavedBan → Shared fl
  unfolding restore_ban
  restore_bans unix clock s [] = s
  restore_bans unix clock s (b ∷ bs) =
      restore_bans unix clock (restore_ban unix (clock b.ip) s b) bs

  -- The last ban in this boot's clock.
  abbrev pub restored_offender : ℕ → ℕ → SavedOffender → Offender
  restored_offender unix boot o = record {
    strikes = o.strikes;
    last_ban = boot - (unix - o.last_ban_unix);
  }

  restore_offenders : ℕ → ℕ → Shared fl → List SavedOffender → Shared fl
  restore_offenders unix boot s [] = s
  restore_offenders unix boot s (o ∷ os) =
      restore_offenders unix boot
        (record s { detector = restore_offender s.detector o.ip (restored_offender unix boot o) })
        os

  -- `restore` of a saved state, with the clocks in seconds, and the clock at each ban in ns.
  unfoldable pub restore : ℕ → ℕ → (Src → ℕ) → Saved → Shared fl → Shared fl
  unfolding restore_bans restore_offenders
  restore unix boot clock saved s =
      restore_offenders unix boot (restore_bans unix clock s saved.bans) saved.offenders
